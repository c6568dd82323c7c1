-- ===== src/Resources/Keeping.antt =====
-- What the methods of `OpResMng` of proxy/common_neon/operator_resource_mng.py keep: no resource
-- stands in two places, and none that the operator has gets lost.
use proxy_model_py.Base.{
  ℕ, ◌+◌, ◌≤◌, ◌≡◌, refl, ◌∙◌, String, true, none, some, List, ◌∷◌, arith, nat_eq, string_eq,
  pair_eq, if◌then◌else◌, Option-cases, inl, inr,
}
use proxy_model_py.Dict
use proxy_model_py.Dict.{Dict}
use proxy_model_py.Resources.{
  OpResIdent, OpResUsedTime, OpResMng, member, touch, set_last_used_time, reset_neon_sig,
  touch_found, update_resource, pop_used_resource,
}
use proxy_model_py.Resources.Places.{
  places, count_used, same_as, count-put_new, count-put_same, count-remove,
}

-- No resource stands twice, in one place or in two.
pub record IsExclusive (m : OpResMng) : Type 0 where
  pub unique : Dict.HasUniqueKeys m.used_res_ident_dict
  pub once : (x : OpResIdent) → places m x ≤ 1

-- From `m` to `m'` no resource gets a further place, and one that the operator has loses none.
pub record Keeps (m m' : OpResMng) : Type 0 where
  pub unique : Dict.HasUniqueKeys m'.used_res_ident_dict
  pub no_more : (x : OpResIdent) → places m' x ≤ places m x
  pub held : (x : OpResIdent) → member x m.res_ident_set ≡ true → places m' x ≡ places m x
  pub same_set : m'.res_ident_set ≡ m.res_ident_set

pub Keeps-equal :
    (m m' : OpResMng)
    → Dict.HasUniqueKeys m'.used_res_ident_dict
    → ((x : OpResIdent) → places m' x ≡ places m x)
    → m'.res_ident_set ≡ m.res_ident_set
    → Keeps m m'
Keeps-equal m m' u same set = record {
  unique = u;
  no_more = λ x. omega (arith, same x);
  held = λ x h. same x;
  same_set = set;
}

pub Keeps-refl : (m : OpResMng) → Dict.HasUniqueKeys m.used_res_ident_dict → Keeps m m
Keeps-refl m u = Keeps-equal m m u (λ x. refl) refl

pub Keeps-trans : (m n o : OpResMng) → Keeps m n → Keeps n o → Keeps m o
Keeps-trans m n o a b = record {
  unique = b.unique;
  no_more = λ x. omega (arith, a.no_more x, b.no_more x);
  held = λ x h. b.held x (rw a.same_set h) ∙ a.held x h;
  same_set = b.same_set ∙ a.same_set;
}

pub IsExclusive-after : (m m' : OpResMng) → IsExclusive m → Keeps m m' → IsExclusive m'
IsExclusive-after m m' x k = record {
  unique = k.unique;
  once = λ i. omega (arith, x.once i, k.no_more i);
}

pub touch-Keeps :
    (m : OpResMng) (sig : String) (res : OpResUsedTime) (now : ℕ)
    → Dict.HasUniqueKeys m.used_res_ident_dict
    → Dict.get m.used_res_ident_dict sig ≡ some res
    → Keeps m (touch m sig res now)
unfolding touch set_last_used_time
touch-Keeps m sig res now u at =
    Keeps-equal m (touch m sig res now)
      (Dict.put-HasUniqueKeys m.used_res_ident_dict sig (set_last_used_time res now) u)
      (λ x. omega (
        arith,
        count-put_same x m.used_res_ident_dict sig res (set_last_used_time res now) at refl,
      ))
      refl

pub touch_found-Keeps :
    (m : OpResMng) (sig : String) (now : ℕ)
    → Dict.HasUniqueKeys m.used_res_ident_dict
    → Keeps m (touch_found m sig now (Dict.get m.used_res_ident_dict sig)).0
touch_found-Keeps m sig now u = elim (Option-cases (Dict.get m.used_res_ident_dict sig)) [
  | inl absent ↦ rw absent (Keeps-refl m u)
  | inr (res, at) ↦ rw at (touch-Keeps m sig res now u at)
]

-- The first free resource moves to the used ones.
abbrev pub with_used : OpResMng → String → OpResUsedTime → List OpResUsedTime → OpResMng
with_used m sig res rest = record m {
  free_res_ident_list = rest;
  used_res_ident_dict = Dict.put m.used_res_ident_dict sig (record res { neon_sig = sig });
}

pub with_used-Keeps :
    (m : OpResMng) (sig : String) (res : OpResUsedTime) (rest : List OpResUsedTime)
    → Dict.HasUniqueKeys m.used_res_ident_dict
    → Dict.get m.used_res_ident_dict sig ≡ none
    → m.free_res_ident_list ≡ res ∷ rest
    → Keeps m (with_used m sig res rest)
with_used-Keeps m sig res rest u absent free =
    let named : OpResUsedTime = record res { neon_sig = sig } in
    Keeps-equal m (with_used m sig res rest)
      (Dict.put-HasUniqueKeys m.used_res_ident_dict sig named u)
      (λ x. rw free (omega (arith, count-put_new x m.used_res_ident_dict sig named absent))) refl

pub update_resource-Keeps :
    (m : OpResMng) (sig : String) (now : ℕ)
    → Dict.HasUniqueKeys m.used_res_ident_dict
    → Keeps m (update_resource m sig now)
unfolding update_resource
update_resource-Keeps m sig now u = touch_found-Keeps m sig now u

-- A popped resource is gone from the used ones; it is returned when the operator still has it.
pub pop_used_lem :
    (m : OpResMng) (sig : String) (res : OpResUsedTime)
    → Dict.get m.used_res_ident_dict sig ≡ some res
    → pop_used_resource m sig ≡ (
      record m { used_res_ident_dict = Dict.remove m.used_res_ident_dict sig },
      if member res.ident m.res_ident_set then some (reset_neon_sig res) else none,
    )
unfolding pop_used_resource
pop_used_lem m sig res at = rw (at, pop_used_resource) refl

pub pop_absent_lem :
    (m : OpResMng) (sig : String)
    → Dict.get m.used_res_ident_dict sig ≡ none
    → pop_used_resource m sig ≡ (m, none)
unfolding pop_used_resource
pop_absent_lem m sig absent =
    rw (absent, pop_used_resource, Dict.remove_absent m.used_res_ident_dict sig absent) refl

-- A used resource that leaves the dict and, when the operator has it, enters another place.
pub popped-Keeps :
    (m m' : OpResMng) (sig : String) (res : OpResUsedTime)
    → Dict.HasUniqueKeys m.used_res_ident_dict
    → Dict.get m.used_res_ident_dict sig ≡ some res
    → m'.used_res_ident_dict ≡ Dict.remove m.used_res_ident_dict sig
    → m'.res_ident_set ≡ m.res_ident_set
    → ((x : OpResIdent)
        → places m' x + count_used x m.used_res_ident_dict
          ≡ places m x
            + count_used x m'.used_res_ident_dict
            + (if member res.ident m.res_ident_set then same_as x res.ident else 0))
    → Keeps m m'
popped-Keeps m m' sig res u at used set moved = record {
  unique = rw used (Dict.remove-HasUniqueKeys m.used_res_ident_dict sig u);
  no_more = λ x. ground (arith, moved x, count-remove x m.used_res_ident_dict sig res u at, used);
  held = λ x h. ground (
    arith,
    moved x,
    count-remove x m.used_res_ident_dict sig res u at,
    used,
    pair_eq.same_iff res.ident x,
  );
  same_set = set;
}
