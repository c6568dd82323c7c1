-- ===== src/Resources/Runs.antt =====
-- Runs of `OpResMng` of proxy/common_neon/operator_resource_mng.py: a step is a call of the mempool
-- (proxy/mempool/mempool.py) or of the task that checks the resources
-- (proxy/mempool/mempool_periodic_task_op_res.py).
use proxy_model_py.Base.{
  ℕ, ◌≡◌, refl, ap, subst, Result, String, true, false, none, some, List, [], ◌∷◌, arith, Option,
  ok, ◌>>=◌, ◌==◌, nat_eq, string_eq, pair_eq, Bool-cases, Option-cases, inl, inr, ==_refl,
}
use proxy_model_py.Dict
use proxy_model_py.Dict.{Dict}
use proxy_model_py.Resources.{
  OpResIdent, OpResUsedTime, OpResMng, member, same_ident, fresh, touch, set_neon_sig, touch_found,
  get_resource_impl, get_resource, update_resource, append_disabled, append_free, release_resource,
  disable_resource, enable_resource, check_used_resource_list, get_disabled_resource, use_free,
  take_disabled,
}
use proxy_model_py.Resources.Places.{
  count_by, res_ident, count_by-append, count-set_add, count-member, count-set_discard,
}
use proxy_model_py.Resources.Keeping.{
  IsExclusive, Keeps, Keeps-equal, Keeps-refl, Keeps-trans, IsExclusive-after, touch-Keeps,
  with_used, with_used-Keeps, update_resource-Keeps,
}
use proxy_model_py.Resources.Steps.{release_resource-Keeps, check_used_resource_list-Keeps}

-- A transaction that has a resource gets the same again; any other gets the first free one, or none.
abbrev pub expected : OpResMng → Option OpResUsedTime → List OpResUsedTime → Option OpResIdent
expected m (some res) free = some res.ident
expected m none (res ∷ rest) = some res.ident
expected m none [] = none

pub get_used :
    (m : OpResMng) (sig : String) (now : ℕ) (res : OpResUsedTime)
    → Dict.get m.used_res_ident_dict sig ≡ some res
    → get_resource m sig now ≡ ok (touch m sig res now, some res.ident)
unfolding get_resource get_resource_impl touch
get_used m sig now res at = rw (at, get_resource_impl) refl

pub get_absent :
    (m : OpResMng) (sig : String) (now : ℕ)
    → Dict.get m.used_res_ident_dict sig ≡ none
    → get_resource m sig now
      ≡ (use_free m sig m.free_res_ident_list >>= λ found. ok (touch_found found.0 sig now found.1))
unfolding get_resource get_resource_impl
get_absent m sig now absent = rw (absent, get_resource_impl) refl

pub use_free-Keeps :
    (m : OpResMng) (sig : String) (now : ℕ) (free : List OpResUsedTime)
    → Dict.HasUniqueKeys m.used_res_ident_dict
    → Dict.get m.used_res_ident_dict sig ≡ none
    → (sig == "") ≡ false
    → m.free_res_ident_list ≡ free
    → (n : OpResMng) × ((use_free m sig free >>= λ found. ok (touch_found found.0 sig now found.1))
        ≡ ok (n, expected m none free))
      × Keeps m n
unfolding set_neon_sig
use_free-Keeps m sig now [] u absent named f = (m, refl, Keeps-refl m u)
use_free-Keeps m sig now (res ∷ rest) u absent named f =
    let k = with_used-Keeps m sig res rest u absent f in
    (
      touch (with_used m sig res rest) sig (record res { neon_sig = sig }) now,
      rw named refl,
      Keeps-trans m (with_used m sig res rest) _ k (
          touch-Keeps (with_used m sig res rest) sig (record res { neon_sig = sig }) now k.unique
            (Dict.get-put_self m.used_res_ident_dict sig (record res { neon_sig = sig }))),
    )

pub get_resource-Keeps :
    (m : OpResMng) (sig : String) (now : ℕ)
    → Dict.HasUniqueKeys m.used_res_ident_dict
    → (sig == "") ≡ false
    → (n : OpResMng) × (get_resource m sig now
        ≡ ok (n, expected m (Dict.get m.used_res_ident_dict sig) m.free_res_ident_list))
      × Keeps m n
get_resource-Keeps m sig now u named = elim (Option-cases (Dict.get m.used_res_ident_dict sig)) [
  | inl absent ↦
      rw (get_absent m sig now absent, absent)
        (use_free-Keeps m sig now m.free_res_ident_list u absent named refl)
  | inr (res, at) ↦
      rw at (touch m sig res now, get_used m sig now res at, touch-Keeps m sig res now u at)
]

-- What is disabled is not checked at the same time.
pub not_checked :
    (m : OpResMng) (ident : OpResIdent) (rest : List OpResIdent)
    → IsExclusive m
    → m.disabled_res_ident_list ≡ ident ∷ rest
    → member ident m.checked_res_ident_set ≡ false
not_checked m ident rest x e = elim (Bool-cases (member ident m.checked_res_ident_set)) [
  | inl held ↦ ground (
    arith,
    x.once ident,
    ap (count_by same_ident ident) e,
    ==_refl ident,
    count-member ident m.checked_res_ident_set held,
  )
  | inr free ↦ free
]

take_disabled-Keeps :
    (m : OpResMng) (idents : List OpResIdent)
    → IsExclusive m
    → m.disabled_res_ident_list ≡ idents
    → Keeps m (take_disabled m idents).0
take_disabled-Keeps m [] x e = Keeps-refl m x.unique
take_disabled-Keeps m (ident ∷ rest) x e =
    let new = not_checked m ident rest x e in
    Keeps-equal m _ x.unique
      (λ i. rw e (omega (arith, count-set_add i ident m.checked_res_ident_set new))) refl

pub get_disabled_resource-Keeps :
    (m : OpResMng) → IsExclusive m → Keeps m (get_disabled_resource m).0
unfolding get_disabled_resource
get_disabled_resource-Keeps m x = take_disabled-Keeps m m.disabled_res_ident_list x refl

pub disable_resource-Keeps :
    (m : OpResMng) (ident : OpResIdent)
    → IsExclusive m
    → member ident m.checked_res_ident_set ≡ true
    → Keeps m (disable_resource m ident)
unfolding disable_resource append_disabled
disable_resource-Keeps m ident x held =
    Keeps-equal m _ x.unique
      (λ i. ground (
        arith,
        count-set_discard i ident m.checked_res_ident_set,
        count-member ident m.checked_res_ident_set held,
        count_by-append same_ident i m.disabled_res_ident_list (ident ∷ []),
        x.once i,
        pair_eq.same_iff ident i,
      ))
      refl

pub enable_resource-Keeps :
    (m : OpResMng) (ident : OpResIdent)
    → IsExclusive m
    → member ident m.checked_res_ident_set ≡ true
    → Keeps m (enable_resource m ident)
unfolding enable_resource append_free fresh
enable_resource-Keeps m ident x held = elim (Bool-cases (member ident m.res_ident_set)) [
  | inl has ↦ rw has (
      Keeps-equal m _ x.unique
        (λ i. ground (
          arith,
          count-set_discard i ident m.checked_res_ident_set,
          count-member ident m.checked_res_ident_set held,
          count_by-append res_ident i m.free_res_ident_list (fresh ident ∷ []),
          x.once i,
          pair_eq.same_iff ident i,
        ))
        refl)
  | inr gone ↦ rw gone (Keeps-refl m x.unique)
]

-- The calls of the mempool and of its task while the list of resources stays as it is. A resource is
-- disabled or enabled only while it is being checked.
pub data Step : OpResMng → OpResMng → Type 0 where
  get :
      (m n : OpResMng) (sig : String) (now : ℕ) (r : Option OpResIdent)
      → (sig == "") ≡ false
      → get_resource m sig now ≡ ok (n, r)
      → Step m n
  update : (m : OpResMng) (sig : String) (now : ℕ) → Step m (update_resource m sig now)
  release :
      (m : OpResMng) (recheck_cnt : ℕ) (sig : String)
      → Step m (release_resource recheck_cnt m sig).0
  recheck :
      (m : OpResMng) (recheck_sec now : ℕ) → Step m (check_used_resource_list recheck_sec now m)
  check : (m : OpResMng) → Step m (get_disabled_resource m).0
  bad :
      (m : OpResMng) (ident : OpResIdent)
      → member ident m.checked_res_ident_set ≡ true
      → Step m (disable_resource m ident)
  good :
      (m : OpResMng) (ident : OpResIdent)
      → member ident m.checked_res_ident_set ≡ true
      → Step m (enable_resource m ident)

pub data Steps : OpResMng → OpResMng → Type 0 where
  done : (m : OpResMng) → Steps m m
  next : (m n o : OpResMng) → Step m n → Steps n o → Steps m o

ok_state :
    {A : Type 0} (n o : OpResMng) (a b : A) (r : Result (OpResMng × A))
    → r ≡ ok (n, a)
    → r ≡ ok (o, b)
    → n ≡ o
ok_state n o a b r e f = cc

Step-Keeps : (m n : OpResMng) → IsExclusive m → Step m n → Keeps m n
Step-Keeps m n x (get _ _ sig now r named e) =
    let g = get_resource-Keeps m sig now x.unique named in
    subst (λ o. Keeps m o) (ok_state g.0 n _ r (get_resource m sig now) g.1 e) g.2
Step-Keeps m _ x (update _ sig now) = update_resource-Keeps m sig now x.unique
Step-Keeps m _ x (release _ n sig) = release_resource-Keeps n m sig x.unique
Step-Keeps m _ x (recheck _ t now) = check_used_resource_list-Keeps t now m x.unique
Step-Keeps m _ x (check _) = get_disabled_resource-Keeps m x
Step-Keeps m _ x (bad _ ident held) = disable_resource-Keeps m ident x held
Step-Keeps m _ x (good _ ident held) = enable_resource-Keeps m ident x held

-- In a run of calls of `get_resource` (with a signature that is not empty), `update_resource`,
-- `release_resource`, `check_used_resource_list` and `get_disabled_resource`, and of `disable_resource` and
-- `enable_resource` for a resource that is being checked at that time: when no resource stands in two places
-- before, none does after, and each resource that the operator has stands where it stood or in one other
-- place. The run has no `init_resource_list`, and does not disable a resource that is not being checked.
pub Steps-IsExclusive : (m o : OpResMng) → IsExclusive m → Steps m o → IsExclusive o × Keeps m o
Steps-IsExclusive m _ x (done _) = (x, Keeps-refl m x.unique)
Steps-IsExclusive m o x (next _ n _ s rest) =
    let k = Step-Keeps m n x s in
    let r = Steps-IsExclusive n o (IsExclusive-after m n x k) rest in (r.0, Keeps-trans m n o k r.1)
