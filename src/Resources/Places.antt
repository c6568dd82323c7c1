-- ===== src/Resources/Places.antt =====
-- Where a resource of the operator stands: how often it is free, used, disabled or checked, by
-- proxy/common_neon/operator_resource_mng.py, and what the parts of its methods do to that number.
use proxy_model_py.Base.{
  ℕ, ◌+◌, ◌≤◌, ◌≡◌, String, true, false, none, some, List, [], ◌∷◌, ◌++◌, arith, ◌==◌, nat_eq,
  string_eq, pair_eq, if◌then◌else◌,
}
use proxy_model_py.Dict
use proxy_model_py.Dict.{Dict}
use proxy_model_py.Resources.{
  OpResIdent, OpResUsedTime, OpResMng, member, without, set_add, set_discard, same_ident,
}

-- 1 for the same resource, 0 for another.
abbrev pub same_as : OpResIdent → OpResIdent → ℕ
same_as x y = if y == x then 1 else 0

abbrev pub count_by : {A : Type 0} → (A → OpResIdent) → OpResIdent → List A → ℕ
count_by key x [] = 0
count_by key x (y ∷ ys) = same_as x (key y) + count_by key x ys

abbrev pub used_ident : String × OpResUsedTime → OpResIdent
used_ident e = e.1.ident

abbrev pub res_ident : OpResUsedTime → OpResIdent
res_ident res = res.ident

abbrev pub count_used : OpResIdent → Dict String OpResUsedTime → ℕ
count_used x d = count_by used_ident x d

-- How often a resource stands in the four places together.
abbrev pub places : OpResMng → OpResIdent → ℕ
places m x =
    count_by res_ident x m.free_res_ident_list
    + count_used x m.used_res_ident_dict
    + count_by same_ident x m.disabled_res_ident_list
    + count_by same_ident x m.checked_res_ident_set

module _ {A : Type 0} (key : A → OpResIdent) (x : OpResIdent) where
  pub count_by-append :
      (xs ys : List A) → count_by key x (xs ++ ys) ≡ count_by key x xs + count_by key x ys
  count_by-append [] ys = omega arith
  count_by-append (z ∷ zs) ys = omega (arith, count_by-append zs ys)

  pub count_by-without :
      (gone : List OpResIdent) (xs : List A)
      → count_by key x (without key gone xs) ≡ (if member x gone then 0 else count_by key x xs)
  unfolding without
  count_by-without gone [] = ground arith
  count_by-without gone (z ∷ zs) =
      ground (arith, count_by-without gone zs, pair_eq.same_iff (key z) x)

pub count-put_new :
    (x : OpResIdent) (d : Dict String OpResUsedTime) (k : String) (r : OpResUsedTime)
    → Dict.get d k ≡ none
    → count_used x (Dict.put d k r) ≡ count_used x d + same_as x r.ident
unfolding Dict.get Dict.put
count-put_new x [] k r h = omega arith
count-put_new x ((j, w) ∷ d) k r h = ground (arith, count-put_new x d k r)

pub count-put_same :
    (x : OpResIdent) (d : Dict String OpResUsedTime) (k : String) (r q : OpResUsedTime)
    → Dict.get d k ≡ some r
    → q.ident ≡ r.ident
    → count_used x (Dict.put d k q) ≡ count_used x d
unfolding Dict.get Dict.put
count-put_same x [] k r q h e = cc
count-put_same x ((j, w) ∷ d) k r q h e = ground (arith, count-put_same x d k r q)

pub count-remove :
    (x : OpResIdent) (d : Dict String OpResUsedTime) (k : String) (r : OpResUsedTime)
    → Dict.HasUniqueKeys d
    → Dict.get d k ≡ some r
    → count_used x (Dict.remove d k) + same_as x r.ident ≡ count_used x d
unfolding Dict.get Dict.remove
count-remove x [] k r u h = cc
count-remove x ((j, w) ∷ d) k r u h =
    ground (arith, count-remove x d k r u.1, Dict.remove_absent d k, string_eq.same_iff j k)

pub count-set_add :
    (x y : OpResIdent) (xs : List OpResIdent)
    → member y xs ≡ false
    → count_by same_ident x (set_add y xs) ≡ count_by same_ident x xs + same_as x y
unfolding set_add
count-set_add x y xs h = rw h (omega (arith, count_by-append same_ident x xs (y ∷ [])))

pub count-member :
    (x : OpResIdent) (xs : List OpResIdent) → member x xs ≡ true → 1 ≤ count_by same_ident x xs
unfolding member
count-member x [] h = cc
count-member x (y ∷ ys) h = ground (arith, count-member x ys)

pub count-set_discard :
    (x y : OpResIdent) (xs : List OpResIdent)
    → count_by same_ident x (set_discard y xs) ≡ (if y == x then 0 else count_by same_ident x xs)
unfolding set_discard member
count-set_discard x y xs = ground (arith, count_by-without same_ident x (y ∷ []) xs)
