-- ===== src/Resources/Relist.antt =====
-- What `init_resource_list` of proxy/common_neon/operator_resource_mng.py does to the places of a
-- resource.
use proxy_model_py.Base.{
  ℕ, ◌+◌, ◌≡◌, refl, String, Bool, true, false, not, ◌&&◌, List, [], ◌∷◌, arith, ◌==◌, nat_eq,
  pair_eq, if◌then◌else◌, Bool-cases, inl, inr, length,
}
use proxy_model_py.Resources.{
  OpResIdent, OpResMng, member, without, to_set, same_ident, init_resource_list,
}
use proxy_model_py.Resources.Places.{
  places, count_by, count_used, res_ident, count_by-append, count_by-without,
}

member-without :
    (x : OpResIdent) (gone xs : List OpResIdent)
    → member x (without same_ident gone xs) ≡ (member x xs && not (member x gone))
unfolding member without
member-without x gone [] = refl
member-without x gone (y ∷ ys) = ground (arith, member-without x gone ys, pair_eq.same_iff y x)

member-to_set : (x : OpResIdent) (xs : List OpResIdent) → member x (to_set xs) ≡ member x xs
unfolding member to_set
member-to_set x [] = refl
member-to_set x (y ∷ ys) =
    ground (arith, member-to_set x ys, member-to_set y ys, pair_eq.same_iff y x)

-- A set holds each of its items once.
count-to_set :
    (x : OpResIdent) (xs : List OpResIdent)
    → count_by same_ident x (to_set xs) ≡ (if member x xs then 1 else 0)
unfolding member to_set
count-to_set x [] = refl
count-to_set x (y ∷ ys) =
    ground (arith, count-to_set x ys, member-to_set y ys, pair_eq.same_iff y x)

none_member :
    (x : OpResIdent) (xs : List OpResIdent) → (length xs == 0) ≡ true → member x xs ≡ false
unfolding member
none_member x [] e = refl
none_member x (y ∷ ys) e = ground (arith, e)

-- How many places a resource has after a new list, by whether it was in the old list and is in the
-- new one.
abbrev pub relisted : OpResMng → OpResIdent → Bool → Bool → ℕ
relisted m x true true = places m x
relisted m x true false = count_used x m.used_res_ident_dict
relisted m x false true = places m x + 1
relisted m x false false = places m x

relisted_same :
    (m : OpResMng) (x : OpResIdent) (a b : Bool)
    → (a && not b) ≡ false
    → (b && not a) ≡ false
    → places m x ≡ relisted m x a b
relisted_same m x true true e f = refl
relisted_same m x true false e f = cc
relisted_same m x false true e f = cc
relisted_same m x false false e f = refl

-- After a new list a resource that stays has the places that it had, one that was not in the old list
-- has one more, one that is gone stands among the used ones only, and one that is in neither list has
-- its places.
pub init_resource_list-places :
    (private_key : OpResIdent → String) (m : OpResMng) (list : List OpResIdent) (x : OpResIdent)
    → places (init_resource_list private_key m list) x
      ≡ relisted m x (member x m.res_ident_set) (member x list)
unfolding init_resource_list
init_resource_list-places private_key m list x =
    let rm = without same_ident (to_set list) m.res_ident_set in
    let add = without same_ident m.res_ident_set (to_set list) in
    let in_rm = member-without x (to_set list) m.res_ident_set in
    let in_add = member-without x m.res_ident_set (to_set list) in
    let in_set = member-to_set x list in
    elim (Bool-cases ((length rm == 0) && (length add == 0))) [
      | inl same ↦ rw same (
          relisted_same m x _ _ (ground (arith, none_member x rm, in_rm, in_set, same))
            (ground (arith, none_member x add, in_add, in_set, same)))
      | inr changed ↦ rw changed (
          ground (
            arith,
            in_rm,
            in_set,
            count-to_set x list,
            count_by-without res_ident x rm m.free_res_ident_list,
            count_by-without same_ident x rm m.disabled_res_ident_list,
            count_by-without same_ident x rm m.checked_res_ident_set,
            count_by-without same_ident x m.res_ident_set (to_set list),
            count_by-append same_ident x (without same_ident rm m.disabled_res_ident_list) add,
          ))
    ]
