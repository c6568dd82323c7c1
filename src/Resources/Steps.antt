-- ===== src/Resources/Steps.antt =====
-- The calls of `OpResMng` of proxy/common_neon/operator_resource_mng.py that the mempool makes, one
-- after the other, and what they keep.
use proxy_model_py.Base.{
  ℕ, ◌+◌, ◌≡◌, refl, String, Bool, true, false, none, some, List, [], ◌∷◌, arith, ltb, nat_eq,
  string_eq, pair_eq, if◌then◌else◌, Bool-cases, Option-cases, inl, inr,
}
use proxy_model_py.Dict
use proxy_model_py.Dict.{Dict}
use proxy_model_py.Resources.{
  OpResUsedTime, OpResMng, member, same_ident, reset_neon_sig, pop_used_resource, append_disabled,
  append_free, return_resource, release_resource, recheck_popped, check_loop,
  check_used_resource_list,
}
use proxy_model_py.Resources.Places.{res_ident, count_by-append}
use proxy_model_py.Resources.Keeping.{
  Keeps, Keeps-equal, Keeps-refl, Keeps-trans, pop_used_lem, pop_absent_lem, popped-Keeps,
}

return_used-Keeps :
    (n : ℕ) (m : OpResMng) (sig : String) (res : OpResUsedTime)
    → Dict.HasUniqueKeys m.used_res_ident_dict
    → Dict.get m.used_res_ident_dict sig ≡ some res
    → (b : Bool) → member res.ident m.res_ident_set ≡ b
    → Keeps m
        (return_resource n
          (record m { used_res_ident_dict = Dict.remove m.used_res_ident_dict sig })
          (if b then some (reset_neon_sig res) else none)).0
unfolding append_disabled append_free reset_neon_sig
return_used-Keeps n m sig res u at true held = elim (Bool-cases (ltb n res.used_cnt)) [
  | inl many ↦ rw many (
      popped-Keeps m _ sig res u at refl refl (λ x.
        rw held
          (omega (arith, count_by-append same_ident x m.disabled_res_ident_list (res.ident ∷ [])))))
  | inr few ↦ rw few (
      popped-Keeps m _ sig res u at refl refl (λ x. rw held (
        omega
          (arith, count_by-append res_ident x m.free_res_ident_list (reset_neon_sig res ∷ [])))))
]
return_used-Keeps n m sig res u at false gone =
    popped-Keeps m _ sig res u at refl refl (λ x. rw gone (omega arith))

pub release_resource-Keeps :
    (n : ℕ) (m : OpResMng) (sig : String)
    → Dict.HasUniqueKeys m.used_res_ident_dict
    → Keeps m (release_resource n m sig).0
unfolding release_resource
release_resource-Keeps n m sig u = elim (Option-cases (Dict.get m.used_res_ident_dict sig)) [
  | inl absent ↦ rw (pop_absent_lem m sig absent) (Keeps-refl m u)
  | inr (res, at) ↦
      rw (pop_used_lem m sig res at)
        (return_used-Keeps n m sig res u at (member res.ident m.res_ident_set) refl)
]

recheck_used-Keeps :
    (m : OpResMng) (sig : String) (res : OpResUsedTime)
    → Dict.HasUniqueKeys m.used_res_ident_dict
    → Dict.get m.used_res_ident_dict sig ≡ some res
    → (b : Bool) → member res.ident m.res_ident_set ≡ b
    → Keeps m (
        recheck_popped (
          record m { used_res_ident_dict = Dict.remove m.used_res_ident_dict sig },
          if b then some (reset_neon_sig res) else none,
        ))
unfolding append_disabled reset_neon_sig
recheck_used-Keeps m sig res u at true held = popped-Keeps m _ sig res u at refl refl (λ x.
    rw held
      (omega (arith, count_by-append same_ident x m.disabled_res_ident_list (res.ident ∷ []))))
recheck_used-Keeps m sig res u at false gone =
    popped-Keeps m _ sig res u at refl refl (λ x. rw gone (omega arith))

recheck-Keeps :
    (m : OpResMng) (sig : String)
    → Dict.HasUniqueKeys m.used_res_ident_dict
    → Keeps m (recheck_popped (pop_used_resource m sig))
recheck-Keeps m sig u = elim (Option-cases (Dict.get m.used_res_ident_dict sig)) [
  | inl absent ↦ rw (pop_absent_lem m sig absent) (Keeps-refl m u)
  | inr (res, at) ↦
      rw (pop_used_lem m sig res at)
        (recheck_used-Keeps m sig res u at (member res.ident m.res_ident_set) refl)
]

check_loop-Keeps :
    (t now : ℕ) (items : List (String × OpResUsedTime)) (m : OpResMng)
    → Dict.HasUniqueKeys m.used_res_ident_dict
    → Keeps m (check_loop t now items m)
unfolding check_loop
check_loop-Keeps t now [] m u = Keeps-refl m u
check_loop-Keeps t now ((sig, res) ∷ items) m u =
    elim (Bool-cases (ltb now (res.last_used_time + t))) [
      | inl recent ↦ rw recent (check_loop-Keeps t now items m u)
      | inr old ↦ rw old (
          let k = recheck-Keeps m sig u in
          Keeps-trans m _ _ k (check_loop-Keeps t now items _ k.unique))
    ]

pub check_used_resource_list-Keeps :
    (t now : ℕ) (m : OpResMng)
    → Dict.HasUniqueKeys m.used_res_ident_dict
    → Keeps m (check_used_resource_list t now m)
unfolding check_used_resource_list
check_used_resource_list-Keeps t now m u = elim (Bool-cases (ltb now (m.last_check_time + t))) [
  | inl early ↦ rw early (Keeps-refl m u)
  | inr due ↦ rw due (
      let noted : OpResMng = record m { last_check_time = now } in
      Keeps-trans m noted _ (Keeps-equal m noted u (λ x. refl) refl)
        (check_loop-Keeps t now m.used_res_ident_dict noted u))
]
