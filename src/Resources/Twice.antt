-- ===== src/Resources/Twice.antt =====
-- Two calls of `OpResMng` of proxy/common_neon/operator_resource_mng.py in a row: a resource asked for
-- again, and a resource released and then disabled, as `_on_bad_resource` of proxy/mempool/mempool.py
-- does.
use proxy_model_py.Base.{
  ℕ, ◌+◌, ◌≡◌, refl, sym, ap, Result, ◌∙◌, String, Bool, true, false, some, List, [], ◌∷◌, arith,
  Option, ok, err, assertion_error, ◌>>=◌, ltb, ◌==◌, nat_eq, string_eq, pair_eq, Bool-cases,
  Option-cases, inl, inr, ==_refl,
}
use proxy_model_py.Dict
use proxy_model_py.Dict.{Dict}
use proxy_model_py.Resources.{
  OpResIdent, OpResUsedTime, OpResMng, member, same_ident, touch, set_last_used_time, set_neon_sig,
  reset_neon_sig, touch_found, get_resource, append_disabled, append_free, release_resource,
  disable_resource, use_free,
}
use proxy_model_py.Resources.Places.{
  places, count_by, count_by-append, count-remove, count-set_discard,
}
use proxy_model_py.Resources.Keeping.{IsExclusive, with_used, pop_used_lem}
use proxy_model_py.Resources.Steps.{release_resource-Keeps}
use proxy_model_py.Resources.Runs.{get_used, get_absent}

touched :
    (m : OpResMng) (sig : String) (now later : ℕ) (res : OpResUsedTime)
    → (n : OpResMng) × (get_resource (touch m sig res now) sig later ≡ ok (n, some res.ident))
unfolding touch set_last_used_time
touched m sig now later res = (
  _,
  get_used (touch m sig res now) sig later (set_last_used_time res now)
      (Dict.get-put_self m.used_res_ident_dict sig (set_last_used_time res now)),
)

same_state :
    (m n : OpResMng) (i j : OpResIdent)
    → Path (Result (OpResMng × Option OpResIdent)) (ok (m, some i)) (ok (n, some j))
    → m ≡ n
same_state m n i j e = cc

same_resource :
    (m n : OpResMng) (i j : OpResIdent)
    → Path (Result (OpResMng × Option OpResIdent)) (ok (m, some i)) (ok (n, some j))
    → i ≡ j
same_resource m n i j e = cc

again_touched :
    (m n : OpResMng) (sig : String) (now later : ℕ) (res : OpResUsedTime) (ident : OpResIdent)
    → Path
        (Result (OpResMng × Option OpResIdent))
        (ok (touch m sig res now, some res.ident))
        (ok (n, some ident))
    → (o : OpResMng) × (get_resource n sig later ≡ ok (o, some ident))
again_touched m n sig now later res ident e =
    let t = touched m sig now later res in
    (
      t.0,
      ap (λ z. get_resource z sig later) (sym (same_state _ n res.ident ident e))
          ∙ t.1
          ∙ ap (λ (i : OpResIdent). ok (t.0, some i)) (same_resource _ n res.ident ident e),
    )

again_free :
    (m : OpResMng) (sig : String) (now later : ℕ) (free : List OpResUsedTime) (n : OpResMng)
    (ident : OpResIdent) (b : Bool)
    → (sig == "") ≡ b
    → (use_free m sig free >>= λ found. ok (touch_found found.0 sig now found.1))
      ≡ ok (n, some ident)
    → (o : OpResMng) × (get_resource n sig later ≡ ok (o, some ident))
unfolding set_neon_sig
again_free m sig now later [] n ident b named e = absurd (cc e)
again_free m sig now later (res ∷ rest) n ident true named e =
    (let f : Path (Result (OpResMng × Option OpResIdent)) (err assertion_error)
          (ok (n, some ident)) =
        rw named at e in
      absurd (cc f))
again_free m sig now later (res ∷ rest) n ident false named e =
    again_touched (with_used m sig res rest) n sig now later (record res { neon_sig = sig }) ident
      (rw named at e)

-- A transaction that got a resource gets the same one when it asks again.
pub get_resource_again :
    (m n : OpResMng) (sig : String) (now later : ℕ) (ident : OpResIdent)
    → get_resource m sig now ≡ ok (n, some ident)
    → (o : OpResMng) × (get_resource n sig later ≡ ok (o, some ident))
get_resource_again m n sig now later ident e =
    elim (Option-cases (Dict.get m.used_res_ident_dict sig)) [
      | inl absent ↦
          again_free m sig now later m.free_res_ident_list n ident (sig == "") refl
            (sym (get_absent m sig now absent) ∙ e)
      | inr (res, at) ↦
          again_touched m n sig now later res ident (sym (get_used m sig now res at) ∙ e)
    ]

disabled_places :
    (m : OpResMng) (ident : OpResIdent)
    → places (disable_resource m ident) ident + count_by same_ident ident m.checked_res_ident_set
      ≡ places m ident + 1
unfolding disable_resource append_disabled
disabled_places m ident = ground (
  arith,
  count-set_discard ident ident m.checked_res_ident_set,
  ==_refl ident,
  count_by-append same_ident ident m.disabled_res_ident_list (ident ∷ []),
)

released_used :
    (n : ℕ) (m : OpResMng) (sig : String) (res : OpResUsedTime)
    → Dict.get m.used_res_ident_dict sig ≡ some res
    → member res.ident m.res_ident_set ≡ true
    → ((release_resource n m sig).1 ≡ some res.ident)
      × ((release_resource n m sig).0.checked_res_ident_set ≡ m.checked_res_ident_set)
unfolding release_resource append_disabled append_free reset_neon_sig
released_used n m sig res at held =
    rw (pop_used_lem m sig res at, held)
      (elim (Bool-cases (ltb n res.used_cnt)) [
        | inl many ↦ rw many (refl, refl)
        | inr few ↦ rw few (refl, refl)
      ])

-- A resource that is released and then disabled stands in two places, whatever its count of uses.
pub release_then_disable :
    (n : ℕ) (m : OpResMng) (sig : String) (res : OpResUsedTime)
    → IsExclusive m
    → Dict.get m.used_res_ident_dict sig ≡ some res
    → member res.ident m.res_ident_set ≡ true
    → ((release_resource n m sig).1 ≡ some res.ident)
      × (places (disable_resource (release_resource n m sig).0 res.ident) res.ident ≡ 2)
release_then_disable n m sig res x at held =
    let r = released_used n m sig res at held in
    (
      r.0,
      ground (
        arith,
        disabled_places (release_resource n m sig).0 res.ident,
        ap (count_by same_ident res.ident) r.1,
        (release_resource-Keeps n m sig x.unique).held res.ident held,
        x.once res.ident,
        count-remove res.ident m.used_res_ident_dict sig res x.unique at,
        ==_refl res.ident,
      ),
    )
