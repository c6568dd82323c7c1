-- ===== src/Resources/Examples.antt =====
-- The theorems on the operator's resources (proxy/common_neon/operator_resource_mng.py) at a small
-- example: one resource is used, one is free and one is being checked.
use proxy_model_py.Base.{◌≡◌, refl, arith, true, string_eq, nat_eq, pair_eq, some, [], ◌∷◌, ok}
use proxy_model_py.Dict
use proxy_model_py.Resources.{
  OpResIdent, OpResUsedTime, OpResMng, get_resource, release_resource, disable_resource, init,
  init_resource_list, without, to_set, get_resource_impl, set_neon_sig, touch, set_last_used_time,
  enable_resource, member,
}
use proxy_model_py.Resources.Places.{places}
use proxy_model_py.Resources.Keeping.{IsExclusive, Keeps}
use proxy_model_py.Resources.Runs.{Steps, next, done, release, good, Steps-IsExclusive}
use proxy_model_py.Resources.Relist.{relisted, init_resource_list-places}
use proxy_model_py.Resources.Twice.{get_resource_again, release_then_disable}

abbrev pub key_a : OpResIdent
key_a = ("key", 0)

abbrev pub key_b : OpResIdent
key_b = ("key", 1)

abbrev pub key_c : OpResIdent
key_c = ("key", 2)

abbrev pub used_a : OpResUsedTime
used_a = record { ident = key_a; last_used_time = 5; used_cnt = 1; neon_sig = "tx" }

abbrev pub three : OpResMng
three = record {
  secret_list = "secret" ∷ [];
  res_ident_set = key_a ∷ key_b ∷ key_c ∷ [];
  free_res_ident_list =
      record { ident = key_b; last_used_time = 0; used_cnt = 0; neon_sig = "" } ∷ [];
  used_res_ident_dict = ("tx", used_a) ∷ [];
  disabled_res_ident_list = [];
  checked_res_ident_set = key_c ∷ [];
  last_check_time = 0;
}

pub three-IsExclusive : IsExclusive three
unfolding Dict.get
three-IsExclusive = record {
  unique = (refl, tt);
  once = λ x.
      ground (arith, pair_eq.same_iff key_a x, pair_eq.same_iff key_b x, pair_eq.same_iff key_c x);
}

-- The check ends well and the transaction returns its resource.
abbrev both_back : OpResMng
both_back = (release_resource 10 (enable_resource three key_c) "tx").0

three-Steps : Steps three both_back
unfolding member
three-Steps = next three _ _ (good three key_c refl) (next _ _ _ (release _ 10 "tx") (done _))

Steps-IsExclusive_example : IsExclusive both_back × Keeps three both_back
Steps-IsExclusive_example = Steps-IsExclusive three both_back three-IsExclusive three-Steps

abbrev after_get : OpResMng
after_get = record three {
  free_res_ident_list = [];
  used_res_ident_dict =
      ("tx", used_a)
      ∷ ("other", record { ident = key_b; last_used_time = 7; used_cnt = 1; neon_sig = "other" })
      ∷ [];
}

get_free_runs : get_resource three "other" 7 ≡ ok (after_get, some key_b)
unfolding get_resource get_resource_impl Dict.get set_neon_sig touch Dict.put set_last_used_time
get_free_runs = refl

get_resource_again_example :
    (o : OpResMng) × (get_resource after_get "other" 9 ≡ ok (o, some key_b))
get_resource_again_example = get_resource_again three after_get "other" 7 9 key_b get_free_runs

used_at : Dict.get three.used_res_ident_dict "tx" ≡ some used_a
unfolding Dict.get
used_at = refl

held_a : member key_a three.res_ident_set ≡ true
unfolding member
held_a = refl

release_then_disable_example :
    ((release_resource 10 three "tx").1 ≡ some key_a)
    × (places (disable_resource (release_resource 10 three "tx").0 key_a) key_a ≡ 2)
release_then_disable_example =
    release_then_disable 10 three "tx" used_a three-IsExclusive used_at held_a

-- A first list puts each resource among the disabled ones, where the checks find it.
init_runs :
    (init_resource_list (λ i. "secret") init (key_a ∷ key_b ∷ key_a ∷ [])).disabled_res_ident_list
    ≡ key_b ∷ key_a ∷ []
unfolding init_resource_list without init to_set
init_runs = refl

-- The used resource is taken off the list; then it comes back, and stands twice.
abbrev without_a : OpResMng
without_a = record three { res_ident_set = key_b ∷ key_c ∷ [] }

init_resource_list-places_example :
    places (init_resource_list (λ i. "secret") without_a (key_a ∷ key_b ∷ key_c ∷ [])) key_a
    ≡ relisted without_a key_a
        (member key_a without_a.res_ident_set)
        (member key_a (key_a ∷ key_b ∷ key_c ∷ []))
init_resource_list-places_example =
    init_resource_list-places (λ i. "secret") without_a (key_a ∷ key_b ∷ key_c ∷ []) key_a

twice_listed :
    relisted without_a key_a
      (member key_a without_a.res_ident_set)
      (member key_a (key_a ∷ key_b ∷ key_c ∷ []))
    ≡ 2
unfolding member
twice_listed = refl
