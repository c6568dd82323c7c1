-- ===== src/Resources.antt =====
-- `OpResMng` of proxy/common_neon/operator_resource_mng.py: the operator's resources, each of which
-- executes one transaction at a time. The time comes as an argument, in seconds, and
-- `res.last_used_time > now - recheck_sec` reads `now < res.last_used_time + recheck_sec`, which is the
-- same of whole numbers. The statistics that each method commits are the lengths of the lists.
pub mod Places
pub mod Keeping
pub mod Steps
pub mod Runs
pub mod Twice
pub mod Relist
pub mod Examples
use proxy_model_py.Base.{
  ℕ, ◌+◌, String, Bool, Option, none, some, List, [], ◌∷◌, ◌++◌, map, true, false, not, ltb, ◌==◌,
  ◌&&◌, ◌||◌, Eq, nat_eq, string_eq, pair_eq, length, if◌then◌else◌, Result, ok, err, assert, ◌>>=◌,
  ◌>>◌,
}
use proxy_model_py.Dict
use proxy_model_py.Dict.{Dict}

-- `OpResIdent` of proxy/common_neon/operator_resource_info.py, by what its `__eq__` reads: the public
-- key and `res_id`, which the list of resources numbers from 0.
abbrev pub OpResIdent : Type 0
OpResIdent = String × ℕ

-- `OpResUsedTime`
pub record OpResUsedTime : Type 0 where
  pub ident : OpResIdent
  pub last_used_time : ℕ
  pub used_cnt : ℕ
  pub neon_sig : String

unfoldable pub fresh : OpResIdent → OpResUsedTime
fresh ident = record { ident = ident; last_used_time = 0; used_cnt = 0; neon_sig = "" }

unfoldable pub set_last_used_time : OpResUsedTime → ℕ → OpResUsedTime
set_last_used_time r value = record r { used_cnt = r.used_cnt + 1; last_used_time = value }

unfoldable pub set_neon_sig : OpResUsedTime → String → Result OpResUsedTime
set_neon_sig r value = do assert (not (value == "")); ok (record r { neon_sig = value })

unfoldable pub reset_neon_sig : OpResUsedTime → OpResUsedTime
reset_neon_sig r = record r { neon_sig = "" }

-- `OpResMng`; a set is a list without repetitions.
pub record OpResMng : Type 0 where
  pub secret_list : List String
  pub res_ident_set : List OpResIdent
  pub free_res_ident_list : List OpResUsedTime
  pub used_res_ident_dict : Dict String OpResUsedTime
  pub disabled_res_ident_list : List OpResIdent
  pub checked_res_ident_set : List OpResIdent
  pub last_check_time : ℕ

unfoldable pub init : OpResMng
init = record {
  secret_list = [];
  res_ident_set = [];
  free_res_ident_list = [];
  used_res_ident_dict = [];
  disabled_res_ident_list = [];
  checked_res_ident_set = [];
  last_check_time = 0;
}

-- x in s
unfoldable pub member : {A : Type 0} ⦃e : Eq A⦄ → A → List A → Bool
member x [] = false
member x (y ∷ ys) = (y == x) || member x ys

-- The items of a list that are not in a set, in their order.
unfoldable pub without : {A B : Type 0} ⦃e : Eq B⦄ → (A → B) → List B → List A → List A
unfolding member
without key gone [] = []
without key gone (x ∷ xs) =
    let rest = without key gone xs in if member (key x) gone then rest else x ∷ rest

-- set(xs)
unfoldable pub to_set : {A : Type 0} ⦃e : Eq A⦄ → List A → List A
unfolding member
to_set [] = []
to_set (x ∷ xs) = let rest = to_set xs in if member x rest then rest else x ∷ rest

-- s.add(x)
unfoldable pub set_add : {A : Type 0} ⦃e : Eq A⦄ → A → List A → List A
set_add x xs = if member x xs then xs else xs ++ x ∷ []

abbrev pub same_ident : OpResIdent → OpResIdent
same_ident i = i

-- s.discard(x)
unfoldable pub set_discard : OpResIdent → List OpResIdent → List OpResIdent
set_discard x xs = without same_ident (x ∷ []) xs

unfoldable pub resource_cnt : OpResMng → ℕ
resource_cnt m = length m.res_ident_set

module _ (private_key : OpResIdent → String) where
  unfoldable pub init_resource_list : OpResMng → List OpResIdent → OpResMng
  init_resource_list m res_ident_list =
      let new_ident_set = to_set res_ident_list in
      let rm_ident_set = without same_ident new_ident_set m.res_ident_set in
      let add_ident_set = without same_ident m.res_ident_set new_ident_set in
      if (length rm_ident_set == 0) && (length add_ident_set == 0) then m else record m {
        res_ident_set = new_ident_set;
        free_res_ident_list = without (λ res. res.ident) rm_ident_set m.free_res_ident_list;
        disabled_res_ident_list =
            without same_ident rm_ident_set m.disabled_res_ident_list ++ add_ident_set;
        checked_res_ident_set = without same_ident rm_ident_set m.checked_res_ident_set;
        secret_list = to_set (map private_key new_ident_set);
      }

-- The first of the free resources, if there is one, is used for a transaction.
abbrev pub use_free :
    OpResMng → String → List OpResUsedTime → Result (OpResMng × Option OpResUsedTime)
use_free m neon_sig [] = ok (m, none)
use_free m neon_sig (res ∷ rest) = do
  named ← set_neon_sig res neon_sig
  ok (
    record m {
      free_res_ident_list = rest;
      used_res_ident_dict = Dict.put m.used_res_ident_dict neon_sig named;
    },
    some named,
  )

-- `_get_resource_impl`
unfoldable pub get_resource_impl : OpResMng → String → Result (OpResMng × Option OpResUsedTime)
get_resource_impl m neon_sig = elim (Dict.get m.used_res_ident_dict neon_sig) [
  | some res ↦ ok (m, some res)
  | none ↦ use_free m neon_sig m.free_res_ident_list
]

-- `res_used_time.set_last_used_time(now)` of the object that the dict holds.
unfoldable pub touch : OpResMng → String → OpResUsedTime → ℕ → OpResMng
touch m neon_sig res now = record m {
  used_res_ident_dict = Dict.put m.used_res_ident_dict neon_sig (set_last_used_time res now);
}

abbrev pub touch_found : OpResMng → String → ℕ → Option OpResUsedTime → OpResMng × Option OpResIdent
touch_found m neon_sig now none = (m, none)
touch_found m neon_sig now (some res) = (touch m neon_sig res now, some res.ident)

unfoldable pub get_resource : OpResMng → String → ℕ → Result (OpResMng × Option OpResIdent)
get_resource m neon_sig now = do
  found ← get_resource_impl m neon_sig
  ok (touch_found found.0 neon_sig now found.1)

unfoldable pub update_resource : OpResMng → String → ℕ → OpResMng
update_resource m neon_sig now =
    (touch_found m neon_sig now (Dict.get m.used_res_ident_dict neon_sig)).0

-- `_pop_used_resource`: a resource that the operator has no more is dropped.
unfoldable pub pop_used_resource : OpResMng → String → OpResMng × Option OpResUsedTime
pop_used_resource m neon_sig =
    let popped = record m { used_res_ident_dict = Dict.remove m.used_res_ident_dict neon_sig } in
    elim (Dict.get m.used_res_ident_dict neon_sig) [
      | none ↦ (popped, none)
      | some res ↦
          (popped, if member res.ident m.res_ident_set then some (reset_neon_sig res) else none)
    ]

unfoldable pub append_disabled : OpResMng → OpResIdent → OpResMng
append_disabled m ident = record m {
  disabled_res_ident_list = m.disabled_res_ident_list ++ ident ∷ [];
}

unfoldable pub append_free : OpResMng → OpResUsedTime → OpResMng
append_free m res = record m { free_res_ident_list = m.free_res_ident_list ++ res ∷ [] }

abbrev pub return_resource : ℕ → OpResMng → Option OpResUsedTime → OpResMng × Option OpResIdent
return_resource recheck_cnt m none = (m, none)
return_resource recheck_cnt m (some res) = (
  if ltb recheck_cnt res.used_cnt then append_disabled m res.ident else append_free m res,
  some res.ident,
)

unfoldable pub release_resource : ℕ → OpResMng → String → OpResMng × Option OpResIdent
release_resource recheck_cnt m neon_sig =
    let popped = pop_used_resource m neon_sig in return_resource recheck_cnt popped.0 popped.1

abbrev pub discard_checked : OpResMng → OpResIdent → OpResMng
discard_checked m ident = record m {
  checked_res_ident_set = set_discard ident m.checked_res_ident_set;
}

unfoldable pub disable_resource : OpResMng → OpResIdent → OpResMng
disable_resource m ident = append_disabled (discard_checked m ident) ident

unfoldable pub enable_resource : OpResMng → OpResIdent → OpResMng
enable_resource m ident =
    if not (member ident m.res_ident_set)
    then m
    else append_free (discard_checked m ident) (fresh ident)

-- The loop of `_check_used_resource_list` over a copy of the dict's items.
abbrev pub recheck_popped : OpResMng × Option OpResUsedTime → OpResMng
recheck_popped (m, none) = m
recheck_popped (m, some res) = append_disabled m res.ident

unfoldable pub check_loop : ℕ → ℕ → List (String × OpResUsedTime) → OpResMng → OpResMng
check_loop recheck_sec now [] m = m
check_loop recheck_sec now ((neon_sig, res) ∷ items) m = check_loop recheck_sec now items (
    if ltb now (res.last_used_time + recheck_sec)
    then m
    else recheck_popped (pop_used_resource m neon_sig))

unfoldable pub check_used_resource_list : ℕ → ℕ → OpResMng → OpResMng
check_used_resource_list recheck_sec now m =
    if ltb now (m.last_check_time + recheck_sec)
    then m
    else check_loop recheck_sec now m.used_res_ident_dict (record m { last_check_time = now })

-- The first of the disabled resources is to be checked.
abbrev pub take_disabled : OpResMng → List OpResIdent → OpResMng × Option OpResIdent
take_disabled m [] = (m, none)
take_disabled m (ident ∷ rest) = (
  record m {
    disabled_res_ident_list = rest;
    checked_res_ident_set = set_add ident m.checked_res_ident_set;
  },
  some ident,
)

unfoldable pub get_disabled_resource : OpResMng → OpResMng × Option OpResIdent
get_disabled_resource m = take_disabled m m.disabled_res_ident_list
