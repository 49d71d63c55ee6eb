-- ===== src/World/CloseList.antt =====
-- The list of the systems that are closed: server/world/server/system_close_list.go.
pub mod Refines
mod Tests
use greatestworks.Base.{
  Bool, List, Option, String, [], false, if◌then◌else◌, none, some, true, ℕ, ℕ_discrete, ◌%◌, ◌^◌,
  ◌||◌, ◌∷◌,
}
use greatestworks.Base.SyncMap.{SyncMap, delete, load, store}
use greatestworks.Base.Text.{Text, codes, parse_uint, split, text_eq}
use greatestworks.Gateway.Clients.{close}

pub record SystemCloseList : Type 0 where
  pub close_list : SyncMap ℕ Bool

-- systemCloseListGetMe
abbrev pub system_close_list : SystemCloseList
system_close_list = record { close_list = [] }

unfoldable pub is_one_of : Text → List String → Bool
is_one_of s [] = false
is_one_of s (t ∷ ts) = text_eq s (codes t) || is_one_of s ts

-- strconv.ParseBool: `none` for an error.
unfoldable pub parse_bool : Text → Option Bool
parse_bool s =
    if is_one_of s ("1" ∷ "t" ∷ "T" ∷ "TRUE" ∷ "true" ∷ "True" ∷ [])
    then some true
    else if is_one_of s ("0" ∷ "f" ∷ "F" ∷ "FALSE" ∷ "false" ∷ "False" ∷ [])
    then some false
    else none

-- strings.Split(k, ":") of the key, and strconv.ParseUint of its second part.
unfoldable pub system_of : Text → Option ℕ
system_of k = elim (split 0x3a k) [
  | [] ↦ none
  | a ∷ l ↦ elim l [ [] ↦ none | b ∷ r ↦ elim r [ [] ↦ parse_uint 64 b | c ∷ r' ↦ none ] ]
]

-- One round of the loop of loadFromRedis: the value, and the system of the key.
unfoldable pub loaded : Option Bool → Option ℕ → SystemCloseList → SystemCloseList
loaded none sys scl = scl
loaded (some false) sys scl = scl
loaded (some true) none scl = scl
loaded (some true) (some sys) scl = record scl {
  close_list = store ℕ_discrete (sys % 2 ^ 32) true scl.close_list;
}

-- The loop over what HGetAll answers. A nil answer has no entries.
unfoldable pub load_from_redis : List (Text × Text) → SystemCloseList → SystemCloseList
load_from_redis [] scl = scl
load_from_redis ((k, v) ∷ l) scl = load_from_redis l (loaded (parse_bool v) (system_of k) scl)

unfoldable pub del_close_system : ℕ → SystemCloseList → SystemCloseList
del_close_system sys scl = elim (load ℕ_discrete sys scl.close_list) [
  | none ↦ scl
  | some b ↦ record scl { close_list = delete ℕ_discrete sys scl.close_list }
]

unfoldable pub set_close_system : ℕ → Bool → SystemCloseList → SystemCloseList
set_close_system sys close scl =
    if close
    then record scl { close_list = store ℕ_discrete sys close scl.close_list }
    else del_close_system sys scl

unfoldable pub get_system_in_close_list : ℕ → SystemCloseList → Bool
get_system_in_close_list sys scl = elim (load ℕ_discrete sys scl.close_list) [
  | none ↦ false
  | some b ↦ b
]

-- The loop of getSystemCloseList.
unfoldable pub closed : SyncMap ℕ Bool → List ℕ
closed [] = []
closed ((k, v) ∷ m) = let rest = closed m in if v then k ∷ rest else rest

unfoldable pub get_system_close_list : SystemCloseList → List ℕ
get_system_close_list scl = closed scl.close_list
