-- ===== src/Store.antt =====
-- store/store.go: the events and pairs that a backend hands out, and the helpers on keys.
pub mod Keys
pub mod Etcd
use lainlet.Base.{GoMap, insert, lookup}
use lainlet.Base.{
  ℕ, Result, err, Bool, true, false, ◌&&◌, List, [], ◌∷◌, ◌++◌, map, Option, none, some, ◌==◌,
  text_eq, if◌then◌else◌, Text, codes, contains, split, join, nat_eq,
}

-- store.Action
pub data Action : Type 0 where
  error get set update delete init : Action

-- The name of an action, as `action2String` has it.
unfoldable pub action_name : Action → Text
action_name get = codes "get"
action_name set = codes "update"
action_name update = codes "update"
action_name delete = codes "delete"
action_name init = codes "init"
action_name error = codes "error"

-- store.KVPair
pub record KvPair : Type 0 where
  pub key : Text
  pub value : Text
  pub last_index : ℕ

-- store.Event
pub record Event : Type 0 where
  pub action : Action
  pub key : Text
  pub modified_index : ℕ
  pub pairs : List KvPair

-- A value, `ErrKeyNotFound`, or another error with its message.
pub data Answer {ℓ} (A : Type ℓ) : Type ℓ where
  found : A → Answer A
  key_not_found : Answer A
  failure : Text → Answer A

-- The pairs of an event, as `String` prints them.
print_pairs : List KvPair → Text
print_pairs [] = []
print_pairs (pair ∷ pairs) =
    pair.key ++ (codes " => " ++ (pair.value ++ (codes "," ++ print_pairs pairs)))

-- Event.String
unfoldable pub event_string : Event → Text
unfolding print_pairs
event_string e =
    action_name e.action ++ (codes " " ++ (e.key ++ (codes ": " ++ print_pairs e.pairs)))

-- The loop of `Error`.
error_value : List KvPair → Text
error_value [] = []
error_value (pair ∷ pairs) = if pair.key == codes "error" then pair.value else error_value pairs

-- Event.Error
unfoldable pub event_error : Event → Text
unfolding error_value
event_error e = elim e.action [ error ↦ error_value e.pairs | _ ↦ [] ]

-- CreateEndpoints
unfoldable pub create_endpoints : List Text → Text → List Text
create_endpoints [] scheme = []
create_endpoints (addr ∷ addrs) scheme =
    (scheme ++ (codes "://" ++ addr)) ∷ create_endpoints addrs scheme

abbrev pub slash : ℕ
slash = b'/'

-- SplitKey
unfoldable pub split_key : Text → List Text
split_key key = if contains slash key then split key slash else key ∷ []

-- join
unfoldable pub join_parts : List Text → Text
join_parts parts = join parts slash

-- Normalize
unfoldable pub normalize : Text → Text
normalize key = slash ∷ join_parts (split_key key)

-- The backends by their names, each a function that makes a store from addresses; `S` is Store.
abbrev pub Backends : (S : Type 0) → Type 0
Backends S = GoMap (List Text → Result S)

-- Register
unfoldable pub register : {S : Type 0} → Text → (List Text → Result S) → Backends S → Backends S
register name f stores = insert name f stores

-- New
unfoldable pub new_store : {S : Type 0} → Text → List Text → Backends S → Result S
new_store name addrs stores = elim (lookup name stores) [
  | some f ↦ f addrs
  | none ↦ err (codes "Backend storage not supported yet, please choose one of")
]
