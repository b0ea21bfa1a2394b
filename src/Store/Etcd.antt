-- ===== src/Store/Etcd.antt =====
-- store/etcd/etcd.go: the store over etcd's client. The client library is not in the repository:
-- its answers are the fields of `KeysApi` and the lists of results that a watcher yields.
pub mod Tree
pub mod Streams
pub mod Connect
use lainlet.Base.{
  ℕ, Bool, true, false, ◌||◌, Option, none, some, List, [], ◌∷◌, ◌++◌, if◌then◌else◌, Text, ◌==◌,
  nat_eq, text_eq, codes,
}
use lainlet.Store.{Action, Event, KvPair, Answer, found, key_not_found, failure}
use lainlet.Store.Keys.{etcd_normalize}

-- client.Node, the fields that the store reads. `Nodes` is a slice of nodes.
mutual
  pub data Node : Type 0 where
    node : (key value : Text) → (dir : Bool) → (modified_index : ℕ) → (nodes : Nodes) → Node

  pub data Nodes : Type 0 where
    nil : Nodes
    cons : Node → Nodes → Nodes

abbrev pub node_key : Node → Text
node_key (node k v d i ns) = k

abbrev pub node_dir : Node → Bool
node_dir (node k v d i ns) = d

abbrev pub node_nodes : Node → Nodes
node_nodes (node k v d i ns) = ns

-- The pair that the store makes of a node.
abbrev pub pair_of : Node → KvPair
pair_of (node k v d i ns) = record { key = k; value = v; last_index = i }

-- client.Error with its code and message, or an error of another type.
pub data ClientError : Type 0 where
  etcd_error : ℕ → Text → ClientError
  other_error : Text → ClientError

-- err.Error()
abbrev pub message : ClientError → Text
message (etcd_error code m) = m
message (other_error m) = m

pub data Reply (A : Type 0) : Type 0 where
  response : A → Reply A
  refused : ClientError → Reply A

-- client.KeysAPI, and the three codes that the store tests for.
pub record KeysApi : Type 0 where
  pub get : Text → Reply Node
  pub set : Text → Text → Reply (Unit {0})
  pub delete : Text → Bool → Reply (Unit {0})
  pub code_key_not_found : ℕ
  pub code_not_file : ℕ
  pub code_not_dir : ℕ

-- actionMap; a name that it lacks gives Go's zero value, which is GET.
unfoldable pub action_map : Text → Action
action_map a =
    if a == codes "get"
    then Action.get
    else if a == codes "compareAndSwap"
    then Action.update
    else if a == codes "set"
    then Action.update
    else if a == codes "update"
    then Action.update
    else if a == codes "create"
    then Action.update
    else if a == codes "delete"
    then Action.delete
    else if a == codes "error"
    then Action.error
    else if a == codes "expire"
    then Action.delete
    else if a == codes "compareAndDelete"
    then Action.delete
    else Action.get

-- deleteEvent
unfoldable pub delete_event : Text → Event
delete_event key = record {
  action = action_map (codes "delete");
  key = key;
  modified_index = 0;
  pairs = [];
}

-- errorEvent
unfoldable pub error_event : Text → ClientError → Event
error_event key e = record {
  action = Action.error;
  key = key;
  modified_index = 0;
  pairs = record { key = codes "error"; value = message e; last_index = 0 } ∷ [];
}

-- travelNodes: the leaves of a tree, each directory in the place where it stands.
unfoldable pub travel_nodes : Nodes → List KvPair
travel_nodes nil = []
travel_nodes (cons (node k v d i kids) ns) =
    let inside = travel_nodes kids in
    let after = travel_nodes ns in
    if d then inside ++ after else pair_of (node k v d i kids) ∷ after

module _ (client : KeysApi) where
  -- keyNotFound
  unfoldable pub is_key_not_found : ClientError → Bool
  is_key_not_found (etcd_error code m) =
      code == client.code_key_not_found
      || code == client.code_not_file
      || code == client.code_not_dir
  is_key_not_found (other_error m) = false

  -- The error that `Get`, `List` and `GetTree` return for an error of the client.
  unfoldable pub store_error {ℓ} : {A : Type ℓ} → ClientError → Answer A
  store_error e = if is_key_not_found e then key_not_found else failure (message e)

  -- Etcd.Get
  unfoldable pub get_pair : Text → Answer KvPair
  get_pair key = elim (client.get (etcd_normalize key)) [
    | response n ↦ found (record (pair_of n) { key = key })
    | refused e ↦ store_error e
  ]

  -- The keys of the nodes of a directory.
  unfoldable pub node_keys : Nodes → List Text
  node_keys nil = []
  node_keys (cons n ns) = node_key n ∷ node_keys ns

  -- Etcd.List
  unfoldable pub list_keys : Text → Answer (List Text)
  list_keys dir = elim (client.get (etcd_normalize dir)) [
    | response n ↦ found (node_keys (node_nodes n))
    | refused e ↦ store_error e
  ]

  -- Etcd.GetTree
  unfoldable pub get_tree : Text → Answer (List KvPair)
  get_tree directory = elim (client.get (etcd_normalize directory)) [
    | response n ↦ found (if node_dir n then travel_nodes (node_nodes n) else pair_of n ∷ [])
    | refused e ↦ store_error e
  ]

  -- Etcd.Put
  unfoldable pub put : Text → Text → Option Text
  put key value = elim (client.set (etcd_normalize key) value) [
    | response _ ↦ none
    | refused e ↦ some (message e)
  ]

  -- Etcd.Delete
  unfoldable pub delete_key : Text → Bool → Answer (Unit {0})
  delete_key key recursive = elim (client.delete (etcd_normalize key) recursive) [
    | response _ ↦ found tt
    | refused e ↦ store_error e
  ]

  -- Etcd.Exists
  unfoldable pub exists : Text → Answer Bool
  exists key = elim (get_pair key) [
    | found _ ↦ found true
    | key_not_found ↦ found false
    | failure m ↦ failure m
  ]
