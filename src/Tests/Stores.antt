-- ===== src/Tests/Stores.antt =====
-- Examples for store/.
use mathlib.Core.List.{Memᴰ}
use lainlet.Base.{◌≡◌, ◌↔◌, true, false, [], ◌∷◌, if◌then◌else◌, ◌==◌, nat_eq, text_eq, codes, Text}
use lainlet.Store.{found, failure}
use lainlet.Store.Keys.{etcd_normalize, etcd_normalize_lem}
use lainlet.Store.Etcd.{
  Node, Nodes, node, nil, cons, ClientError, etcd_error, response, refused, KeysApi, travel_nodes,
  exists, pair_of, message,
}
use lainlet.Store.Etcd.Tree.{SaysNotFound, Leaf, travel_nodes-mem_iff, exists_cases}
use lainlet.Store.Etcd.Streams.{result, broken, watch, EndsAtError, watch-EndsAtError}

-- A file in a directory of its own.
abbrev file_node : Node
file_node = node (codes "/lain/config/vip") (codes "10.0.0.1") false 5 nil

abbrev tree : Nodes
tree = cons (node (codes "/lain/config") [] true 4 (cons file_node nil)) nil

travel_nodes-mem_iff_example :
    Memᴰ (pair_of file_node) (travel_nodes tree) ↔ Leaf (pair_of file_node) tree
travel_nodes-mem_iff_example = travel_nodes-mem_iff (pair_of file_node) tree

-- A client that has the one file.
abbrev client : KeysApi
client = record {
  get = λ key.
      if key == codes "/lain/config/vip" then response file_node else refused (etcd_error 100 []);
  set = λ key value. response tt;
  delete = λ key recursive. response tt;
  code_key_not_found = 100;
  code_not_file = 102;
  code_not_dir = 104;
}

exists_cases_example :
    ((exists client (codes "/lain") ≡ found true)
      ↔ ((n : Node) × (client.get (codes "/lain") ≡ response n)))
    × ((exists client (codes "/lain") ≡ found false)
        ↔ ((e : ClientError) × (client.get (codes "/lain") ≡ refused e) × SaysNotFound client e))
    × ((m : Text)
        → (exists client (codes "/lain") ≡ failure m) ↔ (
            (e : ClientError) × (client.get (codes "/lain") ≡ refused e)
            × (¬ SaysNotFound client e)
            × (message e ≡ m)))
exists_cases_example = exists_cases client (codes "/lain")

watch-EndsAtError_example :
    EndsAtError
      (watch
        (codes "/lain")
        (result (codes "set") file_node ∷ broken (etcd_error 401 (codes "cleared")) ∷ [])).events
      (watch
        (codes "/lain")
        (result (codes "set") file_node ∷ broken (etcd_error 401 (codes "cleared")) ∷ [])).closed
watch-EndsAtError_example =
    watch-EndsAtError (codes "/lain")
      (result (codes "set") file_node ∷ broken (etcd_error 401 (codes "cleared")) ∷ [])
      ((λ e. cc), (tt, tt))

etcd_normalize_lem_example : etcd_normalize (codes "/lain/config") ≡ codes "/lain/config"
etcd_normalize_lem_example = etcd_normalize_lem (codes "/lain/config")
