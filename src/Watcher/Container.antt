-- ===== src/Watcher/Container.antt =====
-- watcher/container/container.go: the watcher of the containers, with the table that leads from the
-- keys of its cache back to the store's keys. `unmarshal` is json.Unmarshal into a pod group.
use lainlet.Base.{
  ℕ, Option, none, some, List, [], ◌∷◌, ◌++◌, if◌then◌else◌, Text, ◌==◌, nat_eq, text_eq, Result,
  ok, err, codes, split,
}
use lainlet.Base.{GoMap, lookup, insert, delete}
use lainlet.Spec.{ContainerSpec, Container, Pod, PodGroup}
use lainlet.Store.{KvPair, slash}
use lainlet.Watcher.Cacher.{Data}
use lainlet.Watcher.Loop.{Converter}

-- KEY
unfoldable pub container_key : Text
container_key = codes "/lain/deployd/pod_groups"

-- container.Info
pub record Info : Type 0 where
  pub app_name : Text
  pub app_version : Text
  pub proc_name : Text
  pub node_name : Text
  pub node_ip : Text
  pub ip : Text
  pub port : ℕ
  pub instance_no : ℕ

-- invertsTable
abbrev pub Table : Type 0
Table = GoMap Text

-- invertKey
unfoldable pub invert_key : Table → Text → Text
invert_key table key = elim (lookup key table) [ some s ↦ s | none ↦ [] ]

-- The keys of the table that lead to a key of the store.
unfoldable pub keys_of : Text → Table → List Text
keys_of key [] = []
keys_of key ((k, v) ∷ m) = let rest = keys_of key m in if v == key then k ∷ rest else rest

-- The loop over `deletedKeys`.
unfoldable pub forget : List Text → Data Info × Table → Data Info × Table
forget [] s = s
forget (k ∷ ks) (ret, table) = forget ks (insert k none ret, delete k table)

-- The version in the environment of a container: the value of the first entry that is exactly
-- LAIN_APP_RELEASE_VERSION=value, with no other equals sign.
unfoldable pub version_in : List Text → Text
version_in [] = []
version_in (env ∷ envs) = elim (split env b'=') [
  | name ∷ value ∷ [] ↦ if name == codes "LAIN_APP_RELEASE_VERSION" then value else version_in envs
  | _ ↦ version_in envs
]

-- appVersion
unfoldable pub app_version : List ContainerSpec → Text
unfolding version_in
app_version [] = []
app_version (c ∷ cs) = version_in c.env

module _ (store_key : Text) (pg : PodGroup) where
  -- ci
  unfoldable pub info_of : Pod → Container → Info
  info_of pod c = record {
    app_name = pg.spec.namespace;
    app_version = app_version pg.spec.pod.containers;
    proc_name = pg.spec.name;
    node_name = c.node_name;
    node_ip = c.node_ip;
    ip = c.container_ip;
    port = c.container_port;
    instance_no = pod.instance_no;
  }

  -- k1 and k2
  abbrev pub name_key : Container → Text
  name_key c = c.node_name ++ slash ∷ c.id

  abbrev pub ip_key : Container → Text
  ip_key c = c.node_ip ++ slash ∷ c.id

  -- The loop over the containers of a pod.
  unfoldable pub add_containers : Pod → List Container → Data Info × Table → Data Info × Table
  add_containers pod [] s = s
  add_containers pod (c ∷ cs) (ret, table) =
      let ci : Option Info = some (info_of pod c) in
      add_containers pod cs (
        insert (ip_key c) ci (insert (name_key c) ci ret),
        insert (ip_key c) store_key (insert (name_key c) store_key table),
      )

  -- The loop over the pods.
  unfoldable pub add_pods : List Pod → Data Info × Table → Data Info × Table
  unfolding add_containers
  add_pods [] s = s
  add_pods (pod ∷ pods) s = add_pods pods (add_containers pod pod.containers s)

module _ (unmarshal : Text → Option PodGroup) where
  -- The loop of `convert`; the table is written also if a later pair fails.
  unfoldable pub convert_from : Data Info × Table → List KvPair → Table × Result (Data Info)
  unfolding forget add_pods
  convert_from (ret, table) [] = (table, ok ret)
  convert_from (ret, table) (kv ∷ pairs) = elim (unmarshal kv.value) [
    | none ↦ (table, err (codes "a KVPair unmarshal failed"))
    | some pg ↦
        convert_from (add_pods kv.key pg pg.pods (forget (keys_of kv.key table) (ret, table))) pairs
  ]

  -- convert
  unfoldable pub convert : Table → List KvPair → Table × Result (Data Info)
  unfolding convert_from
  convert table pairs = convert_from ([], table) pairs

  -- New, as the pair of functions that the base watcher is given
  unfoldable pub container_converter : Converter Table Info
  container_converter = record { convert = convert; invert_key = invert_key }
