-- ===== src/Auth/Convert.antt =====
-- auth/auth.go: the conversions of the three watchers, with their invert tables.
pub mod Owners
use lainlet.Base.{
  ◌-◌, Bool, Option, none, some, List, [], ◌∷◌, ◌++◌, ltb, if◌then◌else◌, Text, Result, ok, err,
  panic, ◌>>=◌, length, take, codes, split, join,
}
use lainlet.Base.{GoMap, lookup, insert}
use lainlet.Spec.{Container, Pod, PodGroup, SharedPod, Depends}
use lainlet.Store.{KvPair}
use lainlet.Watcher.Cacher.{Data}
use lainlet.Watcher.Loop.{Converter, Watcher, new_watcher}
use lainlet.Watcher.Paths.{join_path, key_below}
use lainlet.Auth.{Auth, ContainerInfo, Table}

-- dependsKey, podgroupKey and superAppsStoreKey
unfoldable pub depends_key : Text
depends_key = codes "/lain/deployd/depends/pods"

unfoldable pub podgroup_key : Text
podgroup_key = codes "/lain/deployd/pod_groups"

unfoldable pub super_apps_store_key : Text
super_apps_store_key = codes "/lain/config/super_apps"

-- podgroupInvertKey and dependsInvertKey
unfoldable pub table_invert_key : Table → Text → Text
table_invert_key table key = elim (lookup key table) [ some k ↦ k | none ↦ [] ]

module _ (store_key : Text) (pg : PodGroup) where
  -- The loop of `podgroupConvert` over the containers of a pod.
  unfoldable pub own_containers :
      List Container → Data ContainerInfo × Table → Data ContainerInfo × Table
  own_containers [] s = s
  own_containers (c ∷ cs) (ret, table) = own_containers cs (
    insert c.container_ip
        (some (record { app_name = pg.spec.namespace; proc = pg.spec.name; container_id = c.id }))
        ret,
    insert c.container_ip store_key table,
  )

  -- Its loop over the pods.
  unfoldable pub own_pods : List Pod → Data ContainerInfo × Table → Data ContainerInfo × Table
  unfolding own_containers
  own_pods [] s = s
  own_pods (pod ∷ pods) s = own_pods pods (own_containers pod.containers s)

-- The loop of `podgroupConvert` over the pairs; `unmarshal` is json.Unmarshal.
unfoldable pub podgroup_convert_from :
    (Text → Option PodGroup)
    → Data ContainerInfo × Table
    → List KvPair
    → Table × Result (Data ContainerInfo)
podgroup_convert_from unmarshal (ret, table) [] = (table, ok ret)
podgroup_convert_from unmarshal (ret, table) (kv ∷ pairs) = elim (unmarshal kv.value) [
  | none ↦ (table, err (codes "a KVPair unmarshal failed"))
  | some pg ↦ podgroup_convert_from unmarshal (own_pods kv.key pg pg.pods (ret, table)) pairs
]

-- podgroupConvert
unfoldable pub podgroup_convert :
    (Text → Option PodGroup) → Table → List KvPair → Table × Result (Data ContainerInfo)
podgroup_convert unmarshal table pairs = podgroup_convert_from unmarshal ([], table) pairs

-- The service that a key of the store names.
unfoldable pub service_name : Text → Text
service_name key =
    let fields = split key b'.' in
    if ltb 3 (length fields)
    then join (take (length fields - 2) fields) b'.'
    else elim fields [ [] ↦ [] | f ∷ fs ↦ f ]

-- What stands under an address, with one more service behind it.
unfoldable pub with_service : Text → Option (Option (List Text)) → Option (List Text)
with_service service (some (some services)) = some (services ++ service ∷ [])
with_service service _ = some (service ∷ [])

module _ (store_key service : Text) where
  -- The loop of `dependsConvert` over the containers of an application.
  unfoldable pub add_services : List Container → Data (List Text) × Table → Data (List Text) × Table
  add_services [] s = s
  add_services (c ∷ cs) (ret, table) = add_services cs (
    insert c.container_ip (with_service service (lookup c.container_ip ret)) ret,
    insert c.container_ip store_key table,
  )

  -- Its loops over the applications of a node and over the nodes.
  unfoldable pub add_apps : GoMap SharedPod → Data (List Text) × Table → Data (List Text) × Table
  unfolding add_services
  add_apps [] s = s
  add_apps ((app, shared) ∷ apps) s = add_apps apps (add_services shared.pod.containers s)

  unfoldable pub add_nodes : Depends → Data (List Text) × Table → Data (List Text) × Table
  unfolding add_apps
  add_nodes [] s = s
  add_nodes ((n, apps) ∷ dp) s = add_nodes dp (add_apps apps s)

-- What `dependsConvert` does with one more pair, whose key below the watched one is given.
unfoldable pub depends_convert_from :
    (Text → Option Depends)
    → Data (List Text) × Table
    → List KvPair
    → Table × Result (Data (List Text))
depends_convert_from unmarshal (ret, table) [] = (table, ok ret)
depends_convert_from unmarshal (ret, table) (kv ∷ pairs) = elim (unmarshal kv.value) [
  | none ↦ (table, err (codes "a KVPair unmarshal failed"))
  | some dp ↦ elim (key_below depends_key kv.key) [
    | panic ↦ (table, panic)
    | err e ↦ (table, err e)
    | ok below ↦
        depends_convert_from unmarshal (add_nodes kv.key (service_name below) dp (ret, table)) pairs
  ]
]

-- dependsConvert
unfoldable pub depends_convert :
    (Text → Option Depends) → Table → List KvPair → Table × Result (Data (List Text))
depends_convert unmarshal table pairs = depends_convert_from unmarshal ([], table) pairs

-- superAppsInvertKey
unfoldable pub super_apps_invert_key : Text → Text
super_apps_invert_key key = join_path super_apps_store_key key

-- The loop of `superAppsConvert`.
unfoldable pub super_apps_convert_from : Data Text → List KvPair → Result (Data Text)
super_apps_convert_from ret [] = ok ret
super_apps_convert_from ret (kv ∷ pairs) = do
  k ← key_below super_apps_store_key kv.key
  super_apps_convert_from (insert k (some kv.value) ret) pairs

-- superAppsConvert
unfoldable pub super_apps_convert : List KvPair → Result (Data Text)
super_apps_convert pairs = super_apps_convert_from [] pairs

-- The converters that `Init` gives to the three watchers.
unfoldable pub podgroup_converter : (Text → Option PodGroup) → Converter Table ContainerInfo
podgroup_converter unmarshal = record {
  convert = podgroup_convert unmarshal;
  invert_key = table_invert_key;
}

unfoldable pub depends_converter : (Text → Option Depends) → Converter Table (List Text)
depends_converter unmarshal = record {
  convert = depends_convert unmarshal;
  invert_key = table_invert_key;
}

unfoldable pub super_apps_converter : Converter (Unit {0}) Text
super_apps_converter = record {
  convert = λ table pairs. (table, super_apps_convert pairs);
  invert_key = λ table key. super_apps_invert_key key;
}

-- Init, before the goroutines of the watchers run
unfoldable pub init : Text → Bool → Auth
init ip act = record {
  active = act;
  local_ip = ip;
  depends = new_watcher depends_key [];
  podgroup = new_watcher podgroup_key [];
  super_apps = new_watcher super_apps_store_key tt;
}
