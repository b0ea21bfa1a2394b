-- ===== src/Endpoints/Replies.antt =====
-- endpoints/*.go: the replies that the `make` methods build. The messages of message.proto have the
-- fields of the types of api/v2, whose names are used here; an int32 field is its bit pattern.
pub mod Streams
use lainlet.Base.{
  ℕ, ◌%◌, ◌^◌, Option, none, some, List, [], ◌∷◌, ◌++◌, map, ltb, if◌then◌else◌, Text, nat_eq,
  text_eq, Result, ok, panic, ◌>>=◌, length, contains,
}
use lainlet.Base.{GoMap, insert}
use lainlet.Spec
use lainlet.Spec.{ContainerSpec, Pod, PodGroup, SharedPod, Depends}
use lainlet.Watcher.Cacher.{Data}
use lainlet.Watcher.Container.{Info, app_version}
use lainlet.Api.V2.Common.{for_items, zip_index, map_result}
use lainlet.Api.V2.Simple.{
  ContainerInfo, DependsItem, ContainerForBackupctl, PodInfoForBackupctl, insert_new,
}
use lainlet.Api.V2.Pods.{
  Container, Dependency, PodInfo, core_container, ContainerForProxy, ProcPod, procname_in,
  PodInfoForRebellion, is_local_pod,
}
use lainlet.Api.V2.Routers.{
  ContainerForWebrouter, PodInfoForWebrouter, Counts, count_pod, has_too_many_dead,
  too_many_dead_containers, is_web, Port, sort_by,
}

-- int32(n)
unfoldable pub int32 : ℕ → ℕ
int32 n = n % 2 ^ 32

-- AppsEndpoint.make; an AppInfo is the name alone.
unfoldable pub apps_reply : Data PodGroup → Result (GoMap Text)
apps_reply items =
    for_items (λ _ pg ret. ok (insert_new pg.spec.namespace pg.spec.namespace ret)) items []

-- BackupctlEndpoint.make, a pod
unfoldable pub backupctl_pod : PodGroup → Pod → PodInfoForBackupctl
unfolding int32
backupctl_pod pg pod = record {
  annotation = pg.spec.pod.annotation;
  containers =
      map
        (λ c. record {
          id = c.id;
          ip = c.container_ip;
          node_ip = c.node_ip;
          node_name = c.node_name;
        })
        pod.containers;
  instance_no = int32 pod.instance_no;
}

-- BackupctlEndpoint.make
unfoldable pub backupctl_reply : Data PodGroup → Result (GoMap (List PodInfoForBackupctl))
unfolding backupctl_pod
backupctl_reply items =
    for_items (λ _ pg ret. ok (insert pg.spec.name (map (backupctl_pod pg) pg.pods) ret)) items []

-- ConfigEndpoint.make; a value that is no string, as a nil one, becomes the empty text.
unfoldable pub config_reply : Data Text → GoMap Text → GoMap Text
config_reply [] ret = ret
config_reply ((k, v) ∷ m) ret = config_reply m (insert k (elim v [ some t ↦ t | none ↦ [] ]) ret)

-- ContainersEndpoint.make; a nil value is passed over.
unfoldable pub containers_reply : Data Info → GoMap Info → GoMap Info
unfolding int32
containers_reply [] ret = ret
containers_reply ((k, v) ∷ m) ret = containers_reply m (elim v [
  | none ↦ ret
  | some info ↦
      insert k (record info { port = int32 info.port; instance_no = int32 info.instance_no }) ret
])

-- CoreinfoEndpoint.make, a container and a pod; a pod with more containers than the specification
-- panics.
unfoldable pub core_pb_container : Spec.Container → ContainerSpec → Container
unfolding int32 core_container
core_pb_container c s = record (core_container c s) {
  cpu = int32 s.cpu_limit;
  expose = int32 s.expose;
}

unfoldable pub core_pb_pod : PodGroup → Pod → Result PodInfo
unfolding core_pb_container
core_pb_pod pg pod = do
  containers ← zip_index core_pb_container pod.containers pg.spec.pod.containers
  ok (record {
    annotation = pg.spec.pod.annotation;
    containers = containers;
    dependencies =
        map (λ d. record { pod_name = d.pod_name; policy = int32 d.policy })
          pg.spec.pod.dependencies;
    instance_no = int32 pod.instance_no;
  })

-- CoreinfoEndpoint.make
unfoldable pub coreinfo_reply : Data PodGroup → Result (GoMap (List PodInfo))
unfolding core_pb_pod
coreinfo_reply items =
    for_items
      (λ _ pg ret.
        map_result (core_pb_pod pg) pg.pods >>= (λ infos. ok (insert pg.spec.name infos ret)))
      items []

-- DependsEndpoint.make, an item and the two inner loops
unfoldable pub depends_pb_item : SharedPod → DependsItem
unfolding int32
depends_pb_item item = record {
  annotation = item.spec.annotation;
  containers =
      map
        (λ c. record {
          container_id = c.id;
          node_ip = c.node_ip;
          ip = c.container_ip;
          port = int32 c.container_port;
        })
        item.pod.containers;
}

unfoldable pub depends_pb_apps : GoMap SharedPod → GoMap DependsItem → GoMap DependsItem
unfolding depends_pb_item
depends_pb_apps [] ret = ret
depends_pb_apps ((app, item) ∷ m) ret = depends_pb_apps m (insert app (depends_pb_item item) ret)

unfoldable pub depends_pb_nodes : Depends → GoMap (GoMap DependsItem) → GoMap (GoMap DependsItem)
unfolding depends_pb_apps
depends_pb_nodes [] ret = ret
depends_pb_nodes ((node_name, apps) ∷ m) ret =
    depends_pb_nodes m (insert node_name (depends_pb_apps apps []) ret)

-- DependsEndpoint.make
unfoldable pub depends_reply : Data Depends → Result (GoMap (GoMap (GoMap DependsItem)))
unfolding depends_pb_nodes
depends_reply items = for_items (λ k dd ret. ok (insert k (depends_pb_nodes dd []) ret)) items []

-- LocalspecEndpoint.make; the reply lists the set in the order of the range.
unfoldable pub localspec_reply : Data Info → Result (List Text)
localspec_reply items =
    for_items
      (λ _ ci set.
        let path = ci.app_name ++ b'/' ∷ ci.proc_name in
        ok (if contains path set then set else path ∷ set))
      items []

-- What a field of a node is: a string, a map of strings, or something else, which the reply has nil
-- for. json.Unmarshal makes no map of strings here.
pub data NodeValue : Type 0 where
  string : Text → NodeValue
  strings : GoMap Text → NodeValue
  other : NodeValue

-- pb.NodeInfo_Value, by its Vtype
pub data PbValue : Type 0 where
  sval : Text → PbValue
  mval : GoMap Text → PbValue

-- NodesEndpoint.make, the fields of a node
unfoldable pub node_reply : GoMap NodeValue → GoMap (Option PbValue) → GoMap (Option PbValue)
node_reply [] ret = ret
node_reply ((k, v) ∷ ni) ret =
    node_reply ni (
      insert k (elim v [ string s ↦ some (sval s) | strings m ↦ some (mval m) | other ↦ none ]) ret)

-- NodesEndpoint.make
unfoldable pub nodes_reply : Data (GoMap NodeValue) → Result (GoMap (GoMap (Option PbValue)))
unfolding node_reply
nodes_reply items = for_items (λ k ni ret. ok (insert k (node_reply ni []) ret)) items []

-- PodgroupEndpoint.make, a pod; a pod with no container panics.
unfoldable pub proc_pb_pod : Pod → Result ProcPod
unfolding int32 procname_in
proc_pb_pod pod = elim pod.containers [
  | [] ↦ panic
  | c ∷ cs ↦ ok (record {
    instance_no = int32 pod.instance_no;
    ip = c.container_ip;
    port = int32 c.container_port;
    proc_name = procname_in c.runtime_env [];
  })
]

-- PodgroupEndpoint.make
unfoldable pub podgroup_reply : Data PodGroup → Result (List (List ProcPod))
unfolding proc_pb_pod
podgroup_reply items =
    for_items (λ _ pg ret. map_result proc_pb_pod pg.pods >>= (λ pods. ok (ret ++ pods ∷ []))) items
      []

-- ProxyEndpoint.make, the loops over the pods and their containers
unfoldable pub proxy_pb_pods : PodGroup → List Pod → Result (List ContainerForProxy)
unfolding int32
proxy_pb_pods pg [] = ok []
proxy_pb_pods pg (pod ∷ pods) = do
  here ←
      zip_index (λ c s. record { container_ip = c.container_ip; container_port = int32 s.expose })
        pod.containers pg.spec.pod.containers
  later ← proxy_pb_pods pg pods
  ok (here ++ later)

-- ProxyEndpoint.make
unfoldable pub proxy_reply : Data PodGroup → Result (GoMap (List ContainerForProxy))
unfolding proxy_pb_pods
proxy_reply items =
    for_items
      (λ _ pg ret.
        proxy_pb_pods pg pg.pods >>= (λ containers. ok (insert pg.spec.name containers ret)))
      items []

-- RebellionLocalprocsEndpoint.make, the local pods of a group; `host_name` is what os.Hostname
-- returns.
unfoldable pub rebellion_pb_pods : Text → PodGroup → List Pod → List PodInfoForRebellion
unfolding int32 is_local_pod
rebellion_pb_pods host_name pg [] = []
rebellion_pb_pods host_name pg (pod ∷ pods) =
    let later = rebellion_pb_pods host_name pg pods in
    if is_local_pod host_name pod
    then record {
      annotation = pg.spec.pod.annotation;
      app_version = app_version pg.spec.pod.containers;
      instance_no = int32 pod.instance_no;
    }
      ∷ later
    else later

-- RebellionLocalprocsEndpoint.make
unfoldable pub rebellion_reply : Text → Data PodGroup → Result (GoMap (List PodInfoForRebellion))
unfolding rebellion_pb_pods
rebellion_reply host_name items =
    for_items
      (λ _ pg ret.
        let infos = rebellion_pb_pods host_name pg pg.pods in
        ok (if ltb 0 (length infos) then insert pg.spec.name infos ret else ret))
      items []
