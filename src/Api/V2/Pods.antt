-- ===== src/Api/V2/Pods.antt =====
-- api/v2: coreinfo.go, proxy.go, podgroup.go and rebellion_localprocs.go, whose answers describe the
-- pods of each pod group.
use lainlet.Base.{
  ℕ, Bool, false, not, Option, none, some, List, [], ◌∷◌, ◌++◌, map, ltb, if◌then◌else◌, Text, Eq,
  ◌==◌, nat_eq, text_eq, Result, ok, panic, ◌>>=◌, length, drop, any, codes, has_prefix, ℕ_discrete,
}
use lainlet.Base.{GoMap, insert}
use lainlet.Spec
use lainlet.Spec.{ContainerSpec, Pod, PodGroup}
use lainlet.Watcher.Cacher.{Data}
use lainlet.Watcher.Container.{app_version}
use lainlet.Api.V2.Common.{for_items, zip_index, map_result, changed_from}

-- v2.Container, v2.Dependency and v2.PodInfo
pub record Container : Type 0 where
  pub command : List Text
  pub id : Text
  pub ip : Text
  pub cpu : ℕ
  pub env : List Text
  pub expose : ℕ
  pub image : Text
  pub memory : ℕ
  pub node_ip : Text
  pub node_name : Text
  pub volumes : List Text

pub record Dependency : Type 0 where
  pub pod_name : Text
  pub policy : ℕ

pub record PodInfo : Type 0 where
  pub annotation : Text
  pub containers : List Container
  pub dependencies : List Dependency
  pub instance_no : ℕ

unfoldable pub pod_infos-discrete : Discrete (List PodInfo)
unfolding ℕ_discrete
pod_infos-discrete = hlevel ℕ_discrete

instance abbrev pub pod_infos_eq : Eq (List PodInfo)
pod_infos_eq = record { dec = pod_infos-discrete }

-- A container of a pod with its specification.
unfoldable pub core_container : Spec.Container → ContainerSpec → Container
core_container c s = record {
  command = s.command;
  id = c.id;
  ip = c.container_ip;
  cpu = s.cpu_limit;
  env = s.env;
  expose = s.expose;
  image = s.image;
  memory = s.memory_limit;
  node_ip = c.node_ip;
  node_name = c.node_name;
  volumes = s.volumes;
}

-- A pod of GeneralCoreInfo; a pod with more containers than the specification panics.
unfoldable pub core_pod : PodGroup → Pod → Result PodInfo
core_pod pg pod = do
  containers ← zip_index core_container pod.containers pg.spec.pod.containers
  ok (record {
    annotation = pg.spec.pod.annotation;
    containers = containers;
    dependencies =
        map (λ d. record { pod_name = d.pod_name; policy = d.policy }) pg.spec.pod.dependencies;
    instance_no = pod.instance_no;
  })

-- GeneralCoreInfo.Make; a CoreInfo is its list of pods.
unfoldable pub coreinfo_make :
    Option (GoMap (List PodInfo)) → Data PodGroup → Result (GoMap (List PodInfo) × Bool)
unfolding core_pod
coreinfo_make old items = do
  new ←
      for_items
        (λ _ pg ret.
          map_result (core_pod pg) pg.pods >>= λ infos. ok (insert pg.spec.name infos ret))
        items []
  ok (changed_from old new)

-- v2.ContainerForProxy; a ProcInfo is its list of containers.
pub record ContainerForProxy : Type 0 where
  pub container_ip : Text
  pub container_port : ℕ

unfoldable pub proxy-discrete : Discrete (List ContainerForProxy)
unfolding ℕ_discrete
proxy-discrete = hlevel ℕ_discrete

instance abbrev pub proxy_eq : Eq (List ContainerForProxy)
proxy_eq = record { dec = proxy-discrete }

-- The loops over the pods of a pod group and their containers.
unfoldable pub proxy_pods : PodGroup → List Pod → Result (List ContainerForProxy)
proxy_pods pg [] = ok []
proxy_pods pg (pod ∷ pods) = do
  here ←
      zip_index (λ c s. record { container_ip = c.container_ip; container_port = s.expose })
        pod.containers pg.spec.pod.containers
  later ← proxy_pods pg pods
  ok (here ++ later)

-- ProxyData.Make
unfoldable pub proxy_make :
    Option (GoMap (List ContainerForProxy))
    → Data PodGroup
    → Result (GoMap (List ContainerForProxy) × Bool)
unfolding proxy_pods
proxy_make old items = do
  new ←
      for_items
        (λ _ pg ret.
          proxy_pods pg pg.pods >>= λ containers. ok (insert pg.spec.name containers ret))
        items []
  ok (changed_from old new)

-- v2.Pod; a PodGroup of the answer is its list of pods.
pub record ProcPod : Type 0 where
  pub instance_no : ℕ
  pub ip : Text
  pub port : ℕ
  pub proc_name : Text

unfoldable pub proc_pods-discrete : Discrete (List (List ProcPod))
unfolding ℕ_discrete
proc_pods-discrete = hlevel ℕ_discrete

instance abbrev pub proc_pods_eq : Eq (List (List ProcPod))
proc_pods_eq = record { dec = proc_pods-discrete }

abbrev pub procname_prefix : Text
procname_prefix = codes "LAIN_PROCNAME="

-- The loop over `envlist`: the last entry with the prefix counts.
unfoldable pub procname_in : List Text → Text → Text
procname_in [] procname = procname
procname_in (env ∷ envs) procname =
    procname_in envs
      (if has_prefix env procname_prefix then drop (length procname_prefix) env else procname)

-- A pod of GeneralPodGroup; a pod with no container panics.
unfoldable pub proc_pod : Pod → Result ProcPod
unfolding procname_in
proc_pod pod = elim pod.containers [
  | [] ↦ panic
  | c ∷ cs ↦ ok (record {
    instance_no = pod.instance_no;
    ip = c.container_ip;
    port = c.container_port;
    proc_name = procname_in c.runtime_env [];
  })
]

-- GeneralPodGroup.Make; the answer is a slice in the order of the range.
unfoldable pub podgroup_make :
    Option (List (List ProcPod)) → Data PodGroup → Result (List (List ProcPod) × Bool)
unfolding proc_pod
podgroup_make old items = do
  new ←
      for_items (λ _ pg ret. map_result proc_pod pg.pods >>= λ pods. ok (ret ++ pods ∷ [])) items []
  ok (new, not (elim old [ none ↦ false | some ps ↦ new == ps ]))

-- v2.PodInfoForRebellion; a CoreInfoForRebellion is its list of pods.
pub record PodInfoForRebellion : Type 0 where
  pub annotation : Text
  pub app_version : Text
  pub instance_no : ℕ

unfoldable pub rebellion-discrete : Discrete (List PodInfoForRebellion)
unfolding ℕ_discrete
rebellion-discrete = hlevel ℕ_discrete

instance abbrev pub rebellion_eq : Eq (List PodInfoForRebellion)
rebellion_eq = record { dec = rebellion-discrete }

-- isLocalContainer
unfoldable pub is_local_pod : Text → Pod → Bool
is_local_pod host_name pod = any (λ c. c.node_name == host_name) pod.containers

-- The local pods of a pod group.
unfoldable pub rebellion_pods : Text → PodGroup → List Pod → List PodInfoForRebellion
rebellion_pods host_name pg [] = []
rebellion_pods host_name pg (pod ∷ pods) =
    let later = rebellion_pods host_name pg pods in
    if is_local_pod host_name pod
    then record {
      annotation = pg.spec.pod.annotation;
      app_version = app_version pg.spec.pod.containers;
      instance_no = pod.instance_no;
    }
      ∷ later
    else later

-- RebellionAPIProvider.Make; `host_name` is what os.Hostname returns.
unfoldable pub rebellion_make :
    Text
    → Option (GoMap (List PodInfoForRebellion))
    → Data PodGroup
    → Result (GoMap (List PodInfoForRebellion) × Bool)
rebellion_make host_name old items = do
  new ←
      for_items
        (λ _ pg ret.
          let infos = rebellion_pods host_name pg pg.pods in
          ok (if ltb 0 (length infos) then insert pg.spec.name infos ret else ret))
        items []
  ok (changed_from old new)
