-- ===== src/Api/V2/Simple.antt =====
-- api/v2: apps.go, config.go, container.go, nodes.go, depends.go and backupctl.go, whose answers are
-- maps that keep or shorten what the watcher holds.
use lainlet.Base.{
  ℕ, Bool, true, Option, none, some, List, [], ◌∷◌, map, if◌then◌else◌, Text, Eq, nat_eq, text_eq,
  is_some, not, false, ◌==◌, Result, ok, ◌>>=◌, ℕ_discrete,
}
use lainlet.Base.{GoMap, lookup, insert}
use lainlet.Spec.{Pod, PodGroup, SharedPod, Depends}
use lainlet.Watcher.Cacher.{Data}
use lainlet.Watcher.Container.{Info}
use lainlet.Api.V2.Common.{for_items, changed_from, same_map}

-- The map of the answers so far, unless the key is there already.
abbrev pub insert_new : {V : Type 0} → Text → V → GoMap V → GoMap V
insert_new k v m = if is_some (lookup k m) then m else insert k v m

-- AppsData.Make; an AppInfo is the name alone.
unfoldable pub apps_data : Data PodGroup → Result (GoMap Text)
apps_data items =
    for_items (λ _ pg ret. ok (insert_new pg.spec.namespace pg.spec.namespace ret)) items []

unfoldable pub apps_make : Option (GoMap Text) → Data PodGroup → Result (GoMap Text × Bool)
unfolding apps_data
apps_make old items = do new ← apps_data items; ok (changed_from old new)

-- GeneralConfig.Make; a value that is no string, as a nil one, becomes the empty text.
unfoldable pub config_data : Data Text → GoMap Text → GoMap Text
config_data [] ret = ret
config_data ((k, v) ∷ m) ret = config_data m (insert k (elim v [ some t ↦ t | none ↦ [] ]) ret)

unfoldable pub config_make : Option (GoMap Text) → Data Text → GoMap Text × Bool
unfolding config_data
config_make old conf = changed_from old (config_data conf [])

-- GeneralContainers.Make; a nil value is passed over.
unfoldable pub containers_data : Data Info → GoMap Info → GoMap Info
containers_data [] ret = ret
containers_data ((k, v) ∷ m) ret =
    containers_data m (elim v [ some info ↦ insert k info ret | none ↦ ret ])

unfoldable pub containers_make : Data Info → GoMap Info × Bool
unfolding containers_data
containers_make items = (containers_data items [], true)

-- GeneralNodes.Make
unfoldable pub nodes_make :
    {NodeInfo : Type 0} ⦃e : Eq NodeInfo⦄
    → Option (GoMap NodeInfo)
    → Data NodeInfo
    → Result (GoMap NodeInfo × Bool)
nodes_make old items = do
  new ← for_items (λ k info ret. ok (insert k info ret)) items []
  ok (changed_from old new)

-- v2.ContainerInfo and v2.DependsItem
pub record ContainerInfo : Type 0 where
  pub container_id : Text
  pub node_ip : Text
  pub ip : Text
  pub port : ℕ

pub record DependsItem : Type 0 where
  pub annotation : Text
  pub containers : List ContainerInfo

-- The item that stands for a shared pod.
unfoldable pub depends_item : SharedPod → DependsItem
depends_item item = record {
  annotation = item.spec.annotation;
  containers =
      map
        (λ c. record {
          container_id = c.id;
          node_ip = c.node_ip;
          ip = c.container_ip;
          port = c.container_port;
        })
        item.pod.containers;
}

-- The loops over the applications and the nodes of one service.
unfoldable pub depends_apps : GoMap SharedPod → GoMap DependsItem → GoMap DependsItem
depends_apps [] ret = ret
depends_apps ((app, item) ∷ m) ret = depends_apps m (insert app (depends_item item) ret)

unfoldable pub depends_nodes : Depends → GoMap (GoMap DependsItem) → GoMap (GoMap DependsItem)
depends_nodes [] ret = ret
depends_nodes ((node_name, apps) ∷ m) ret =
    depends_nodes m (insert node_name (depends_apps apps []) ret)

-- Depends.Make, the data alone
unfoldable pub depends_data : Data Depends → Result (GoMap (GoMap (GoMap DependsItem)))
depends_data items = for_items (λ k dd ret. ok (insert k (depends_nodes dd []) ret)) items []

unfoldable pub depends_item-discrete : Discrete DependsItem
unfolding ℕ_discrete
depends_item-discrete = hlevel ℕ_discrete

instance abbrev pub depends_item_eq : Eq DependsItem
depends_item_eq = record { dec = depends_item-discrete }

-- reflect.DeepEqual on the data of two Depends, of which the first may be nil
unfoldable pub same_depends :
    Option (GoMap (GoMap (GoMap DependsItem))) → GoMap (GoMap (GoMap DependsItem)) → Bool
unfolding same_map
same_depends none new = false
same_depends (some old) new = same_map (same_map (same_map (λ x y. x == y))) old new

-- Depends.Make
unfoldable pub depends_make :
    Option (GoMap (GoMap (GoMap DependsItem)))
    → Data Depends
    → Result (GoMap (GoMap (GoMap DependsItem)) × Bool)
unfolding depends_data same_depends
depends_make old items = do new ← depends_data items; ok (new, not (same_depends old new))

-- v2.ContainerForBackupctl and v2.PodInfoForBackupctl
pub record ContainerForBackupctl : Type 0 where
  pub id : Text
  pub ip : Text
  pub node_ip : Text
  pub node_name : Text

pub record PodInfoForBackupctl : Type 0 where
  pub annotation : Text
  pub containers : List ContainerForBackupctl
  pub instance_no : ℕ

unfoldable pub backupctl-discrete : Discrete (List PodInfoForBackupctl)
unfolding ℕ_discrete
backupctl-discrete = hlevel ℕ_discrete

instance abbrev pub backupctl_eq : Eq (List PodInfoForBackupctl)
backupctl_eq = record { dec = backupctl-discrete }

-- The information on a pod.
unfoldable pub backupctl_pod : PodGroup → Pod → PodInfoForBackupctl
backupctl_pod pg pod = record {
  annotation = pg.spec.pod.annotation;
  containers =
      map
        (λ c. record {
          id = c.id;
          ip = c.container_ip;
          node_ip = c.node_ip;
          node_name = c.node_name;
        })
        pod.containers;
  instance_no = pod.instance_no;
}

-- CoreInfoForBackupctl.Make
unfoldable pub backupctl_make :
    Option (GoMap (List PodInfoForBackupctl))
    → Data PodGroup
    → Result (GoMap (List PodInfoForBackupctl) × Bool)
backupctl_make old items = do
  new ←
      for_items (λ _ pg ret. ok (insert pg.spec.name (map (backupctl_pod pg) pg.pods) ret)) items []
  ok (changed_from old new)
