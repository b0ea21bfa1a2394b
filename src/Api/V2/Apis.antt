-- ===== src/Api/V2/Apis.antt =====
-- api/v2/*.go: the APIs, with the URI, the name of the watcher and the encoding of each. An instance is
-- its field Data, which is nil in the instance that is registered. json.Marshal on the data is a
-- parameter of each.
use lainlet.Base.{
  ℕ, Bool, true, false, Option, some, List, Text, Eq, nat_eq, text_eq, Result, ok, ◌>>=◌, codes,
}
use lainlet.Base.{GoMap}
use lainlet.Spec.{PodGroup, Depends}
use lainlet.Watcher.Container.{Info}
use lainlet.Auth.{Auth}
use lainlet.Api.Keys
use lainlet.Api.Server.{Api}
use lainlet.Api.V2.Simple.{
  apps_make, config_make, containers_make, nodes_make, depends_make, backupctl_make, DependsItem,
  PodInfoForBackupctl,
}
use lainlet.Api.V2.Pods.{
  coreinfo_make, proxy_make, podgroup_make, rebellion_make, PodInfo, ContainerForProxy, ProcPod,
  PodInfoForRebellion,
}
use lainlet.Api.V2.Routers.{webrouter_make, ports_make, PodInfoForWebrouter, Port}
use lainlet.Api.V2.Routers.Streams.{StreamProc, stream_make}
use lainlet.Api.V2.LocalSpec.{localspec_make}

-- The instance that Make returns, of its data.
abbrev pub made_of : {R : Type 0} → Result (R × Bool) → Result (Option R × Bool)
made_of made = made >>= (λ (new, changed). ok (some new, changed))

abbrev pub Encoder : Type 0 → Type 0
Encoder R = Option R → Result Text

module _ (a : Auth) where
  -- AppsData
  unfoldable pub apps_api : Encoder (GoMap Text) → Api (Option (GoMap Text)) PodGroup
  apps_api encode = record {
    uri = codes "/appswatcher";
    watcher_name = codes "podgroup";
    is_ban_watcher = false;
    key = Keys.apps_key a;
    make = λ s items. made_of (apps_make s items);
    encode = encode;
  }

  -- GeneralConfig
  unfoldable pub config_api : Encoder (GoMap Text) → Api (Option (GoMap Text)) Text
  config_api encode = record {
    uri = codes "/configwatcher";
    watcher_name = codes "config";
    is_ban_watcher = false;
    key = Keys.config_key a;
    make = λ s items. made_of (ok (config_make s items));
    encode = encode;
  }

  -- GeneralPodGroup
  unfoldable pub podgroup_api :
      Encoder (List (List ProcPod)) → Api (Option (List (List ProcPod))) PodGroup
  podgroup_api encode = record {
    uri = codes "/procwatcher";
    watcher_name = codes "podgroup";
    is_ban_watcher = false;
    key = Keys.podgroup_key a;
    make = λ s items. made_of (podgroup_make s items);
    encode = encode;
  }

  -- GeneralCoreInfo
  unfoldable pub coreinfo_api :
      Encoder (GoMap (List PodInfo)) → Api (Option (GoMap (List PodInfo))) PodGroup
  coreinfo_api encode = record {
    uri = codes "/coreinfowatcher";
    watcher_name = codes "podgroup";
    is_ban_watcher = false;
    key = Keys.app_key a;
    make = λ s items. made_of (coreinfo_make s items);
    encode = encode;
  }

  -- GeneralContainers
  unfoldable pub containers_api : Encoder (GoMap Info) → Api (Option (GoMap Info)) Info
  containers_api encode = record {
    uri = codes "/containers";
    watcher_name = codes "container";
    is_ban_watcher = false;
    key = Keys.containers_key a;
    make = λ s items. made_of (ok (containers_make items));
    encode = encode;
  }

  -- ProxyData
  unfoldable pub proxy_api :
      Encoder (GoMap (List ContainerForProxy))
      → Api (Option (GoMap (List ContainerForProxy))) PodGroup
  proxy_api encode = record {
    uri = codes "/proxywatcher";
    watcher_name = codes "podgroup";
    is_ban_watcher = false;
    key = Keys.proxy_key a;
    make = λ s items. made_of (proxy_make s items);
    encode = encode;
  }

  -- Depends
  unfoldable pub depends_api :
      Encoder (GoMap (GoMap (GoMap DependsItem)))
      → Api (Option (GoMap (GoMap (GoMap DependsItem)))) Depends
  depends_api encode = record {
    uri = codes "/depends";
    watcher_name = codes "depends";
    is_ban_watcher = false;
    key = Keys.depends_key a;
    make = λ s items. made_of (depends_make s items);
    encode = encode;
  }

  -- WebrouterInfo
  unfoldable pub webrouter_api :
      Encoder (GoMap (List PodInfoForWebrouter))
      → Api (Option (GoMap (List PodInfoForWebrouter))) PodGroup
  webrouter_api encode = record {
    uri = codes "/webrouter/webprocs";
    watcher_name = codes "podgroup";
    is_ban_watcher = false;
    key = Keys.web_key a;
    make = λ s items. made_of (webrouter_make s items);
    encode = encode;
  }

  -- CoreInfoForBackupctl
  unfoldable pub backupctl_api :
      Encoder (GoMap (List PodInfoForBackupctl))
      → Api (Option (GoMap (List PodInfoForBackupctl))) PodGroup
  backupctl_api encode = record {
    uri = codes "/backupspec";
    watcher_name = codes "podgroup";
    is_ban_watcher = false;
    key = Keys.backupctl_key a;
    make = λ s items. made_of (backupctl_make s items);
    encode = encode;
  }

  -- GeneralNodes
  unfoldable pub nodes_api :
      {NodeInfo : Type 0} ⦃e : Eq NodeInfo⦄
      → Encoder (GoMap NodeInfo)
      → Api (Option (GoMap NodeInfo)) NodeInfo
  nodes_api encode = record {
    uri = codes "/nodes";
    watcher_name = codes "nodes";
    is_ban_watcher = false;
    key = Keys.nodes_key a;
    make = λ s items. made_of (nodes_make s items);
    encode = encode;
  }

  -- StreamRouterInfo
  unfoldable pub stream_api :
      (Text → List Port)
      → Encoder (GoMap (List StreamProc))
      → Api (Option (GoMap (List StreamProc))) PodGroup
  stream_api ports_of encode = record {
    uri = codes "/streamrouter/streamprocs";
    watcher_name = codes "podgroup";
    is_ban_watcher = false;
    key = Keys.stream_key a;
    make = λ s items. made_of (stream_make ports_of s items);
    encode = encode;
  }

  -- Ports
  unfoldable pub ports_api : (Text → List Port) → Encoder (List ℕ) → Api (Option (List ℕ)) PodGroup
  ports_api ports_of encode = record {
    uri = codes "/streamrouter/ports";
    watcher_name = codes "podgroup";
    is_ban_watcher = false;
    key = Keys.ports_key a;
    make = λ s items. made_of (ports_make ports_of s items);
    encode = encode;
  }

  -- RebellionAPIProvider
  unfoldable pub rebellion_api :
      Text
      → Encoder (GoMap (List PodInfoForRebellion))
      → Api (Option (GoMap (List PodInfoForRebellion))) PodGroup
  rebellion_api host_name encode = record {
    uri = codes "/rebellion/localprocs";
    watcher_name = codes "podgroup";
    is_ban_watcher = false;
    key = Keys.rebellion_key a;
    make = λ s items. made_of (rebellion_make host_name s items);
    encode = encode;
  }

  -- LocalSpec, with its LocalIP
  unfoldable pub localspec_api : Text → Encoder (List Text) → Api (Option (List Text)) Info
  localspec_api local_ip encode = record {
    uri = codes "/localspecquery";
    watcher_name = codes "container";
    is_ban_watcher = true;
    key = λ r. Keys.localspec_key a r local_ip;
    make = λ s items. made_of (localspec_make s items);
    encode = encode;
  }
