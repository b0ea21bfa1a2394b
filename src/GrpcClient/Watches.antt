-- ===== src/GrpcClient/Watches.antt =====
-- grpcclient/client.go: the watchers of the services, which `Watch` opens without a timeout.
use lainlet.Base.{ℕ, Option, List, [], Text, nat_eq, text_eq, Result}
use lainlet.Base.{GoMap}
use lainlet.Watcher.Container.{Info}
use lainlet.Api.V2.Simple.{DependsItem, PodInfoForBackupctl}
use lainlet.Api.V2.Pods.{PodInfo, ContainerForProxy, ProcPod, PodInfoForRebellion}
use lainlet.Api.V2.Routers.{PodInfoForWebrouter}
use lainlet.Api.V2.Routers.Streams.{StreamProc}
use lainlet.Endpoints.Replies.{PbValue}
use lainlet.GrpcClient.{Reader, open_watch}
use lainlet.GrpcClient.Methods.{Client}

-- AppsWatcher
abbrev pub AppsWatcher : Type 0
AppsWatcher = Reader (GoMap Text)

-- BackupctlWatcher
abbrev pub BackupctlWatcher : Type 0
BackupctlWatcher = Reader (GoMap (List PodInfoForBackupctl))

-- ConfigWatcher
abbrev pub ConfigWatcher : Type 0
ConfigWatcher = Reader (GoMap Text)

-- ContainersWatcher
abbrev pub ContainersWatcher : Type 0
ContainersWatcher = Reader (GoMap Info)

-- CoreinfoWatcher
abbrev pub CoreinfoWatcher : Type 0
CoreinfoWatcher = Reader (GoMap (List PodInfo))

-- NodesWatcher
abbrev pub NodesWatcher : Type 0
NodesWatcher = Reader (GoMap (GoMap (Option PbValue)))

-- PodgroupWatcher
abbrev pub PodgroupWatcher : Type 0
PodgroupWatcher = Reader (List (List ProcPod))

-- ProxyWatcher
abbrev pub ProxyWatcher : Type 0
ProxyWatcher = Reader (GoMap (List ContainerForProxy))

-- RebellionLocalprocsWatcher
abbrev pub RebellionLocalprocsWatcher : Type 0
RebellionLocalprocsWatcher = Reader (GoMap (List PodInfoForRebellion))

-- StreamrouterPortsWatcher
abbrev pub StreamrouterPortsWatcher : Type 0
StreamrouterPortsWatcher = Reader (List ℕ)

-- StreamrouterStreamprocsWatcher
abbrev pub StreamrouterStreamprocsWatcher : Type 0
StreamrouterStreamprocsWatcher = Reader (GoMap (List StreamProc))

-- WebrouterWebprocsWatcher
abbrev pub WebrouterWebprocsWatcher : Type 0
WebrouterWebprocsWatcher = Reader (GoMap (List PodInfoForWebrouter))

-- DependsWatcher
abbrev pub DependsWatcher : Type 0
DependsWatcher = Reader (GoMap (GoMap (GoMap DependsItem)))

module _ (cli : Client) where
  -- AppsWatch
  unfoldable pub apps_watch : Result AppsWatcher
  unfolding open_watch
  apps_watch = open_watch cli.services.apps []

  -- BackupctlWatch
  unfoldable pub backupctl_watch : Text → Result BackupctlWatcher
  unfolding open_watch
  backupctl_watch appname = open_watch cli.services.backupctl appname

  -- ConfigWatch
  unfoldable pub config_watch : Text → Result ConfigWatcher
  unfolding open_watch
  config_watch target = open_watch cli.services.config target

  -- ContainersWatch
  unfoldable pub containers_watch : Text → Result ContainersWatcher
  unfolding open_watch
  containers_watch nodename = open_watch cli.services.containers nodename

  -- CoreinfoWatch
  unfoldable pub coreinfo_watch : Text → Result CoreinfoWatcher
  unfolding open_watch
  coreinfo_watch appname = open_watch cli.services.coreinfo appname

  -- NodesWatch
  unfoldable pub nodes_watch : Text → Result NodesWatcher
  unfolding open_watch
  nodes_watch name = open_watch cli.services.nodes name

  -- PodgroupWatch
  unfoldable pub podgroup_watch : Text → Result PodgroupWatcher
  unfolding open_watch
  podgroup_watch appname = open_watch cli.services.podgroup appname

  -- ProxyWatch
  unfoldable pub proxy_watch : Text → Result ProxyWatcher
  unfolding open_watch
  proxy_watch appname = open_watch cli.services.proxy appname

  -- RebellionLocalprocsWatch
  unfoldable pub rebellion_localprocs_watch : Text → Result RebellionLocalprocsWatcher
  unfolding open_watch
  rebellion_localprocs_watch appname = open_watch cli.services.rebellion_localprocs appname

  -- StreamrouterPortsWatch
  unfoldable pub streamrouter_ports_watch : Text → Result StreamrouterPortsWatcher
  unfolding open_watch
  streamrouter_ports_watch appname = open_watch cli.services.streamrouter_ports appname

  -- StreamrouterStreamprocsWatch
  unfoldable pub streamrouter_streamprocs_watch : Text → Result StreamrouterStreamprocsWatcher
  unfolding open_watch
  streamrouter_streamprocs_watch appname = open_watch cli.services.streamrouter_streamprocs appname

  -- WebrouterWebprocsWatch
  unfoldable pub webrouter_webprocs_watch : Text → Result WebrouterWebprocsWatcher
  unfolding open_watch
  webrouter_webprocs_watch appname = open_watch cli.services.webrouter_webprocs appname

  -- DependsWatch
  unfoldable pub depends_watch : Text → Result DependsWatcher
  unfolding open_watch
  depends_watch target = open_watch cli.services.depends target
