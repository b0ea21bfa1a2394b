-- ===== src/GrpcClient/Methods.antt =====
-- grpcclient/client.go: the client, its constructor, and its calls of `Get`. The field of a request
-- without one, an EmptyRequest or an AppsRequest, is the empty text.
use lainlet.Base.{ℕ, Option, List, [], Text, nat_eq, text_eq, Result, ok, ◌>>=◌}
use lainlet.Base.{GoMap}
use lainlet.Watcher.Container.{Info}
use lainlet.Api.V2.Simple.{DependsItem, PodInfoForBackupctl}
use lainlet.Api.V2.Pods.{PodInfo, ContainerForProxy, ProcPod, PodInfoForRebellion}
use lainlet.Api.V2.Routers.{PodInfoForWebrouter}
use lainlet.Api.V2.Routers.Streams.{StreamProc}
use lainlet.Endpoints.Replies.{PbValue}
use lainlet.Endpoints.Lainlet.{VersionReply, StatusReply}
use lainlet.GrpcClient.{Rpc, Config, timeout_of, connect}

-- The generated clients of a connection. The services Appname and Localspec have no `watch`; theirs is
-- never used.
pub record Services : Type 0 where
  pub version : (timeout : ℕ) → Result VersionReply
  pub status : (timeout : ℕ) → Result StatusReply
  pub appname : Rpc (GoMap Text)
  pub localspec : Rpc (List Text)
  pub apps : Rpc (GoMap Text)
  pub backupctl : Rpc (GoMap (List PodInfoForBackupctl))
  pub config : Rpc (GoMap Text)
  pub containers : Rpc (GoMap Info)
  pub coreinfo : Rpc (GoMap (List PodInfo))
  pub nodes : Rpc (GoMap (GoMap (Option PbValue)))
  pub podgroup : Rpc (List (List ProcPod))
  pub proxy : Rpc (GoMap (List ContainerForProxy))
  pub rebellion_localprocs : Rpc (GoMap (List PodInfoForRebellion))
  pub streamrouter_ports : Rpc (List ℕ)
  pub streamrouter_streamprocs : Rpc (GoMap (List StreamProc))
  pub webrouter_webprocs : Rpc (GoMap (List PodInfoForWebrouter))
  pub depends : Rpc (GoMap (GoMap (GoMap DependsItem)))

-- Client
pub record Client : Type 0 where
  pub addr : Text
  pub timeout : ℕ
  pub services : Services

-- New; `services_of` is what the generated constructors make of a connection.
unfoldable pub new_client :
    {Creds Conn : Type 0}
    → (Text → Text → Result Creds)
    → (Text → Option Creds → Result Conn)
    → (Conn → Services)
    → Config
    → Result Client
unfolding timeout_of connect
new_client credentials_of dial services_of cfg = connect credentials_of dial cfg >>= (λ conn.
    ok (record { addr = cfg.addr; timeout = timeout_of cfg.timeout; services = services_of conn }))

module _ (cli : Client) where
  -- Version
  unfoldable pub version : Result VersionReply
  version = cli.services.version cli.timeout

  -- Status
  unfoldable pub status : Result StatusReply
  status = cli.services.status cli.timeout

  -- AppnameGet
  unfoldable pub appname_get : Text → Result (GoMap Text)
  appname_get ip = cli.services.appname.get cli.timeout ip

  -- LocalspecGet
  unfoldable pub localspec_get : Text → Result (List Text)
  localspec_get nodeip = cli.services.localspec.get cli.timeout nodeip

  -- AppsGet
  unfoldable pub apps_get : Result (GoMap Text)
  apps_get = cli.services.apps.get cli.timeout []

  -- BackupctlGet
  unfoldable pub backupctl_get : Text → Result (GoMap (List PodInfoForBackupctl))
  backupctl_get appname = cli.services.backupctl.get cli.timeout appname

  -- ConfigGet
  unfoldable pub config_get : Text → Result (GoMap Text)
  config_get target = cli.services.config.get cli.timeout target

  -- ContainersGet
  unfoldable pub containers_get : Text → Result (GoMap Info)
  containers_get nodename = cli.services.containers.get cli.timeout nodename

  -- CoreinfoGet
  unfoldable pub coreinfo_get : Text → Result (GoMap (List PodInfo))
  coreinfo_get appname = cli.services.coreinfo.get cli.timeout appname

  -- NodesGet
  unfoldable pub nodes_get : Text → Result (GoMap (GoMap (Option PbValue)))
  nodes_get name = cli.services.nodes.get cli.timeout name

  -- PodgroupGet
  unfoldable pub podgroup_get : Text → Result (List (List ProcPod))
  podgroup_get appname = cli.services.podgroup.get cli.timeout appname

  -- ProxyGet
  unfoldable pub proxy_get : Text → Result (GoMap (List ContainerForProxy))
  proxy_get appname = cli.services.proxy.get cli.timeout appname

  -- RebellionLocalprocsGet
  unfoldable pub rebellion_localprocs_get : Text → Result (GoMap (List PodInfoForRebellion))
  rebellion_localprocs_get appname = cli.services.rebellion_localprocs.get cli.timeout appname

  -- StreamrouterPortsGet
  unfoldable pub streamrouter_ports_get : Text → Result (List ℕ)
  streamrouter_ports_get appname = cli.services.streamrouter_ports.get cli.timeout appname

  -- StreamrouterStreamprocsGet
  unfoldable pub streamrouter_streamprocs_get : Text → Result (GoMap (List StreamProc))
  streamrouter_streamprocs_get appname =
      cli.services.streamrouter_streamprocs.get cli.timeout appname

  -- WebrouterWebprocsGet
  unfoldable pub webrouter_webprocs_get : Text → Result (GoMap (List PodInfoForWebrouter))
  webrouter_webprocs_get appname = cli.services.webrouter_webprocs.get cli.timeout appname

  -- DependsGet
  unfoldable pub depends_get : Text → Result (GoMap (GoMap (GoMap DependsItem)))
  depends_get target = cli.services.depends.get cli.timeout target
