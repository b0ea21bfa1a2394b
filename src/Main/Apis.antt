-- ===== src/Main/Apis.antt =====
-- main.go: the APIs that main registers with the HTTP server, in their order. `V` of an API is what its
-- Make asserts of the values that a watcher gives it.
use lainlet.Base.{ℕ, List, [], ◌∷◌, Text, Eq, nat_eq, text_eq, Result, ok, ◌>>=◌}
use lainlet.Base.{GoMap}
use lainlet.Watcher.Container.{Info}
use lainlet.Auth.{Auth}
use lainlet.Api.Server.{Api, route}
use lainlet.Api.V2.Simple.{DependsItem, PodInfoForBackupctl}
use lainlet.Api.V2.Pods.{PodInfo, ContainerForProxy, ProcPod, PodInfoForRebellion}
use lainlet.Api.V2.Routers.{PodInfoForWebrouter, Port}
use lainlet.Api.V2.Routers.Streams.{StreamProc}
use lainlet.Api.V2.Apis.{
  Encoder, apps_api, config_api, podgroup_api, coreinfo_api, nodes_api, containers_api, proxy_api,
  depends_api, webrouter_api, stream_api, ports_api, rebellion_api, backupctl_api, localspec_api,
}
use lainlet.Endpoints.Replies.{NodeValue}
use lainlet.Main.Watchers.{WatcherKind, Value}

-- An API with the package of the watcher whose values it asserts.
pub record Registered : Type 1 where
  pub kind : WatcherKind
  pub Instance : Type 0
  pub api : Api Instance (Value kind)

-- What the APIs use of other packages: json.Marshal on each of their data and json.Unmarshal on the
-- ports, os.Hostname, and reflect.DeepEqual on the fields of a node.
pub record Library : Type 0 where
  pub apps : Encoder (GoMap Text)
  pub config : Encoder (GoMap Text)
  pub podgroup : Encoder (List (List ProcPod))
  pub coreinfo : Encoder (GoMap (List PodInfo))
  pub nodes : Encoder (GoMap (GoMap NodeValue))
  pub containers : Encoder (GoMap Info)
  pub proxy : Encoder (GoMap (List ContainerForProxy))
  pub depends : Encoder (GoMap (GoMap (GoMap DependsItem)))
  pub webrouter : Encoder (GoMap (List PodInfoForWebrouter))
  pub stream : Encoder (GoMap (List StreamProc))
  pub ports : Encoder (List ℕ)
  pub rebellion : Encoder (GoMap (List PodInfoForRebellion))
  pub backupctl : Encoder (GoMap (List PodInfoForBackupctl))
  pub localspec : Encoder (List Text)
  pub ports_of : Text → List Port
  pub host_name : Text
  pub node_eq : Eq (GoMap NodeValue)

abbrev pub registered : {I : Type 0} (kind : WatcherKind) → Api I (Value kind) → Registered
registered kind api = record { kind = kind; Instance = _; api = api }

-- main, the calls of Register
unfoldable pub apis : Auth → Library → (ip : Text) → List Registered
apis a lib ip =
    registered WatcherKind.podgroup (apps_api a lib.apps)
    ∷ registered WatcherKind.config (config_api a lib.config)
    ∷ registered WatcherKind.podgroup (podgroup_api a lib.podgroup)
    ∷ registered WatcherKind.podgroup (coreinfo_api a lib.coreinfo)
    ∷ registered WatcherKind.nodes (nodes_api a ⦃e = lib.node_eq⦄ lib.nodes)
    ∷ registered WatcherKind.container (containers_api a lib.containers)
    ∷ registered WatcherKind.podgroup (proxy_api a lib.proxy)
    ∷ registered WatcherKind.depends (depends_api a lib.depends)
    ∷ registered WatcherKind.podgroup (webrouter_api a lib.webrouter)
    ∷ registered WatcherKind.podgroup (stream_api a lib.ports_of lib.stream)
    ∷ registered WatcherKind.podgroup (ports_api a lib.ports_of lib.ports)
    ∷ registered WatcherKind.podgroup (rebellion_api a lib.host_name lib.rebellion)
    ∷ registered WatcherKind.podgroup (backupctl_api a lib.backupctl)
    ∷ registered WatcherKind.container (localspec_api a ip lib.localspec)
    ∷ []

-- The routes that Register makes of the APIs; the first panic ends main.
unfoldable pub register_all : List Registered → Result (List Text)
register_all [] = ok []
register_all (r ∷ rs) =
    route r.api.uri >>= (λ path. register_all rs >>= (λ paths. ok (path ∷ paths)))
