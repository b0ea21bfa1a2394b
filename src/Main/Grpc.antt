-- ===== src/Main/Grpc.antt =====
-- server/server.go: the server of the gRPC services. What it listens with and reads a certificate with
-- are parameters.
use lainlet.Base.{
  ◌||◌, Option, none, some, List, [], ◌∷◌, ◌++◌, if◌then◌else◌, Text, ◌==◌, nat_eq, text_eq, Result,
  ok, err, panic, codes,
}
use lainlet.Base.{GoMap}
use lainlet.Auth.{Auth}
use lainlet.Api.V2.Routers.{Port}
use lainlet.Api.Middleware.{Watchers, watchers_of}
use lainlet.Endpoints.{Endpoint}
use lainlet.Endpoints.Services.{
  apps_endpoint, backupctl_endpoint, config_endpoint, containers_endpoint, coreinfo_endpoint,
  depends_endpoint, nodes_endpoint, podgroup_endpoint, proxy_endpoint, web_endpoint,
  rebellion_endpoint, localspec_endpoint, ports_endpoint, stream_endpoint,
}
use lainlet.Main.Watchers.{WatcherKind, Value, AnyWatcher}

-- server.Config
pub record TlsConfig : Type 0 where
  pub addr : Text
  pub key_file : Text
  pub cert_file : Text

-- NewConfig
unfoldable pub new_config : (addr key cert : Text) → TlsConfig
new_config addr key cert = record { addr = addr; key_file = key; cert_file = cert }

-- server.Server
pub record GrpcServer : Type 0 where
  pub addr : Text
  pub local_ip : Text
  pub cfg : Option TlsConfig
  pub all : GoMap AnyWatcher
  pub watchers : Watchers AnyWatcher

-- New, behind its test
unfoldable pub make_server : (addr ip : Text) → GoMap AnyWatcher → Option TlsConfig → GrpcServer
unfolding watchers_of
make_server addr ip ws cfg = record {
  addr = addr;
  local_ip = ip;
  cfg = cfg;
  all = ws;
  watchers = watchers_of ws;
}

-- New
unfoldable pub new_server :
    (addr ip : Text) → GoMap AnyWatcher → Option TlsConfig → Result GrpcServer
unfolding make_server
new_server addr ip ws none = ok (make_server addr ip ws none)
new_server addr ip ws (some cfg) =
    if cfg.key_file == [] || cfg.cert_file == []
    then err (codes "keyfile or certfile can't be empty when TLS is enabled.")
    else ok (make_server addr ip ws (some cfg))

-- Run, up to the registration: the credentials; an error is one of the two calls of log.Fatalf.
unfoldable pub run_server :
    {Creds : Type 0}
    → (listen : Text → Result (Unit {0})) → (credentials_of : Text → Text → Result Creds)
    → GrpcServer
    → Result (Option Creds)
run_server listen credentials_of srv = elim (listen srv.addr) [
  | panic ↦ panic
  | err m ↦ err (codes "failed to listen: " ++ m)
  | ok _ ↦ elim srv.cfg [
    | none ↦ ok none
    | some cfg ↦ elim (credentials_of cfg.cert_file cfg.key_file) [
      | panic ↦ panic
      | err m ↦ err (codes "Failed to generate credentials " ++ m)
      | ok creds ↦ ok (some creds)
    ]
  ]
]

-- A service over a watcher, with the package of the watcher whose values its `make` asserts.
pub record Service : Type 1 where
  pub kind : WatcherKind
  pub Reply : Type 0
  pub endpoint : Endpoint (Value kind) Reply
  pub watcher : Option AnyWatcher

abbrev pub service :
    {R : Type 0} (kind : WatcherKind) → Endpoint (Value kind) R → Option AnyWatcher → Service
service kind endpoint w = record { kind = kind; Reply = _; endpoint = endpoint; watcher = w }

-- Run, the registration of the services that are made over a watcher.
unfoldable pub services :
    Auth → (host_name : Text) → (ports_of : Text → List Port) → GrpcServer → List Service
services a host_name ports_of srv =
    service WatcherKind.podgroup (apps_endpoint a) srv.watchers.podgroup
    ∷ service WatcherKind.podgroup (backupctl_endpoint a) srv.watchers.podgroup
    ∷ service WatcherKind.config (config_endpoint a) srv.watchers.config
    ∷ service WatcherKind.container (containers_endpoint a) srv.watchers.container
    ∷ service WatcherKind.podgroup (coreinfo_endpoint a) srv.watchers.podgroup
    ∷ service WatcherKind.depends (depends_endpoint a) srv.watchers.depends
    ∷ service WatcherKind.container (localspec_endpoint a) srv.watchers.container
    ∷ service WatcherKind.nodes (nodes_endpoint a) srv.watchers.nodes
    ∷ service WatcherKind.podgroup (podgroup_endpoint a) srv.watchers.podgroup
    ∷ service WatcherKind.podgroup (proxy_endpoint a) srv.watchers.podgroup
    ∷ service WatcherKind.podgroup (rebellion_endpoint a host_name) srv.watchers.podgroup
    ∷ service WatcherKind.podgroup (ports_endpoint a ports_of) srv.watchers.podgroup
    ∷ service WatcherKind.podgroup (stream_endpoint a ports_of) srv.watchers.podgroup
    ∷ service WatcherKind.podgroup (web_endpoint a) srv.watchers.podgroup
    ∷ []
