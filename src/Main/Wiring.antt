-- ===== src/Main/Wiring.antt =====
-- main.go, server/server.go and api/server.go: that the watchers which main makes reach the APIs and
-- services that assert their values.
use lainlet.Base.{
  ◌≡◌, Option, none, some, List, [], ◌∷◌, map, if◌then◌else◌, Text, ◌==◌, nat_eq, text_eq, ok,
  codes,
}
use lainlet.Base.{GoMap}
use lainlet.Auth.{Auth}
use lainlet.Api.Middleware.{watchers_of, watcher_of}
use lainlet.Main.Watchers.{WatcherKind, WatcherOf, AnyWatcher}
use lainlet.Main.Apis.{Registered}
use lainlet.Main.Start.{Flags, HttpServer}
use lainlet.Main.Grpc.{GrpcServer, Service, new_config, make_server}

-- The watcher that the switch on the name of an API yields is there, and of the package whose values
-- the API asserts.
abbrev pub ApiHasWatcher : GoMap AnyWatcher → Registered → Type 0
ApiHasWatcher ws r =
    (w : WatcherOf r.kind) × (watcher_of (watchers_of ws) r.api.watcher_name
      ≡ some (ok (r.kind, w)))

abbrev pub ServiceHasWatcher : Service → Type 0
ServiceHasWatcher s = (w : WatcherOf s.kind) × (s.watcher ≡ some (s.kind, w))

-- A map of watchers with one of each package, under its name.
abbrev pub HasAll : GoMap AnyWatcher → Type 0
HasAll ws =
    ((w : WatcherOf WatcherKind.config) × ((watchers_of ws).config ≡ some (WatcherKind.config, w)))
    × ((w : WatcherOf WatcherKind.container) × ((watchers_of ws).container
          ≡ some (WatcherKind.container, w)))
    × ((w : WatcherOf WatcherKind.podgroup) × ((watchers_of ws).podgroup
          ≡ some (WatcherKind.podgroup, w)))
    × ((w : WatcherOf WatcherKind.depends) × ((watchers_of ws).depends
          ≡ some (WatcherKind.depends, w)))
    × ((w : WatcherOf WatcherKind.nodes) × ((watchers_of ws).nodes ≡ some (WatcherKind.nodes, w)))

-- The routes, those of the APIs between the others.
abbrev pub all_routes : List Text
all_routes = map codes (
    "/debug" ∷ "/version" ∷ "/v2/appswatcher" ∷ "/v2/configwatcher" ∷ "/v2/procwatcher"
    ∷ "/v2/coreinfowatcher" ∷ "/v2/nodes" ∷ "/v2/containers" ∷ "/v2/proxywatcher" ∷ "/v2/depends"
    ∷ "/v2/webrouter/webprocs" ∷ "/v2/streamrouter/streamprocs" ∷ "/v2/streamrouter/ports"
    ∷ "/v2/rebellion/localprocs" ∷ "/v2/backupspec" ∷ "/v2/localspecquery" ∷ "/appname" ∷ [])

abbrev pub http_of : Flags → GoMap AnyWatcher → Option HttpServer
http_of flags ws =
    if flags.web_addr == []
    then none
    else some (record { addr = flags.web_addr; routes = all_routes; watchers = watchers_of ws })

abbrev pub grpc_server : Flags → GoMap AnyWatcher → GrpcServer
grpc_server flags ws = make_server flags.grpc_addr flags.ip ws (
    if flags.grpc_tls
    then some (new_config flags.grpc_addr flags.grpc_key_file flags.grpc_cert_file)
    else none)

abbrev pub grpc_of : Flags → GoMap AnyWatcher → Option GrpcServer
grpc_of flags ws = if flags.grpc_addr == [] then none else some (grpc_server flags ws)
