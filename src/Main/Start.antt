-- ===== src/Main/Start.antt =====
-- main.go: main, up to its wait for a signal. The backends of the stores and the other packages that
-- the APIs and services use are parameters; the goroutines that main starts are what it waits with.
use lainlet.Base.{
  ℕ, Bool, not, ◌&&◌, Option, none, some, List, [], ◌∷◌, ◌++◌, if◌then◌else◌, Text, ◌==◌, nat_eq,
  text_eq, Result, ok, err, panic, ◌>>=◌, codes, split,
}
use lainlet.Base.{GoMap}
use lainlet.Store.{Backends, new_store}
use lainlet.Auth.{Auth}
use lainlet.Auth.Convert.{init}
use lainlet.Api.Middleware.{Watchers, watchers_of}
use lainlet.Main.Watchers.{AnyWatcher, new_of, init_watchers}
use lainlet.Main.Apis.{Library, apis, register_all}
use lainlet.Main.Grpc.{GrpcServer, new_config, new_server}

-- The flags.
pub record Flags : Type 0 where
  pub web_addr : Text
  pub etcd_addr : Text
  pub ip : Text
  pub debug : Bool
  pub v : Bool
  pub no_auth : Bool
  pub grpc_tls : Bool
  pub grpc_key_file : Text
  pub grpc_cert_file : Text
  pub grpc_addr : Text

-- The HTTP server: the routes of its APIs, and the watchers of its context.
pub record HttpServer : Type 0 where
  pub addr : Text
  pub routes : List Text
  pub watchers : Watchers AnyWatcher

-- How main goes on: it prints the version and returns, it exits with a status, or it waits for a signal
-- beside its servers.
pub data Started : Type 0 where
  printed : Started
  exits : ℕ → Started
  waits : Auth → GoMap AnyWatcher → Option HttpServer → Option GrpcServer → Started

-- if err != nil { panic(err) }
unfoldable pub must : {A : Type 0} → Result A → Result A
must (ok x) = ok x
must (err m) = panic
must panic = panic

-- if webAddr != "" { … }
unfoldable pub start_http : Flags → Auth → Library → GoMap AnyWatcher → Result (Option HttpServer)
unfolding apis register_all watchers_of
start_http flags a lib ws =
    if flags.web_addr == []
    then ok none
    else register_all (apis a lib flags.ip) >>= (λ routes. ok (
        some (record {
          addr = flags.web_addr;
          routes = codes "/debug" ∷ codes "/version" ∷ (routes ++ codes "/appname" ∷ []);
          watchers = watchers_of ws;
        })))

-- if grpcAddr != "" { … }
unfoldable pub start_grpc : Flags → GoMap AnyWatcher → Result (Option GrpcServer)
unfolding must new_server new_config
start_grpc flags ws =
    let cfg = new_config flags.grpc_addr flags.grpc_key_file flags.grpc_cert_file in
    if flags.grpc_addr == []
    then ok none
    else must (new_server flags.grpc_addr flags.ip ws (if flags.grpc_tls then some cfg else none))
      >>= (λ srv. ok (some srv))

-- main
unfoldable pub main : {S : Type 0} → Backends S → Library → Flags → Result Started
unfolding must new_store init init_watchers new_of start_http start_grpc
main backends lib flags =
    if flags.v
    then ok printed
    else if flags.web_addr == [] && flags.grpc_addr == []
    then ok (exits 255)
    else if flags.etcd_addr == []
    then ok (exits 1)
    else must (new_store (codes "etcd") (split flags.etcd_addr b',') backends) >>= (λ st.
      let a = init flags.ip (not flags.no_auth) in
      must (init_watchers new_of) >>= (λ ws.
        start_http flags a lib ws
        >>= (λ http. start_grpc flags ws >>= (λ grpc. ok (waits a ws http grpc)))))
