-- ===== src/Tests/Main.antt =====
-- Examples for main.go, for server/server.go, and for the middleware of api/server.go.
use lainlet.Base.{
  ℕ, ◌≡◌, refl, true, false, Option, none, some, List, [], ◌∷◌, Text, nat_eq, text_eq,
  Text-discrete, Result, ok, panic, codes, has_prefix, ℕ_discrete,
}
use lainlet.Base.{lookup, GoMap}
use lainlet.Store.{Backends}
use lainlet.Api.Keys.{Request, get_bool}
use lainlet.Api.EventSource.{crashed}
use lainlet.Api.Middleware.{
  middle_ware_watch_event, middle_ware_debug, heartbeat_tick, get_int, plain, queried, panicked,
}
use lainlet.Wire.{parse_int, parse_digits}
use lainlet.Endpoints.Replies.{NodeValue}
use lainlet.Main.Apis.{Library}
use lainlet.Main.Start.{Flags}

abbrev encode : {R : Type 0} → Option R → Result Text
encode none = ok (codes "null")
encode (some r) = ok (codes "{}")

unfoldable node-discrete : Discrete (GoMap NodeValue)
unfolding ℕ_discrete
node-discrete = hlevel ℕ_discrete

abbrev library : Library
library = record {
  apps = encode;
  config = encode;
  podgroup = encode;
  coreinfo = encode;
  nodes = encode;
  containers = encode;
  proxy = encode;
  depends = encode;
  webrouter = encode;
  stream = encode;
  ports = encode;
  rebellion = encode;
  backupctl = encode;
  localspec = encode;
  ports_of = λ annotation. [];
  host_name = codes "node1";
  node_eq = record { dec = node-discrete };
}

-- A store is the addresses of its etcd.
abbrev backends : Backends (List Text)
backends = (codes "etcd", (λ addrs. ok addrs)) ∷ []

abbrev flags : Flags
flags = record {
  web_addr = codes ":9001";
  etcd_addr = codes "a:4001,b:4001";
  ip = codes "10.0.0.1";
  debug = false;
  v = false;
  no_auth = false;
  grpc_tls = true;
  grpc_key_file = codes "key";
  grpc_cert_file = codes "cert";
  grpc_addr = codes ":9002";
}

abbrev request : Text → Text → Request
request watch heartbeat = record {
  remote_addr = codes "172.20.0.2:4000";
  form = (codes "watch", watch) ∷ (codes "heartbeat", heartbeat) ∷ [];
}

abbrev methods_for : Text → List Text
methods_for path = codes "GET" ∷ []

-- A heartbeat of 2^55 seconds, of which the tick is 0, and one whose tick is 512 nanoseconds.
tick_overflow :
    (heartbeat_tick (request [] (codes "36028797018963968")) ≡ some 0)
    × (heartbeat_tick (request [] (codes "20211507185753197")) ≡ some 512)
    × (heartbeat_tick (request [] (codes "5")) ≡ some 5000000000)
unfolding heartbeat_tick get_int parse_int parse_digits lookup Text-discrete ℕ_discrete
tick_overflow = (refl, refl, refl)

-- Without `watch` a request gets an empty event source, under another path none.
admissions :
    (middle_ware_watch_event {C = ℕ} methods_for crashed (codes "/v2/nodes") (request [] [])
      ≡ queried)
    × (middle_ware_watch_event {C = ℕ} methods_for crashed (codes "/debug") (request [] []) ≡ plain)
    × (middle_ware_watch_event {C = ℕ} methods_for crashed
          (codes "/v2/nodes")
          (request (codes "1") [])
        ≡ panicked)
unfolding middle_ware_watch_event get_bool has_prefix lookup Text-discrete ℕ_discrete
admissions = (refl, refl, refl)

-- A handler that panics stays counted.
panic_counted :
    (middle_ware_debug (ok tt) 3 ≡ (ok tt, 3)) × (middle_ware_debug panic 3 ≡ (panic, 4))
unfolding middle_ware_debug
panic_counted = (refl, refl)
