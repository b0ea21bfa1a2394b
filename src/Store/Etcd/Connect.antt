-- ===== src/Store/Etcd/Connect.antt =====
-- store/etcd/etcd.go: the constructor of the backend. The constructor of the client library is a
-- parameter. Durations are numbers of nanoseconds.
use lainlet.Base.{
  ℕ, ◌*◌, ◌^◌, Option, none, some, List, [], Text, nat_eq, text_eq, Result, ok, err, panic, codes,
}
use lainlet.Store.{Backends, create_endpoints, register}

abbrev pub second : ℕ
second = 10 ^ 9

-- The fields of http.Transport and its Dialer that setTLS writes.
pub record Transport (Tls : Type 0) : Type 0 where
  pub timeout : ℕ
  pub keep_alive : ℕ
  pub handshake_timeout : ℕ
  pub tls : Tls

-- etcd.Config; a transport is the default one or one of setTLS.
pub record Config (Tls : Type 0) : Type 0 where
  pub endpoints : List Text
  pub transport : Option (Transport Tls)
  pub header_timeout : ℕ

-- New, the configuration
unfoldable pub config_of : {Tls : Type 0} → List Text → Config Tls
config_of addrs = record {
  endpoints = create_endpoints addrs (codes "http");
  transport = none;
  header_timeout = 3 * second;
}

-- New; it exits if the library refuses the configuration, which is `none`.
unfoldable pub new_etcd : {Tls C : Type 0} → (Config Tls → Result C) → List Text → Option (Result C)
unfolding config_of
new_etcd new addrs = elim (new (config_of addrs)) [
  | ok c ↦ some (ok c)
  | err m ↦ none
  | panic ↦ some panic
]

-- setTLS
unfoldable pub set_tls : {Tls : Type 0} → Config Tls → Tls → List Text → Config Tls
set_tls cfg tls addrs = record cfg {
  endpoints = create_endpoints addrs (codes "https");
  transport = some (record {
    timeout = 30 * second;
    keep_alive = 30 * second;
    handshake_timeout = 10 * second;
    tls = tls;
  });
}

-- init
unfoldable pub init : {S : Type 0} → (List Text → Result S) → Backends S
unfolding register
init new = register (codes "etcd") new []
