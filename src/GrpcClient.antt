-- ===== src/GrpcClient.antt =====
-- grpcclient/client.go: the client of the gRPC services. The generated clients of the services and the
-- library gRPC are parameters; a request is its one string field. The numbers of seconds and
-- nanoseconds are int64, as bit patterns below 2 ^ 64.
pub mod Delivery
pub mod Served
pub mod Answers
pub mod Turns
pub mod Phases
pub mod Methods
pub mod Watches
use lainlet.Base.{
  ℕ, ◌*◌, ◌%◌, ◌^◌, ◌||◌, Option, none, some, List, [], ◌∷◌, ◌++◌, leb, if◌then◌else◌, Text, ◌==◌,
  nat_eq, text_eq, Result, ok, err, panic, ◌>>=◌, codes,
}

-- What Recv of a stream yields, one after the other: the replies, and then the error, if the stream
-- ends.
pub record Stream (R : Type 0) : Type 0 where
  pub replies : List R
  pub failure : Option Text

-- The generated client of a service, with `Get` under a timeout and `Watch`.
pub record Rpc (R : Type 0) : Type 0 where
  pub get : (timeout : ℕ) → Text → Result R
  pub watch : Text → Result (Stream R)

-- Config
pub record Config : Type 0 where
  pub addr : Text
  pub cert_file : Text
  pub server_name_override : Text
  pub timeout : ℕ

-- RPC_TIMEOUT
abbrev pub rpc_timeout : ℕ
rpc_timeout = 10

-- time.Second
abbrev pub second : ℕ
second = 10 ^ 9

-- The timeout of a client, from that of its configuration, of which a zero or a negative one means the
-- default.
unfoldable pub timeout_of : ℕ → ℕ
timeout_of t = if t == 0 || leb (2 ^ 63) t then rpc_timeout * second else (t * second) % 2 ^ 64

-- New, up to the connection: `credentials_of` reads a certificate, `dial` makes a connection, with
-- credentials or without.
unfoldable pub connect :
    {Creds Conn : Type 0}
    → (Text → Text → Result Creds)
    → (Text → Option Creds → Result Conn)
    → Config
    → Result Conn
connect credentials_of dial cfg =
    if cfg.cert_file == []
    then dial cfg.addr none
    else elim (credentials_of cfg.cert_file cfg.server_name_override) [
      | ok creds ↦ dial cfg.addr (some creds)
      | err m ↦ err (codes "Failed to create TLS credentials " ++ m)
      | panic ↦ panic
    ]

-- Where the goroutine of `Watch` stands: in Recv, at the channel with a reply, behind the error that it
-- has noted, or behind the end with its channel closed.
pub data Phase (R : Type 0) : Type 0 where
  receiving : Phase R
  offering : R → Phase R
  failing : Phase R
  stopped : Phase R

-- AppsWatcher and the other watchers, with the stream that the goroutine reads; the channel has no
-- buffer.
pub record Reader (R : Type 0) : Type 0 where
  pub phase : Phase R
  pub stream : Stream R
  pub error : Option Text

module _ {R : Type 0} where
  -- What Recv has, and the goroutine behind it; it waits while the stream has neither.
  unfoldable pub after_recv : Reader R → List R → Option Text → Reader R
  after_recv w (r ∷ rs) failure = record w {
    phase = offering r;
    stream = record { replies = rs; failure = failure };
  }
  after_recv w [] (some e) = record w { phase = failing; error = some e }
  after_recv w [] none = w

  -- A step of the goroutine, if it does not wait.
  unfoldable pub go_on : Phase R → Reader R → Reader R
  unfolding after_recv
  go_on receiving w = after_recv w w.stream.replies w.stream.failure
  go_on (offering r) w = w
  go_on failing w = record w { phase = stopped }
  go_on stopped w = w

  -- rpl := <- wch.ch, if it does not wait: a reply, or nil from the closed channel.
  unfoldable pub receive : Phase R → Reader R → Option (Option R × Reader R)
  receive receiving w = none
  receive (offering r) w = some (some r, record w { phase = receiving })
  receive failing w = none
  receive stopped w = some (none, w)

  -- What Next returns, when it has received and then reads the error.
  unfoldable pub next_result : Option R → Reader R → Option R × Option Text
  next_result rpl w = (rpl, w.error)

  -- Watch, with its goroutine before its first step
  unfoldable pub open_watch : Rpc R → Text → Result (Reader R)
  open_watch client field =
      client.watch field
      >>= (λ stream. ok (record { phase = receiving; stream = stream; error = none }))
