-- ===== src/Endpoints.antt =====
-- endpoints/: the gRPC services. All of them run the same generated `Get` and `Watch` over a `getKey`
-- and a `make` of their own, and share one cache of replies per service, from key to reply. Only one
-- handler is in `make` at a time here; the source locks nothing while it uses the cache.
pub mod Keys
pub mod Replies
pub mod Services
pub mod Sharing
pub mod SameKeys
pub mod Lainlet
use lainlet.Base.{
  ℕ, Bool, true, false, not, Option, none, some, List, [], ◌∷◌, ◌++◌, if◌then◌else◌, Text, Result,
  ok, err, panic, ◌>>=◌, codes,
}
use lainlet.Base.{GoMap, lookup, insert}
use lainlet.Store.{Action}
use lainlet.Watcher.Cacher.{Data}
use lainlet.Watcher.Sender.{Event}
use lainlet.Api.Server.{is_error}

-- What peer.FromContext returns: no peer, a peer without an address, or one with its address.
abbrev pub Peer : Type 0
Peer = Option (Option Text)

-- getRemoteAddr
unfoldable pub get_remote_addr : Peer → Result Text
get_remote_addr none = err (codes "failed to get peer from context")
get_remote_addr (some none) = err (codes "failed to get peer address")
get_remote_addr (some (some addr)) = ok addr

-- An endpoint over a watcher of `V` with replies in `R`; a request is its one string field. `render`
-- is the reply that `make` builds, `same` its reflect.DeepEqual; `is_cached` is false for the one
-- service whose `make` uses no cache.
pub record Endpoint (V R : Type 0) : Type 0 where
  pub get_key : Text → Peer → Result Text
  pub render : Data V → Result R
  pub same : R → R → Bool
  pub is_cached : Bool

-- What a turn of a stream comes to: a reply that was sent, none, an error that ends the stream, or a
-- panic.
pub data Turn (R : Type 0) : Type 0 where
  sent : R → Turn R
  unchanged : Turn R
  failed : Text → Turn R
  crashed : Turn R

-- What `Watch` has done: the replies that it sent, and how it ended.
pub record Served (R : Type 0) : Type 0 where
  pub cache : GoMap R
  pub replies : List R
  pub outcome : Result (Unit {0})

module _ {V R : Type 0} (ed : Endpoint V R) where
  -- What `make` does with the reply that it built: the cache, and whether the reply is a new one.
  unfoldable pub update_cache : GoMap R → Text → R → GoMap R × Bool
  update_cache cache key r = if not ed.is_cached then (cache, true) else elim (lookup key cache) [
    | none ↦ (insert key r cache, true)
    | some cached ↦ if ed.same cached r then (cache, false) else (insert key r cache, true)
  ]

  -- make
  unfoldable pub make_reply : GoMap R → Text → Data V → GoMap R × Result (R × Bool)
  unfolding update_cache
  make_reply cache key items = elim (ed.render items) [
    | panic ↦ (cache, panic)
    | err m ↦ (cache, err m)
    | ok r ↦ ((update_cache cache key r).0, ok (r, (update_cache cache key r).1))
  ]

  -- Get and make, for a key that is granted; `get` is the Get of the watcher.
  unfoldable pub first_reply : GoMap R → (Text → Result (Data V)) → Text → GoMap R × Result R
  unfolding make_reply
  first_reply cache get key = elim (get key) [
    | panic ↦ (cache, panic)
    | err m ↦ (cache, err m)
    | ok items ↦ ((make_reply cache key items).0, (make_reply cache key items).1 >>= (λ r. ok r.0))
  ]

  -- Get
  unfoldable pub get_reply : GoMap R → (Text → Result (Data V)) → Text → Peer → GoMap R × Result R
  unfolding first_reply
  get_reply cache get field peer = elim (ed.get_key field peer) [
    | panic ↦ (cache, panic)
    | err m ↦ (cache, err m)
    | ok key ↦ first_reply cache get key
  ]

  -- A turn of the loop of `Watch` for an event; `broken` is the error of stream.Send, if it is called
  -- and has one. The message of a store error is cut at the text that it prints of the event.
  unfoldable pub on_event : GoMap R → Text → Event V → Option Text → GoMap R × Turn R
  unfolding make_reply
  on_event cache key e broken =
      if is_error e.action then (cache, failed (codes "got an error from store")) else (
        (make_reply cache key e.content).0,
        elim (make_reply cache key e.content).1 [
          | panic ↦ crashed
          | err m ↦ failed m
          | ok (r, changed) ↦
              if not changed then unchanged else elim broken [ none ↦ sent r | some m ↦ failed m ]
        ],
      )

  -- The loop of `Watch` over the events until its channel is closed or its context is done.
  unfoldable pub watch_loop : GoMap R → Text → List (Event V × Option Text) → Served R
  unfolding on_event
  watch_loop cache key [] = record { cache = cache; replies = []; outcome = ok tt }
  watch_loop cache key ((e, broken) ∷ es) =
      let (cache', turn) = on_event cache key e broken in
      let rest = watch_loop cache' key es in
      elim turn [
        | sent r ↦ record rest { replies = r ∷ rest.replies }
        | unchanged ↦ rest
        | failed m ↦ record { cache = cache'; replies = []; outcome = err m }
        | crashed ↦ record { cache = cache'; replies = []; outcome = panic }
      ]

  -- Watch, of a stream that runs alone; `broken` is the error of its first stream.Send, and `events`
  -- what the Watch of the watcher returns.
  unfoldable pub watch_replies :
      GoMap R
      → (Text → Result (Data V))
      → Text
      → Peer
      → Option Text
      → Result (List (Event V × Option Text))
      → Served R
  unfolding first_reply watch_loop
  watch_replies cache get field peer broken events = elim (ed.get_key field peer) [
    | panic ↦ record { cache = cache; replies = []; outcome = panic }
    | err m ↦ record { cache = cache; replies = []; outcome = err m }
    | ok key ↦
        let (cache', first) = first_reply cache get key in
        elim first [
          | panic ↦ record { cache = cache'; replies = []; outcome = panic }
          | err m ↦ record { cache = cache'; replies = []; outcome = err m }
          | ok r ↦ elim broken [
            | some m ↦ record { cache = cache'; replies = []; outcome = err m }
            | none ↦ elim events [
              | panic ↦ record { cache = cache'; replies = r ∷ []; outcome = panic }
              | err m ↦ record {
                cache = cache';
                replies = r ∷ [];
                outcome = err (codes "Fail to watch " ++ (key ++ (codes ", " ++ m)));
              }
              | ok es ↦
                  let rest = watch_loop cache' key es in record rest { replies = r ∷ rest.replies }
            ]
          ]
        ]
  ]

-- What happens at an endpoint that streams share: a stream hears an event of its channel, or a `Get`
-- makes a reply.
pub data Call (V : Type 0) : Type 0 where
  hears : (stream : ℕ) → (key : Text) → Event V → Call V
  asks : (key : Text) → Data V → Call V

-- The replies with that of one more turn in front.
abbrev pub log : {R : Type 0} → ℕ → Turn R → List (ℕ × R) → List (ℕ × R)
log stream (sent r) replies = (stream, r) ∷ replies
log stream unchanged replies = replies
log stream (failed m) replies = replies
log stream crashed replies = replies

-- The calls one after the other, with the replies that streams are sent; every Send goes through.
unfoldable pub serve :
    {V R : Type 0} → Endpoint V R → GoMap R → List (Call V) → GoMap R × List (ℕ × R)
unfolding on_event make_reply
serve ed cache [] = (cache, [])
serve ed cache (asks key items ∷ calls) = serve ed (make_reply ed cache key items).0 calls
serve ed cache (hears stream key e ∷ calls) =
    let (cache', turn) = on_event ed cache key e none in
    let (last, replies) = serve ed cache' calls in (last, log stream turn replies)
