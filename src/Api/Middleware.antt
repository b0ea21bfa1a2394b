-- ===== src/Api/Middleware.antt =====
-- api/server.go: what the middleware does with a request before its handler, and the two routes that
-- `New` makes. The router and the counters of the runtime are parameters.
use lainlet.Base.{
  ℕ, ◌+◌, ◌-◌, ◌*◌, ◌%◌, ◌^◌, false, not, ◌&&◌, Option, none, some, List, [], ◌∷◌, ltb,
  if◌then◌else◌, Text, ◌==◌, nat_eq, text_eq, Result, ok, panic, ◌>>=◌, length, codes, has_prefix,
}
use lainlet.Base.{GoMap, lookup}
use lainlet.Wire.{parse_int}
use lainlet.Watcher.Loop.{Status}
use lainlet.Api.Keys.{Request, form_value, get_bool}
use lainlet.Api.EventSource.{
  EventSource, Made, made, refused, crashed, Payload, string, Op, run, close_source,
}

-- GetInt, in the bit pattern of an int
unfoldable pub get_int : Request → Text → ℕ → ℕ
get_int r name value = elim (parse_int (form_value r name)) [ some i ↦ i | none ↦ value ]

-- The period of the ticker in nanoseconds, if the request asks for a heartbeat.
unfoldable pub heartbeat_tick : Request → Option ℕ
unfolding get_int
heartbeat_tick r =
    let heartbeat = get_int r (codes "heartbeat") 0 in
    if ltb 0 heartbeat && ltb heartbeat (2 ^ 63) then some ((heartbeat * 10 ^ 9) % 2 ^ 64) else none

-- What middleWareWatchEvent comes to: an answer of its own, the end of a connection that was hijacked, a
-- handler without an event source or with an empty one, a handler with a source and perhaps a heartbeat,
-- or a panic.
pub data Admission (C : Type 0) : Type 0 where
  answered : ℕ → Text → Admission C
  dropped : Admission C
  plain : Admission C
  queried : Admission C
  streamed : EventSource C → Option ℕ → Admission C
  panicked : Admission C

-- middleWareWatchEvent up to the handler. The answer of status 500 goes out only if the writer cannot be
-- hijacked: behind Hijack the writer sends nothing, and NewEventSource has closed the connection. `methods_for` is MethodsFor of the router, `new_source` is
-- NewEventSource on the writer of the request.
unfoldable pub middle_ware_watch_event :
    {C : Type 0}
    → (methods_for : Text → List Text) → (new_source : Made C) → (path : Text) → Request
    → Admission C
unfolding heartbeat_tick
middle_ware_watch_event methods_for new_source path r =
    if length (methods_for path) == 0
    then answered 404 (codes "404 not found")
    else if not (has_prefix path (codes "/v2/"))
    then plain
    else if not (get_bool r (codes "watch") false)
    then queried
    else elim new_source [
      | made es ↦ streamed es (heartbeat_tick r)
      | refused none m ↦ answered 500 (codes "Fail to create event source")
      | refused (some c) m ↦ dropped
      | crashed ↦ panicked
    ]

-- The tick of the goroutine of the heartbeat: what it calls SendEvent with.
abbrev pub heartbeat_event : ℕ × Text × Payload
heartbeat_event = (0, codes "heartbeat", string [])

-- The end of middleWareWatchEvent: the handlers run, with all that happens to the source meanwhile, and
-- then the source is closed; a panic of the handlers passes by the Close.
unfoldable pub serve_stream :
    {C : Type 0}
    → (C → Text → C × Option Text)
    → (C → C)
    → List Op
    → Result (Unit {0})
    → EventSource C
    → Result (EventSource C)
serve_stream write close ops panic es = run write close ops es
serve_stream write close ops handled es = run write close ops es >>= close_source write close

-- middleWareDebug: the outcome of the handlers, and the count of connections, an int32. A panic of a
-- handler passes by the second AddInt32.
unfoldable pub middle_ware_debug : Result (Unit {0}) → ℕ → Result (Unit {0}) × ℕ
middle_ware_debug panic conns = (panic, (conns + 1) % 2 ^ 32)
middle_ware_debug handled conns = (handled, ((conns + 1) % 2 ^ 32 + (2 ^ 32 - 1)) % 2 ^ 32)

-- What `/debug` answers with.
pub record Debug : Type 0 where
  pub goroutines : ℕ
  pub connections : ℕ
  pub watchers : GoMap (Status × ℕ × ℕ)

-- The five watchers that `New` takes out of a map; one that the map has not is nil.
pub record Watchers (W : Type 0) : Type 0 where
  pub config : Option W
  pub depends : Option W
  pub container : Option W
  pub podgroup : Option W
  pub nodes : Option W

-- New, the lookups
unfoldable pub watchers_of : {W : Type 0} → GoMap W → Watchers W
watchers_of m = record {
  config = lookup (codes "configwatcher") m;
  depends = lookup (codes "dependswatcher") m;
  container = lookup (codes "containerwatcher") m;
  podgroup = lookup (codes "podgroupwatcher") m;
  nodes = lookup (codes "nodeswatcher") m;
}

-- Status of a watcher that may be nil
unfoldable pub status_of : {W : Type 0} → (W → Status × ℕ × ℕ) → Option W → Result (Status × ℕ × ℕ)
status_of status none = panic
status_of status (some w) = ok (status w)

-- The handler of `/debug`, up to json.Marshal
unfoldable pub debug :
    {W : Type 0} → (W → Status × ℕ × ℕ) → (goroutines conns : ℕ) → Watchers W → Result Debug
unfolding status_of
debug status goroutines conns ws = status_of status ws.config >>= (λ config.
    status_of status ws.depends >>= (λ depends. status_of status ws.container >>= (λ container.
      status_of status ws.podgroup >>= (λ podgroup. status_of status ws.nodes >>= (λ nodes.
        ok (record {
          goroutines = goroutines;
          connections = conns;
          watchers =
              (codes "config", config)
              ∷ (codes "depends", depends)
              ∷ (codes "container", container)
              ∷ (codes "podgroup", podgroup)
              ∷ (codes "nodes", nodes)
              ∷ [];
        }))))))

abbrev pub asserted : {W : Type 0} → Option W → Result W
asserted none = panic
asserted (some w) = ok w

-- The value of the context for the name of a watcher, in the switches of handleGet and handleWatch. A
-- nil watcher fails the type assertion.
unfoldable pub watcher_of : {W : Type 0} → Watchers W → Text → Option (Result W)
watcher_of ws name =
    if name == codes "config"
    then some (asserted ws.config)
    else if name == codes "container"
    then some (asserted ws.container)
    else if name == codes "podgroup"
    then some (asserted ws.podgroup)
    else if name == codes "depends"
    then some (asserted ws.depends)
    else if name == codes "nodes"
    then some (asserted ws.nodes)
    else none
