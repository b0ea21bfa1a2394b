-- ===== src/Api/Serve.antt =====
-- api/server.go: a request for an API, through the middlewares that `New` puts in front of the handler
-- which `Register` makes, one request after the other.
use lainlet.Base.{
  ℕ, suc, ◌+◌, ◌%◌, ◌^◌, ◌<◌, ◌≡◌, refl, ap, inl, inr, true, false, Option, none, some, List, [],
  ◌∷◌, map, arith, if◌then◌else◌, Text, ◌==◌, nat_eq, text_eq, Bool-cases, Result, ok, err, panic,
  ◌>>=◌, length, All, codes, has_prefix,
}
use lainlet.Watcher.Cacher.{Data}
use lainlet.Watcher.Sender.{Event}
use lainlet.Api.Keys.{Request, get_bool}
use lainlet.Api.Server.{Api, Message, End, handle_get, handle_watch}
use lainlet.Api.EventSource.{EventSource, Made, made, refused, crashed}
use lainlet.Api.Middleware.{
  Admission, answered, plain, queried, streamed, middle_ware_watch_event, middle_ware_debug,
  dropped,
}

-- What a request gets: a status code and a body, the end of its connection with no answer, the messages
-- of a stream and what its handler ended with, or what the handler of another route says.
pub data Reply : Type 0 where
  responded : ℕ → Text → Reply
  hung_up : Reply
  streams : List Message → End → Reply
  elsewhere : Reply

module _ {S V : Type 0} (api : Api S V) (s : S) (get : Text → Text → Result (Data V))
    (events : Result (List (Event V))) where
  -- The handler that Register makes, with the event source of the request. handleWatch writes to it at
  -- once, and the empty one has no connection.
  unfoldable pub api_handler : {C : Type 0} → Option (EventSource C) → Request → Result Reply
  api_handler none r =
      if get_bool r (codes "watch") false
      then panic
      else handle_get api s get r >>= (λ (code, body). ok (responded code body))
  api_handler (some es) r =
      if get_bool r (codes "watch") false
      then ok (streams (handle_watch api s get r events).0 (handle_watch api s get r events).1)
      else handle_get api s get r >>= (λ (code, body). ok (responded code body))

  -- The handler behind middleWareWatchEvent
  unfoldable pub admit : {C : Type 0} → Admission C → Request → Result Reply
  unfolding api_handler
  admit (answered code body) r = ok (responded code body)
  admit dropped r = ok hung_up
  admit plain r = ok elsewhere
  admit {C} queried r = api_handler {C = C} none r
  admit (streamed es tick) r = api_handler (some es) r
  admit Admission.panicked r = panic

-- How the handlers end, for middleWareDebug.
abbrev pub handled : Result Reply → Result (Unit {0})
handled (ok (streams messages End.panicked)) = panic
handled (ok _) = ok tt
handled (err m) = ok tt
handled panic = panic

-- How many of the handlers panicked.
abbrev pub panics : List (Result Reply) → ℕ
panics [] = 0
panics (reply ∷ replies) = elim (handled reply) [
  | panic ↦ suc (panics replies)
  | _ ↦ panics replies
]

debug-small :
    (h : Result (Unit {0})) (conns : ℕ) → conns < 2 ^ 32 → (middle_ware_debug h conns).1 < 2 ^ 32
unfolding middle_ware_debug
debug-small (ok x) conns h = omega arith
debug-small (err m) conns h = omega arith
debug-small panic conns h = omega arith

debug-counted :
    (h : Result (Unit {0})) (conns n : ℕ)
    → conns < 2 ^ 32
    → ((middle_ware_debug h conns).1 + n) % 2 ^ 32
      ≡ (conns + (elim h [ panic ↦ suc n | _ ↦ n ])) % 2 ^ 32
unfolding middle_ware_debug
debug-counted (ok x) conns n h = omega arith
debug-counted (err m) conns n h = omega arith
debug-counted panic conns n h = omega arith

counted-all :
    (reply : Result Reply) (conns : ℕ) (replies : List (Result Reply))
    {rest : List (Result Reply) × ℕ}
    → conns < 2 ^ 32
    → rest ≡ (replies, ((middle_ware_debug (handled reply) conns).1 + panics replies) % 2 ^ 32)
    → ◌≡◌ {A = List (Result Reply) × ℕ}
        (reply ∷ rest.0, rest.1)
        (reply ∷ replies, (conns + panics (reply ∷ replies)) % 2 ^ 32)
counted-all reply conns replies small e =
    rw (e, debug-counted (handled reply) conns (panics replies) small) refl

-- A request: its path, what NewEventSource makes on its writer, and its other parts.
pub record Call (C : Type 0) : Type 0 where
  pub path : Text
  pub new_source : Made C
  pub request : Request

module _ {S V C : Type 0} (api : Api S V) (s : S) (get : Text → Text → Result (Data V))
    (events : Result (List (Event V))) (methods_for : Text → List Text) where
  -- A request through the handlers of `New`
  unfoldable pub serve : Call C → Result Reply
  unfolding admit middle_ware_watch_event
  serve c =
      admit api s get events (middle_ware_watch_event methods_for c.new_source c.path c.request)
        c.request

  -- The requests one after the other: their replies, and the count of connections behind them.
  unfoldable pub serve_all : List (Call C) → ℕ → List (Result Reply) × ℕ
  unfolding serve middle_ware_debug
  serve_all [] conns = ([], conns)
  serve_all (c ∷ cs) conns =
      let reply = serve c in
      let (replies, conns') = serve_all cs (middle_ware_debug (handled reply) conns).1 in
      (reply ∷ replies, conns')

  -- What a request for an API gets.
  abbrev pub expected : Call C → Result Reply
  expected c =
      if get_bool c.request (codes "watch") false
      then (elim c.new_source [
        | made es ↦ ok (
            streams (handle_watch api s get c.request events).0
              (handle_watch api s get c.request events).1)
        | refused none m ↦ ok (responded 500 (codes "Fail to create event source"))
        | refused (some conn) m ↦ ok hung_up
        | crashed ↦ panic
      ])
      else handle_get api s get c.request >>= (λ (code, body). ok (responded code body))

  -- The path of an API, as Register makes it.
  abbrev pub IsApiPath : Call C → Type 0
  IsApiPath c =
      ((length (methods_for c.path) == 0) ≡ false) × (has_prefix c.path (codes "/v2/") ≡ true)

  serve-expected :
      (path : Text) (source : Made C) (r : Request)
      → let c : Call C = record { path = path; new_source = source; request = r } in
        IsApiPath c → serve c ≡ expected c
  unfolding serve admit middle_ware_watch_event api_handler
  serve-expected path (made es) r (there, v2) =
      elim (Bool-cases (get_bool r (codes "watch") false)) [
        | inl watching ↦ rw (there, v2, watching, watching) refl
        | inr query ↦ rw (there, v2, query, query) refl
      ]
  serve-expected path (refused none m) r (there, v2) =
      elim (Bool-cases (get_bool r (codes "watch") false)) [
        | inl watching ↦ rw (there, v2, watching) refl
        | inr query ↦ rw (there, v2, query, query) refl
      ]
  serve-expected path (refused (some conn) m) r (there, v2) =
      elim (Bool-cases (get_bool r (codes "watch") false)) [
        | inl watching ↦ rw (there, v2, watching) refl
        | inr query ↦ rw (there, v2, query, query) refl
      ]
  serve-expected path crashed r (there, v2) = elim (Bool-cases (get_bool r (codes "watch") false)) [
    | inl watching ↦ rw (there, v2, watching) refl
    | inr query ↦ rw (there, v2, query, query) refl
  ]

  -- Requests for the paths of an API, one after the other: one without `watch` gets what handleGet
  -- answers, one with it the messages of handleWatch over an event source that was made, never over the
  -- empty one; where the source is refused it gets status 500 if its connection cannot be hijacked, and
  -- the end of the connection without an answer otherwise. The count of connections, an int32, is higher
  -- than before by the number of requests whose handler or event source panicked.
  pub serve_all-expected :
      (cs : List (Call C)) (conns : ℕ)
      → conns < 2 ^ 32
      → All IsApiPath cs
      → serve_all cs conns ≡ (map expected cs, (conns + panics (map expected cs)) % 2 ^ 32)
  unfolding serve_all
  serve_all-expected [] conns small h = ap (λ n. ([], n)) (omega arith)
  serve_all-expected (c ∷ cs) conns small (h, hs) =
      let reply = serve-expected c.path c.new_source c.request h in
      rw reply (
        counted-all (expected c) conns (map expected cs) small (
          serve_all-expected cs (middle_ware_debug (handled (expected c)) conns).1
            (debug-small (handled (expected c)) conns small) hs))
