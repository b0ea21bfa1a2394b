-- ===== src/Api/Server/Stream.antt =====
-- api/server.go, api/event.go and client/client.go: a stream of changes from the watcher's events to
-- what the client of the stream holds, with heartbeats in between.
use lainlet.Base.{
  ◌^◌, ◌<◌, ◌≡◌, refl, sym, ap, ◌∙◌, ◌≢◌, inl, inr, Bool, true, false, not, Option, none, some,
  List, [], ◌∷◌, ◌++◌, map, append_assoc, append-nil, arith, if◌then◌else◌, Text, ◌==◌, nat_eq,
  text_eq, Text-discrete, Bool-cases, Result, ok, contains, All, codes, split, ℕ_discrete,
}
use mathlib.Core.Path.{subst}
use lainlet.Store.{Action, action_name}
use lainlet.Watcher.Cacher.{Data}
use lainlet.Watcher.Sender.{Event}
use lainlet.Api.Keys.{Request}
use lainlet.Api.Server.{Api, Message, is_error, watcher_names, watch_loop, handle_watch}
use lainlet.Api.Server.Watch.{view, last_content, init_watch-eq-ok, handle_watch-view}
use lainlet.Api.EventSource.{
  made, bytes, Op, sends, header_lines, write_header, new_event_source, close_source, close_notify,
  write_conn, send_event, apply, run,
}
use lainlet.Api.Middleware.{serve_stream}
use lainlet.Api.EventSource.Closing.{opened, written}
use lainlet.Wire.{
  newline, is_space, starts_space, trim_left, trim_left_from, trim_right, generate_message,
  Response, watch_body,
}
use lainlet.Wire.Lines.{IsLine, IsOneLine, id_read}
use lainlet.Wire.RoundTrip.{
  IsHeard, plain, heartbeat, AreHeard, nothing, more, text_of, responses_of, watch_body-text_of,
}

-- The event of a heartbeat.
abbrev pub beat_message : Message
beat_message = record { id = 0; event = codes "heartbeat"; content = [] }

-- What a handler and the heartbeat together send, in one of the orders in which they may.
pub data WithBeats : List Message → List Message → Type 0 where
  ended : WithBeats [] []
  beats : {ms sent : List Message} → WithBeats ms sent → WithBeats ms (beat_message ∷ sent)
  own : {m : Message} {ms sent : List Message} → WithBeats ms sent → WithBeats (m ∷ ms) (m ∷ sent)

-- What a client of the stream holds: the Data of the last response that is no heartbeat.
abbrev pub seen : Text → List Response → Text
seen content [] = content
seen content (r ∷ rs) = seen (if r.event == codes "heartbeat" then content else r.content) rs

-- A text that is sent as one line.
abbrev pub IsSentLine : Text → Type 0
IsSentLine s = IsLine s × IsOneLine s

abbrev IsFair : Message → Type 0
IsFair m =
    (m.id < 2 ^ 64) × IsSentLine m.event × (m.event ≢ codes "heartbeat") × IsSentLine m.content

action_name-IsSentLine :
    (a : Action) → IsSentLine (action_name a) × (action_name a ≢ codes "heartbeat")
unfolding action_name trim_left trim_left_from starts_space is_space trim_right Text-discrete
    ℕ_discrete
action_name-IsSentLine Action.get = ((((λ e. cc), (refl, refl)), refl), (λ e. cc))
action_name-IsSentLine Action.set = ((((λ e. cc), (refl, refl)), refl), (λ e. cc))
action_name-IsSentLine Action.update = ((((λ e. cc), (refl, refl)), refl), (λ e. cc))
action_name-IsSentLine Action.delete = ((((λ e. cc), (refl, refl)), refl), (λ e. cc))
action_name-IsSentLine Action.init = ((((λ e. cc), (refl, refl)), refl), (λ e. cc))
action_name-IsSentLine Action.error = ((((λ e. cc), (refl, refl)), refl), (λ e. cc))

split-one : (s : Text) → IsOneLine s → split s newline ≡ s ∷ []
unfolding split
split-one [] h = refl
split-one (c ∷ s) h = ground (arith, split-one s)

abbrev response_of : Message → Response
response_of m = record {
  id = id_read m.id 0;
  event = m.event;
  content = m.content;
  finished = true;
}

fair-IsHeard : (m : Message) → IsFair m → IsHeard m (response_of m ∷ [])
fair-IsHeard m (fits, (line, one), other, (text, single)) =
    let parts = split-one m.content single in
    subst (λ ls. IsHeard m (responses_of m ls)) parts
      (plain m (fits, inr line, one, other, rw parts (text, tt)))

beats-AreHeard :
    {ms sent : List Message}
    → WithBeats ms sent
    → All IsFair ms
    → AreHeard sent (map response_of sent)
beats-AreHeard ended h = nothing
beats-AreHeard (beats w) h = more (heartbeat 0 (ground arith)) (beats-AreHeard w h)
beats-AreHeard (own {m = m} w) (h, hs) = more (fair-IsHeard m h) (beats-AreHeard w hs)

seen-view :
    {ms sent : List Message} (content : Text)
    → WithBeats ms sent
    → All IsFair ms
    → seen content (map response_of sent) ≡ view content ms
unfolding Text-discrete ℕ_discrete
seen-view content ended h = refl
seen-view content (beats w) h = seen-view content w h
seen-view content (own {m = m} {sent = sent} w) (h, hs) =
    let named : (m.event == codes "heartbeat") ≡ false = ground (arith, h.2) in
    ap (λ b. seen (if b then content else m.content) (map response_of sent)) named
    ∙ seen-view m.content w hs

-- A connection that takes all that is written, and keeps it.
abbrev pub write_all : Text → Text → Text × Option Text
write_all sent text = (sent ++ text, none)

abbrev pub keep_open : Text → Text
keep_open sent = sent

-- The call of SendEvent for a message.
abbrev pub send : Message → Op
send m = sends m.id m.event (bytes m.content)

sends-text_of :
    (ms : List Message) (before : Text)
    → run write_all keep_open (map send ms) (opened before false)
      ≡ ok (opened (before ++ text_of ms) false)
unfolding run apply send_event write_conn
sends-text_of [] before = ap (λ t. ok (opened t false)) (sym (append-nil before))
sends-text_of (m ∷ ms) before =
    let text = generate_message m.id m.event m.content in
    sends-text_of ms (before ++ text)
    ∙ ap (λ t. ok (opened t false)) (append_assoc before text (text_of ms))

serve_stream-text_of :
    (ms : List Message) (before : Text)
    → serve_stream write_all keep_open (map send ms) (ok tt) (opened before false)
      ≡ ok (opened (before ++ text_of ms) true)
unfolding serve_stream close_source close_notify
serve_stream-text_of ms before = rw (sends-text_of ms before) refl

module _ {S V : Type 0} (api : Api S V) (render : Data V → S) (text : S → Text)
    (same : S → S → Bool) (same-text : (s t : S) → same s t ≡ true → text s ≡ text t)
    (IsGood : Data V → Type 0)
    (makes : (s : S) (d : Data V)
      → IsGood d
      → api.make s d ≡ ok (render d, not (same s (render d))))
    (encodes : (s : S) → api.encode s ≡ ok (text s)) (lines : (s : S) → IsSentLine (text s)) where
  watch_loop-IsFair :
      (d : Data V) (es : List (Event V))
      → All (λ e. is_error e.action ≡ false) es
      → All (λ e. IsGood e.content) es
      → All (λ e. e.id < 2 ^ 64) es
      → All IsFair (watch_loop api (render d) es).0
  unfolding watch_loop
  watch_loop-IsFair d [] h good k = tt
  watch_loop-IsFair d (e ∷ es) (h, hs) (g, gs) (k, ks) =
      let later = watch_loop-IsFair e.content es hs gs ks in
      let (named, other) = action_name-IsSentLine e.action in
      rw (h, makes (render d) e.content g, encodes (render e.content))
        (elim (Bool-cases (same (render d) (render e.content))) [
          | inl eq ↦ rw eq later
          | inr ne ↦ rw ne ((k, named, other, lines (render e.content)), later)
        ])

  handle_watch-IsFair :
      (s : S) (get : Text → Text → Result (Data V)) (r : Request) (key : Text) (d : Data V)
      (es : List (Event V))
      → api.is_ban_watcher ≡ false
      → api.key r ≡ ok key
      → contains api.watcher_name watcher_names ≡ true
      → get api.watcher_name key ≡ ok d
      → IsGood d
      → All (λ e. is_error e.action ≡ false) es
      → All (λ e. IsGood e.content) es
      → All (λ e. e.id < 2 ^ 64) es
      → All IsFair (handle_watch api s get r (ok es)).0
  unfolding handle_watch
  handle_watch-IsFair s get r key d es ban k known found good h goods ids =
      let (named, other) = action_name-IsSentLine Action.init in
      rw
        (
          handle_watch,
          init_watch-eq-ok api render text same same-text IsGood makes encodes s get r key d ban k
              known found good,
        )
        ((ground arith, named, other, lines (render d)), watch_loop-IsFair d es h goods ids)

  -- The whole way of a change, for an API as `handle_watch-view` has it whose encoding is one trimmed
  -- line that is not empty, and while the data are good, for a client that may watch a key, over a
  -- connection that takes all that is written: the event source is made, and whatever the order of the
  -- heartbeats among the messages of the handler, the connection has the header and the text of them
  -- all and then the source is closed; and what the client reads of that text leaves it with the
  -- encoding of the data of the last event, or of what Get returned if there is no event. The events
  -- have uint64 ids and none is an error.
  pub watch_client-view :
      (s : S) (get : Text → Text → Result (Data V)) (r : Request) (key : Text) (d : Data V)
      (es : List (Event V)) (sent : List Message)
      → api.is_ban_watcher ≡ false
      → api.key r ≡ ok key
      → contains api.watcher_name watcher_names ≡ true
      → get api.watcher_name key ≡ ok d
      → IsGood d
      → All (λ e. is_error e.action ≡ false) es
      → All (λ e. IsGood e.content) es
      → All (λ e. e.id < 2 ^ 64) es
      → WithBeats (handle_watch api s get r (ok es)).0 sent
      → let header = written write_all keep_open header_lines [] in
        (new_event_source write_all keep_open (some (ok [])) ≡ made (opened header false))
        × (serve_stream write_all keep_open (map send sent) (ok tt) (opened header false)
            ≡ ok (opened (header ++ text_of sent) true))
        × (seen [] (watch_body (text_of sent)) ≡ text (render (last_content d es)))
  unfolding new_event_source write_header
  watch_client-view s get r key d es sent ban k known found good h goods ids w =
      let fair = handle_watch-IsFair s get r key d es ban k known found good h goods ids in
      (
        refl,
        serve_stream-text_of sent _,
        ap (seen []) (watch_body-text_of sent _ (beats-AreHeard w fair))
            ∙ seen-view [] w fair
            ∙ (handle_watch-view api render text same same-text IsGood makes encodes s get r key d
                es ban k known found good h goods).0,
      )
