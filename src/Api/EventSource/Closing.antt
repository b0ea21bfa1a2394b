-- ===== src/Api/EventSource/Closing.antt =====
-- api/event.go: when an event source is closed, and when the goroutine that reads its connection ends
-- the process.
use lainlet.Base.{
  ◌≡◌, refl, inl, inr, Bool, true, false, ◌&&◌, ◌||◌, Option, none, some, List, [], ◌∷◌, arith,
  if◌then◌else◌, Text, nat_eq, text_eq, Option-cases, ok, err, panic, any,
}
use lainlet.Wire.{generate_message}
use lainlet.Api.EventSource.{
  EventSource, made, Payload, string, bytes, encoded, other, Op, sends, closes, ends, client_sends,
  header_lines, close_notify, close_source, write_header, new_event_source, write_conn, send_event,
  apply, run,
}

abbrev pub closing : Op → Bool
closing closes = true
closing ends = true
closing _ = false

abbrev pub content_of : Payload → Option Text
content_of (string s) = some s
content_of (bytes s) = some s
content_of (encoded (ok content)) = some content
content_of _ = none

abbrev pub encodes : Payload → Bool
encodes (encoded panic) = false
encodes _ = true

-- No Encode panics, and the client sends nothing until the source is closed.
abbrev pub lives : List Op → Bool → Bool
lives [] closed = true
lives (sends id event payload ∷ ops) closed = encodes payload && lives ops closed
lives (closes ∷ ops) closed = lives ops true
lives (ends ∷ ops) closed = lives ops true
lives (client_sends ∷ ops) closed = closed && lives ops closed

abbrev pub opened : {C : Type 0} → C → Bool → EventSource C
opened c closed = record { conn = some c; closed = closed; notified = closed }

module _ {C : Type 0} (write : C → Text → C × Option Text) (close : C → C) where
  -- The calls on a connection: each message in its place, and one Close.
  abbrev pub traffic : List Op → Bool → C → C
  traffic [] closed c = c
  traffic (sends id event payload ∷ ops) closed c = elim (content_of payload) [
    | none ↦ traffic ops closed c
    | some content ↦ traffic ops closed (write c (generate_message id event content)).0
  ]
  traffic (closes ∷ ops) closed c = traffic ops true (if closed then c else close c)
  traffic (ends ∷ ops) closed c = traffic ops true (if closed then c else close c)
  traffic (client_sends ∷ ops) closed c = traffic ops closed c

  abbrev pub written : List Text → C → C
  written [] c = c
  written (line ∷ lines) c = written lines (write c line).0

  run-opened :
      (ops : List Op) (closed : Bool) (c : C)
      → run write close ops (opened c closed) ≡ (
          if lives ops closed
          then ok (opened (traffic ops closed c) (closed || any closing ops))
          else panic)
  unfolding run apply send_event write_conn close_source close_notify
  run-opened [] closed c = ground (arith)
  run-opened (sends id event (string s) ∷ ops) closed c = run-opened ops closed _
  run-opened (sends id event (bytes s) ∷ ops) closed c = run-opened ops closed _
  run-opened (sends id event (encoded (ok s)) ∷ ops) closed c = run-opened ops closed _
  run-opened (sends id event (encoded (err m)) ∷ ops) closed c = run-opened ops closed _
  run-opened (sends id event (encoded panic) ∷ ops) closed c = refl
  run-opened (sends id event other ∷ ops) closed c = run-opened ops closed _
  run-opened (closes ∷ ops) true c = run-opened ops true c
  run-opened (closes ∷ ops) false c = run-opened ops true (close c)
  run-opened (ends ∷ ops) true c = run-opened ops true c
  run-opened (ends ∷ ops) false c = run-opened ops true (close c)
  run-opened (client_sends ∷ ops) true c = run-opened ops true c
  run-opened (client_sends ∷ ops) false c = refl

  made-opened :
      (lines : List Text) (c : C) {es : EventSource C}
      → write_header write close c lines ≡ made es
      → es ≡ opened (written lines c) false
  unfolding write_header
  made-opened [] c e = cc e
  made-opened (line ∷ lines) c {es} e = elim (Option-cases (write c line).1) [
    | inl done ↦ made-opened lines (write c line).0 (rw (done, write_header) at e)
    | inr (m, failure) ↦ cc (rw (failure, write_header) at e)
  ]

  -- After NewEventSource has made a source over a connection, whatever calls and reads follow in whatever
  -- order: if no Encode panics and the client sends nothing until the source is closed, then nothing
  -- panics, the connection gets the header lines, each message of SendEvent in its turn, and one Close,
  -- at the first call of Close, and in the end the source is closed and its channel too if and only if
  -- Close was called. Otherwise the run panics.
  pub run-new_event_source :
      (c : C) {es : EventSource C}
      → new_event_source write close (some (ok c)) ≡ made es
      → (ops : List Op)
      → run write close ops es ≡ (
          if lives ops false
          then ok (opened (traffic ops false (written header_lines c)) (any closing ops))
          else panic)
  unfolding new_event_source
  run-new_event_source c {es} e ops =
      rw (made-opened header_lines c e) (run-opened ops false (written header_lines c))
