-- ===== src/Api/EventSource.antt =====
-- api/event.go: the event source, which takes over the connection of a request, and its goroutine that
-- reads the connection. A connection is a parameter with its Write and Close; a Write answers with its
-- error.
pub mod Closing
use lainlet.Base.{
  ℕ, Bool, true, false, not, Option, none, some, List, [], ◌∷◌, ◌++◌, if◌then◌else◌, Text, Result,
  ok, err, panic, ◌>>=◌, codes,
}
use lainlet.Wire.{generate_message}

-- EventSource; `conn` is nil if the hijacking failed. `notified` says that closeNotify is closed.
pub record EventSource (C : Type 0) : Type 0 where
  pub conn : Option C
  pub closed : Bool
  pub notified : Bool

-- What NewEventSource comes to: the source, or an error with the connection that it leaves, or a panic.
pub data Made (C : Type 0) : Type 0 where
  made : EventSource C → Made C
  refused : Option C → Text → Made C
  crashed : Made C

-- The payload of SendEvent: a string, bytes, an EventData with what its Encode yields, or another type.
pub data Payload : Type 0 where
  string bytes : Text → Payload
  encoded : Result Text → Payload
  other : Payload

-- What may happen to a source: a call of SendEvent, by a handler or by the heartbeat, and a call of
-- Close, then what its goroutine reads: the end of the connection, which the client or a Close brings
-- about, or bytes that the client sends.
pub data Op : Type 0 where
  sends : ℕ → Text → Payload → Op
  closes : Op
  ends : Op
  client_sends : Op

-- The three writes of NewEventSource.
abbrev pub header_lines : List Text
header_lines =
    (codes "HTTP/1.1 200 OK" ++ 13 ∷ 10 ∷ codes "Content-Type: text/event-stream" ++ 13 ∷ 10 ∷ [])
    ∷ (codes "Vary: Accept-Encoding" ++ 13 ∷ 10 ∷ [])
    ∷ (13 ∷ 10 ∷ [])
    ∷ []

-- close(closeNotify), which panics on a closed channel
unfoldable pub close_notify : {C : Type 0} → EventSource C → Result (EventSource C)
close_notify es = if es.notified then panic else ok (record es { notified = true })

module _ {C : Type 0} (write : C → Text → C × Option Text) (close : C → C) where
  -- Close
  unfoldable pub close_source : EventSource C → Result (EventSource C)
  unfolding close_notify
  close_source es = if es.closed then ok es else elim es.conn [
    | none ↦ panic
    | some c ↦
        close_notify (record es { conn = some (close c) })
        >>= (λ es'. ok (record es' { closed = true }))
  ]

  -- The header lines, one after the other; an error of a Write closes the source.
  unfoldable pub write_header : C → List Text → Made C
  write_header c [] = made (record { conn = some c; closed = false; notified = false })
  write_header c (line ∷ more) =
      let (c', failure) = write c line in
      elim failure [ none ↦ write_header c' more | some m ↦ refused (some (close c')) m ]

  -- NewEventSource; `hijack` is none if the writer is not a Hijacker. The error of Hijack is not looked
  -- at, and then the connection is nil.
  unfoldable pub new_event_source : Option (Result C) → Made C
  unfolding write_header
  new_event_source none = refused none (codes "responseWriter do not support hijacker")
  new_event_source (some (ok c)) = write_header c header_lines
  new_event_source (some (err m)) = crashed
  new_event_source (some panic) = crashed

  -- es.conn.Write, whose error is not looked at
  unfoldable pub write_conn : EventSource C → Text → Result (EventSource C)
  write_conn es text = elim es.conn [
    | none ↦ panic
    | some c ↦ ok (record es { conn = some (write c text).0 })
  ]

  -- SendEvent: the source and the error that it returns.
  unfoldable pub send_event :
      EventSource C → ℕ → Text → Payload → Result (EventSource C × Option Text)
  unfolding write_conn
  send_event es id event (string s) =
      write_conn es (generate_message id event s) >>= (λ es'. ok (es', none))
  send_event es id event (bytes s) =
      write_conn es (generate_message id event s) >>= (λ es'. ok (es', none))
  send_event es id event (encoded (ok content)) =
      write_conn es (generate_message id event content) >>= (λ es'. ok (es', none))
  send_event es id event (encoded (err m)) = ok (es, some m)
  send_event es id event (encoded panic) = panic
  send_event es id event other = ok (es, none)

  -- io.Copy(nil, es.conn) and es.Close(), in the goroutine: bytes make Copy call the Write of nil. A
  -- panic of the goroutine ends the process. A closed connection yields no bytes.
  unfoldable pub apply : Op → EventSource C → Result (EventSource C)
  unfolding close_source send_event
  apply (sends id event payload) es = send_event es id event payload >>= (λ r. ok r.0)
  apply closes es = close_source es
  apply ends es = close_source es
  apply client_sends es = if es.closed then ok es else panic

  unfoldable pub run : List Op → EventSource C → Result (EventSource C)
  unfolding apply
  run [] es = ok es
  run (op ∷ ops) es = apply op es >>= run ops
