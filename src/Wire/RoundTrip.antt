-- ===== src/Wire/RoundTrip.antt =====
-- api/event.go and client/client.go: what the client reads of the messages that the server writes.
use lainlet.Base.{
  ℕ, ◌^◌, ◌<◌, ◌≡◌, refl, sym, ap, ◌∙◌, ◌≢◌, ◌⊎◌, inl, inr, true, false, List, [], ◌∷◌, ◌++◌, map,
  append_assoc, arith, if◌then◌else◌, if_false, Text, ◌==◌, nat_eq, text_eq, Text-discrete, All,
  codes, split, ℕ_discrete,
}
use lainlet.Base.{split-ne-nil, List-cases}
use lainlet.Wire.{
  newline, is_space, starts_space, trim_left, trim_left_from, trim_right, format, data_lines,
  generate_message, Response, new_response, read_lines, watch_body,
}
use lainlet.Wire.Decimal.{format_digits}
use lainlet.Api.Server.{Message}
use lainlet.Wire.Trimming.{digits_newline}
use lainlet.Wire.Lines.{
  IsLine, split-line, IsOneLine, split_parts, id_read, read_id, read_lines_more, read_line-nil,
  later_line, read_data_lines, event_line-append, read_event, read_lines_done, read_blank,
  event_line, read_event_line,
}

-- A message whose event is one trimmed word or empty, and whose content has lines that are not empty and
-- have no space at their ends.
abbrev pub IsPlain : Message → Type 0
IsPlain m =
    (m.id < 2 ^ 64)
    × ((m.event ≡ []) ⊎ IsLine m.event)
    × IsOneLine m.event
    × (m.event ≢ codes "heartbeat")
    × All IsLine (split m.content newline)

-- The responses to a message: the first line of its content with the id and the event, and one more for
-- each further line.
abbrev pub responses_of : Message → List Text → List Response
responses_of m [] = []
responses_of m (l ∷ ls) =
    record { id = id_read m.id 0; event = m.event; content = l; finished = true }
    ∷ map later_line ls

-- The response to a heartbeat.
abbrev pub beat : ℕ → Response
beat id = record { id = id_read id 0; event = codes "heartbeat"; content = []; finished = true }

-- A message that `SendEvent` is given, with the responses to it.
pub data IsHeard : Message → List Response → Type 0 where
  plain : (m : Message) → IsPlain m → IsHeard m (responses_of m (split m.content newline))
  heartbeat :
      (id : ℕ)
      → id < 2 ^ 64
      → IsHeard (record { id = id; event = codes "heartbeat"; content = [] }) (beat id ∷ [])

-- The messages of a stream, with all responses to them.
pub data AreHeard : List Message → List Response → Type 0 where
  nothing : AreHeard [] []
  more :
      {m : Message} {ms : List Message} {rs rest : List Response}
      → IsHeard m rs
      → AreHeard ms rest
      → AreHeard (m ∷ ms) (rs ++ rest)

abbrev pub text_of : List Message → Text
text_of [] = []
text_of (m ∷ ms) = generate_message m.id m.event m.content ++ text_of ms

-- The data lines of a message, if there are any.
abbrev content_part : Text → Text
content_part content = if content == [] then [] else data_lines (split content newline)

generate_message-append :
    (id : ℕ) (event content b : Text)
    → generate_message id event content ++ b
      ≡ (codes "id: " ++ format id)
        ++ newline ∷ (event_line event ++ (content_part content ++ newline ∷ b))
unfolding generate_message
generate_message-append id event content b =
    let e = event_line event in
    let d = content_part content in
    ap (λ t. codes "id: " ++ t) (append_assoc (format id) (newline ∷ (e ++ (d ++ newline ∷ []))) b)
    ∙ ap (λ t. codes "id: " ++ (format id ++ newline ∷ t))
        (append_assoc e (d ++ newline ∷ []) b ∙ ap (λ t. e ++ t) (append_assoc d (newline ∷ []) b))

split-ne_blank :
    (content l : Text) (ls : List Text) → split content newline ≡ l ∷ ls → l ≢ [] → content ≢ []
unfolding split
split-ne_blank content l ls eq ne e = ne (cc (ap (λ t. split t newline) e, eq))

read_content :
    (resp : Response) (content b l : Text) (ls : List Text)
    → split content newline ≡ l ∷ ls
    → All IsLine (l ∷ ls)
    → All IsOneLine (l ∷ ls)
    → read_lines resp (split (content_part content ++ newline ∷ b) newline)
      ≡ record resp { content = l; finished = true }
        ∷ (map later_line ls ++ read_lines new_response (split b newline))
unfolding Text-discrete
read_content resp content b l ls eq h one =
    let full : (content == []) ≡ false = ground (arith, split-ne_blank content l ls eq h.0.0) in
    ap (λ t. read_lines resp (split (t ++ newline ∷ b) newline))
      (if_false (content == []) [] (data_lines (split content newline)) full ∙ ap data_lines eq)
    ∙ read_data_lines resp l ls b h one

format-IsOneLine : (n : ℕ) → IsOneLine (codes "id: " ++ format n)
unfolding ℕ_discrete
format-IsOneLine n = digits_newline (format n) (format_digits n)

read_message :
    (m : Message) (b l : Text) (ls : List Text)
    → split m.content newline ≡ l ∷ ls
    → IsPlain m
    → read_lines new_response (split (generate_message m.id m.event m.content ++ b) newline)
      ≡ record { id = id_read m.id 0; event = m.event; content = l; finished = true }
        ∷ (map later_line ls ++ read_lines new_response (split b newline))
read_message m b l ls eq (fits, named, one, other, lines) =
    let started : Response = record new_response { id = id_read m.id 0 } in
    ap (λ t. read_lines new_response (split t newline))
      (generate_message-append m.id m.event m.content b)
    ∙ ap (read_lines new_response)
        (split-line (codes "id: " ++ format m.id) _ (format-IsOneLine m.id))
    ∙ read_lines_more new_response started (codes "id: " ++ format m.id) _
        (read_id new_response m.id fits) refl
    ∙ read_event_line started m.event _ named one other refl refl
    ∙ read_content (record started { event = m.event }) m.content b l ls eq (rw eq at lines)
        (rw eq at (split_parts m.content))

-- A heartbeat, which has an event and no content.
read_beat :
    (id : ℕ) (b : Text)
    → id < 2 ^ 64
    → read_lines new_response (split (generate_message id (codes "heartbeat") [] ++ b) newline)
      ≡ beat id ∷ read_lines new_response (split b newline)
unfolding trim_left trim_left_from starts_space is_space trim_right ℕ_discrete Text-discrete
read_beat id b fits =
    let started : Response = record new_response { id = id_read id 0 } in
    let line : IsLine (codes "heartbeat") = ((λ e. cc), (refl, refl)) in
    ap (λ t. read_lines new_response (split t newline))
      (generate_message-append id (codes "heartbeat") [] b)
    ∙ ap (read_lines new_response) (split-line (codes "id: " ++ format id) _ (format-IsOneLine id))
    ∙ read_lines_more new_response started (codes "id: " ++ format id) _
        (read_id new_response id fits) refl
    ∙ ap (λ t. read_lines started (split t newline))
        (event_line-append (codes "heartbeat") (newline ∷ b) line refl)
    ∙ ap (read_lines started) (split-line (codes "event: heartbeat") (newline ∷ b) refl)
    ∙ read_lines_done started (beat id) (codes "event: heartbeat") _
        (read_event started (codes "heartbeat") line) refl
    ∙ ap (λ rs. beat id ∷ rs) (read_blank new_response b refl)

read_nothing : read_lines new_response (split [] newline) ≡ []
unfolding split read_lines
read_nothing = read_lines_more new_response new_response [] [] (read_line-nil new_response) refl

read_heard :
    {m : Message} {rs : List Response} (b : Text)
    → IsHeard m rs
    → read_lines new_response (split (generate_message m.id m.event m.content ++ b) newline)
      ≡ rs ++ read_lines new_response (split b newline)
read_heard b (heartbeat id fits) = read_beat id b fits
read_heard b (plain m h) = elim (List-cases (split m.content newline)) [
  | inl none_there ↦ absurd (split-ne-nil m.content newline none_there)
  | inr (l, ls, eq) ↦
      read_message m b l ls eq h
      ∙ ap (λ parts. responses_of m parts ++ read_lines new_response (split b newline)) (sym eq)
]

-- Whatever messages the server writes before the connection ends, each a heartbeat or with a content of
-- lines that are trimmed and not empty: the client sends, in the order of the messages, one response
-- for a heartbeat; for another message the first line of its content with its id and its event, and
-- then a response with no id and no event for each further line. An id that is no int64 is read as 0.
-- An event is empty or one trimmed line.
pub watch_body-text_of :
    (ms : List Message) (rs : List Response) → AreHeard ms rs → watch_body (text_of ms) ≡ rs
unfolding watch_body
watch_body-text_of ms rs nothing = read_nothing
watch_body-text_of (m ∷ ms) rs (more {rs = first} {rest = rest} h hs) =
    read_heard (text_of ms) h ∙ ap (λ x. first ++ x) (watch_body-text_of ms rest hs)
