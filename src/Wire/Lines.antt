-- ===== src/Wire/Lines.antt =====
-- api/event.go and client/client.go: what the client makes of each kind of line of a message.
use lainlet.Base.{
  ℕ, ◌^◌, ◌<◌, ◌≡◌, refl, sym, ap, ◌∙◌, ◌≢◌, ◌⊎◌, inl, inr, true, false, ◌||◌, Option, none, some,
  List, [], ◌∷◌, ◌++◌, map, append_assoc, arith, ltb, if◌then◌else◌, if_false, Text, ◌==◌, nat_eq,
  text_eq, Text-discrete, Bool-cases, contains, All, codes, split, ℕ_discrete,
}
use lainlet.Base.{extend_first}
use lainlet.Wire.{
  newline, format, without_newlines, data_lines, trim_space, is_space, starts_space, split_field,
  read_fields, parse_int, Response, new_response, read_field, read_line, read_lines,
}
use lainlet.Wire.Decimal.{format_digits, format-ne-nil, parse_int-format}
use lainlet.Wire.Trimming.{IsTrimmed, digits-IsTrimmed, trim_space_spaced, read_line-read_field}

-- A line that TrimSpace leaves as it is, and that is not empty.
abbrev pub IsLine : Text → Type 0
IsLine s = (s ≢ []) × IsTrimmed s

pub split-line :
    (a b : Text)
    → contains newline a ≡ false
    → split (a ++ newline ∷ b) newline ≡ a ∷ split b newline
unfolding split
split-line [] b h = ground arith
split-line (c ∷ a) b h = ground (arith, split-line a b)

-- A text without a newline.
abbrev pub IsOneLine : Text → Type 0
IsOneLine s = contains newline s ≡ false

extend_first_parts :
    (c : ℕ) (ps : List Text)
    → (c == newline) ≡ false
    → All IsOneLine ps
    → All IsOneLine (extend_first c ps)
extend_first_parts c [] h all = (ground arith, tt)
extend_first_parts c (p ∷ ps) h (one, all) = (ground arith, all)

pub split_parts : (s : Text) → All IsOneLine (split s newline)
unfolding split
split_parts [] = (refl, tt)
split_parts (c ∷ s) = elim (Bool-cases (c == newline)) [
  | inl e ↦ rw e (refl, split_parts s)
  | inr ne ↦ rw ne (extend_first_parts c (split s newline) ne (split_parts s))
]

without_newlines_lem : (s : Text) → contains newline s ≡ false → without_newlines s ≡ s
unfolding without_newlines
without_newlines_lem [] h = refl
without_newlines_lem (c ∷ s) h = ground (arith, without_newlines_lem s)

-- The id that the client has for a printed one.
abbrev pub id_read : ℕ → ℕ → ℕ
id_read n old = if ltb n (2 ^ 63) then n else old

abbrev with_id : Response → Option ℕ → Response
with_id resp none = resp
with_id resp (some n) = record resp { id = n }

with_id-id_read :
    (resp : Response) (n : ℕ)
    → with_id resp (if ltb n (2 ^ 63) then some n else none)
      ≡ record resp { id = id_read n resp.id }
with_id-id_read resp n = elim (Bool-cases (ltb n (2 ^ 63))) [
  | inl small ↦ rw small refl
  | inr large ↦ rw large refl
]

pub read_id :
    (resp : Response) (n : ℕ)
    → n < 2 ^ 64
    → read_line resp (codes "id: " ++ format n) ≡ record resp { id = id_read n resp.id }
unfolding read_field starts_space is_space ℕ_discrete Text-discrete
read_id resp n fits =
    let trimmed = digits-IsTrimmed (format n) (format_digits n) in
    read_line-read_field resp b'i' (codes "d") (format n) refl refl (format-ne-nil n) trimmed.1
    ∙ ap (λ v. with_id resp (parse_int v)) (trim_space_spaced (format n) trimmed)
    ∙ ap (with_id resp) (parse_int-format n fits)
    ∙ with_id-id_read resp n

pub read_event :
    (resp : Response) (event : Text)
    → IsLine event
    → read_line resp (codes "event: " ++ event)
      ≡ record resp { event = event; finished = resp.finished || event == codes "heartbeat" }
unfolding read_field starts_space is_space ℕ_discrete Text-discrete
read_event resp event (ne, trimmed) =
    read_line-read_field resp b'e' (codes "vent") event refl refl ne trimmed.1
    ∙ ap (λ v. record resp { event = v; finished = resp.finished || v == codes "heartbeat" })
        (trim_space_spaced event trimmed)

read_data :
    (resp : Response) (line : Text)
    → IsLine line
    → read_line resp (codes "data: " ++ line) ≡ record resp { content = line; finished = true }
unfolding read_field starts_space is_space ℕ_discrete Text-discrete
read_data resp line (ne, trimmed) =
    read_line-read_field resp b'd' (codes "ata") line refl refl ne trimmed.1
    ∙ ap (λ v. record resp { content = v; finished = true }) (trim_space_spaced line trimmed)

pub read_lines_more :
    (resp r : Response) (line : Text) (lines : List Text)
    → read_line resp line ≡ r
    → r.finished ≡ false
    → read_lines resp (line ∷ lines) ≡ read_lines r lines
unfolding read_lines
read_lines_more resp r line lines e opened = rw (e, opened) refl

pub read_lines_done :
    (resp r : Response) (line : Text) (lines : List Text)
    → read_line resp line ≡ r
    → r.finished ≡ true
    → read_lines resp (line ∷ lines) ≡ r ∷ read_lines new_response lines
unfolding read_lines
read_lines_done resp r line lines e done = rw (e, done) refl

pub read_line-nil : (resp : Response) → read_line resp [] ≡ resp
unfolding read_line split_field trim_space read_fields
read_line-nil resp = refl

-- The empty line behind a message changes nothing.
pub read_blank :
    (resp : Response) (b : Text)
    → resp.finished ≡ false
    → read_lines resp (split (newline ∷ b) newline) ≡ read_lines resp (split b newline)
read_blank resp b opened =
    ap (read_lines resp) (split-line [] b refl)
    ∙ read_lines_more resp resp [] (split b newline) (read_line-nil resp) opened

-- The response to a data line that follows another one.
abbrev pub later_line : Text → Response
later_line line = record new_response { content = line; finished = true }

pub data_lines-append :
    (l : Text) (ls : List Text) (x : Text)
    → data_lines (l ∷ ls) ++ x ≡ (codes "data: " ++ l) ++ newline ∷ (data_lines ls ++ x)
unfolding data_lines
data_lines-append l ls x =
    ap (λ t. codes "data: " ++ t) (append_assoc l (newline ∷ data_lines ls) x)

pub read_data_lines :
    (resp : Response) (l : Text) (ls : List Text) (b : Text)
    → All IsLine (l ∷ ls)
    → All IsOneLine (l ∷ ls)
    → read_lines resp (split (data_lines (l ∷ ls) ++ newline ∷ b) newline)
      ≡ record resp { content = l; finished = true }
        ∷ (map later_line ls ++ read_lines new_response (split b newline))
unfolding data_lines ℕ_discrete
read_data_lines resp l [] b (h, _) (one, _) =
    ap (λ t. read_lines resp (split t newline)) (data_lines-append l [] (newline ∷ b))
    ∙ ap (read_lines resp) (split-line (codes "data: " ++ l) (newline ∷ b) one)
    ∙ read_lines_done resp _ (codes "data: " ++ l) _ (read_data resp l h) refl
    ∙ ap (λ rs. record resp { content = l; finished = true } ∷ rs) (read_blank new_response b refl)
read_data_lines resp l (k ∷ ls) b (h, hs) (one, ones) =
    ap (λ t. read_lines resp (split t newline)) (data_lines-append l (k ∷ ls) (newline ∷ b))
    ∙ ap (read_lines resp) (split-line (codes "data: " ++ l) _ one)
    ∙ read_lines_done resp _ (codes "data: " ++ l) _ (read_data resp l h) refl
    ∙ ap (λ rs. record resp { content = l; finished = true } ∷ rs)
        (read_data_lines new_response k ls b hs ones)

-- The event line, if there is one.
abbrev pub event_line : Text → Text
event_line event =
    if event == [] then [] else codes "event: " ++ (without_newlines event ++ newline ∷ [])

pub event_line-append :
    (event x : Text)
    → IsLine event
    → IsOneLine event
    → event_line event ++ x ≡ (codes "event: " ++ event) ++ newline ∷ x
unfolding Text-discrete
event_line-append event x line one =
    ap (λ t. t ++ x) (if_false (event == []) [] _ (ground (arith, line.0)))
    ∙ ap (λ t. codes "event: " ++ ((t ++ newline ∷ []) ++ x)) (without_newlines_lem event one)
    ∙ ap (λ t. codes "event: " ++ t) (append_assoc event (newline ∷ []) x)

pub read_event_line :
    (resp : Response) (event x : Text)
    → (event ≡ []) ⊎ IsLine event
    → IsOneLine event
    → event ≢ codes "heartbeat"
    → resp.event ≡ []
    → resp.finished ≡ false
    → read_lines resp (split (event_line event ++ x) newline)
      ≡ read_lines (record resp { event = event }) (split x newline)
unfolding Text-discrete
read_event_line resp event x (inl none_there) one other blank opened =
    ap (λ e. read_lines resp (split (event_line e ++ x) newline)) none_there
    ∙ ap (λ v. read_lines (record resp { event = v }) (split x newline)) (blank ∙ sym none_there)
read_event_line resp event x (inr line) one other blank opened =
    let unfinished : (resp.finished || event == codes "heartbeat") ≡ resp.finished =
      ground (arith, opened, other) in
    ap (λ t. read_lines resp (split t newline)) (event_line-append event x line one)
    ∙ ap (read_lines resp) (split-line (codes "event: " ++ event) x one)
    ∙ read_lines_more resp (record resp { event = event }) (codes "event: " ++ event)
        (split x newline)
        (read_event resp event line
          ∙ ap (λ b. record resp { event = event; finished = b }) unfinished)
        opened
