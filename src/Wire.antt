-- ===== src/Wire.antt =====
-- api/event.go and client/client.go: what `SendEvent` writes for an event, and what the client of an
-- event stream makes of the lines that it reads. The connection is a text here, the responses that the
-- client sends on its channel a list. An int64 is its bit pattern, a number below 2 ^ 64.
pub mod Decimal
pub mod Trimming
pub mod Lines
pub mod RoundTrip
use lainlet.Base.{
  ℕ, zero, suc, ◌+◌, ◌-◌, ◌*◌, ◌/◌, ◌%◌, ◌^◌, Bool, true, false, not, ◌&&◌, ◌||◌, Option, none,
  some, List, [], ◌∷◌, ◌++◌, ltb, leb, if◌then◌else◌, Text, ◌==◌, nat_eq, text_eq, keep, codes,
  split,
}

abbrev pub newline : ℕ
newline = 10

-- The loop that prints the decimal digits of a number in front of others. A uint64 has at most twenty.
unfoldable pub digits : (fuel : ℕ) → ℕ → Text → Text
digits zero n out = out
digits (suc fuel) n out =
    let longer = digits fuel (n / 10) ((b'0' + n % 10) ∷ out) in if n == 0 then out else longer

-- fmt's %d for a uint64
unfoldable pub format : ℕ → Text
unfolding digits
format n = if n == 0 then b'0' ∷ [] else digits 20 n []

-- strings.Replace(s, "\n", "", -1)
unfoldable pub without_newlines : Text → Text
without_newlines s = keep (λ c. not (c == newline)) s

-- The data lines of a message.
unfoldable pub data_lines : List Text → Text
data_lines [] = []
data_lines (line ∷ lines) = codes "data: " ++ (line ++ newline ∷ data_lines lines)

-- generateMessage
unfoldable pub generate_message : ℕ → Text → Text → Text
unfolding format without_newlines data_lines
generate_message id event content =
    codes "id: "
    ++ (format id
        ++ newline
          ∷ ((if event == []
                then []
                else codes "event: " ++ (without_newlines event ++ newline ∷ []))
              ++ ((if content == [] then [] else data_lines (split content newline))
                  ++ newline ∷ [])))

-- Whether a text is the UTF-8 encoding of one space, as unicode.IsSpace has it.
unfoldable pub is_space : Text → Bool
is_space [] = false
is_space (c ∷ []) = (leb 9 c && leb c 13) || c == 32
is_space (c ∷ d ∷ []) = c == 194 && (d == 133 || d == 160)
is_space (c ∷ d ∷ e ∷ []) =
    (c == 225 && (d == 154 && e == 128))
    || (c == 226
        && (d == 128 && ((leb 128 e && leb e 138) || (e == 168 || (e == 169 || e == 175)))))
    || (c == 226 && (d == 129 && e == 159))
    || (c == 227 && (d == 128 && e == 128))
is_space (c ∷ d ∷ e ∷ f ∷ s) = false

-- Whether a text is a space, or the first bytes of one.
unfoldable pub starts_space : Text → Bool
unfolding is_space
starts_space [] = true
starts_space (c ∷ []) = is_space (c ∷ []) || (c == 194 || (c == 225 || (c == 226 || c == 227)))
starts_space (c ∷ d ∷ []) =
    is_space (c ∷ d ∷ [])
    || (c == 225 && d == 154)
    || (c == 226 && (d == 128 || d == 129))
    || (c == 227 && d == 128)
starts_space (c ∷ d ∷ e ∷ s) = is_space (c ∷ d ∷ e ∷ s)

-- The text without the spaces at its front, where `seen` are the first bytes of what may be a space.
unfoldable pub trim_left_from : (seen : Text) → Text → Text
unfolding starts_space
trim_left_from seen [] = seen
trim_left_from seen (c ∷ s) =
    let next = seen ++ c ∷ [] in
    let rest = trim_left_from (if is_space next then [] else next) s in
    if starts_space next then rest else next ++ s

unfoldable pub trim_left : Text → Text
unfolding trim_left_from
trim_left s = trim_left_from [] s

unfoldable pub trim_right : Text → Text
unfolding is_space
trim_right [] = []
trim_right (c ∷ s) = let rest = trim_right s in if is_space (c ∷ rest) then [] else c ∷ rest

-- bytes.TrimSpace
unfoldable pub trim_space : Text → Text
unfolding trim_left trim_right
trim_space s = trim_right (trim_left s)

-- bytes.SplitN(s, ":", 2): the two fields, or none if there is only one.
unfoldable pub split_field : Text → Option (Text × Text)
split_field [] = none
split_field (c ∷ s) =
    let rest = split_field s in
    if c == b':'
    then some ([], s)
    else elim rest [ none ↦ none | some (key, value) ↦ some (c ∷ key, value) ]

-- Decimal digits, read behind a number.
unfoldable pub scan : Text → ℕ → Option ℕ
scan [] n = some n
scan (c ∷ s) n =
    let rest = scan s (n * 10 + (c - b'0')) in if leb b'0' c && leb c b'9' then rest else none

unfoldable pub parse_digits : Text → Option ℕ
unfolding scan
parse_digits [] = none
parse_digits (c ∷ s) = scan (c ∷ s) 0

-- A value that passes a test.
abbrev pub only_if : (ℕ → Bool) → Option ℕ → Option ℕ
only_if test none = none
only_if test (some n) = if test n then some n else none

-- strconv.ParseInt(s, 10, 64); `none` is an error.
unfoldable pub parse_int : Text → Option ℕ
unfolding parse_digits
parse_int [] = none
parse_int (c ∷ s) =
    if c == b'-'
    then (elim (only_if (λ n. leb n (2 ^ 63)) (parse_digits s)) [
      | some n ↦ some ((2 ^ 64 - n) % 2 ^ 64)
      | none ↦ none
    ])
    else only_if (λ n. ltb n (2 ^ 63)) (parse_digits (if c == b'+' then s else c ∷ s))

-- Response; `content` is its Data.
pub record Response : Type 0 where
  pub id : ℕ
  pub event : Text
  pub content : Text
  pub finished : Bool

abbrev pub new_response : Response
new_response = record { id = 0; event = []; content = []; finished = false }

-- The fields of a line: the switch of the loop in `Watch`.
unfoldable pub read_field : Response → Text × Text → Response
unfolding trim_space parse_int
read_field resp (key, value) =
    if trim_space key == codes "id"
    then (elim (parse_int (trim_space value)) [ some n ↦ record resp { id = n } | none ↦ resp ])
    else if trim_space key == codes "event"
    then record resp {
      event = trim_space value;
      finished = resp.finished || trim_space value == codes "heartbeat";
    }
    else if trim_space key == codes "data"
    then record resp { content = trim_space value; finished = true }
    else resp

-- An empty line, or one without a colon, is passed over.
unfoldable pub read_fields : Response → Option (Text × Text) → Response
unfolding read_field
read_fields resp none = resp
read_fields resp (some field) = read_field resp field

-- What a line makes of the response: the body of the loop in `Watch`.
unfoldable pub read_line : Response → Text → Response
unfolding split_field read_fields
read_line resp line = read_fields resp (split_field (trim_space line))

-- The loop of `Watch` over the lines; a response that is finished is sent, and a new one made.
unfoldable pub read_lines : Response → List Text → List Response
unfolding read_line
read_lines resp [] = []
read_lines resp (line ∷ lines) =
    let resp' = read_line resp line in
    let rest = read_lines (if resp'.finished then new_response else resp') lines in
    if resp'.finished then resp' ∷ rest else rest

-- Watch, over all that the connection yields before it is closed; a line without its newline counts if
-- it is not empty.
unfoldable pub watch_body : Text → List Response
unfolding read_lines
watch_body body = read_lines new_response (split body newline)
