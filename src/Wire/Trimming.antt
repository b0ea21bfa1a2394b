-- ===== src/Wire/Trimming.antt =====
-- client/client.go: what bytes.TrimSpace and bytes.SplitN make of a line of the form `key: value`.
use lainlet.Base.{
  ℕ, ◌≡◌, refl, sym, ap, ◌∙◌, ◌≢◌, false, some, [], ◌∷◌, ◌++◌, append_assoc, arith, Text, nat_eq,
  text_eq, contains, All, ℕ_discrete,
}
use lainlet.Wire.{
  newline, is_space, starts_space, trim_left, trim_left_from, trim_right, trim_space, split_field,
  Response, read_field, read_fields, read_line,
}
use lainlet.Wire.Decimal.{IsDigit}

-- A text without a space at its ends.
abbrev pub IsTrimmed : Text → Type 0
IsTrimmed s = (trim_left s ≡ s) × (trim_right s ≡ s)

-- No encoding of a space goes over a space of ASCII and further.
is_space-append : (a b : Text) → b ≢ [] → is_space (a ++ 32 ∷ b) ≡ false
unfolding is_space ℕ_discrete
is_space-append [] [] ne = absurd (ne refl)
is_space-append [] (x ∷ []) ne = refl
is_space-append [] (x ∷ y ∷ []) ne = refl
is_space-append [] (x ∷ y ∷ z ∷ b) ne = refl
is_space-append (c ∷ []) [] ne = absurd (ne refl)
is_space-append (c ∷ []) (x ∷ []) ne = ground arith
is_space-append (c ∷ []) (x ∷ y ∷ b) ne = refl
is_space-append (c ∷ d ∷ []) [] ne = absurd (ne refl)
is_space-append (c ∷ d ∷ []) (x ∷ b) ne = refl
is_space-append (c ∷ d ∷ e ∷ []) b ne = refl
is_space-append (c ∷ d ∷ e ∷ f ∷ a) b ne = refl

trim_right-append :
    (a b : Text) → b ≢ [] → trim_right b ≡ b → trim_right (a ++ 32 ∷ b) ≡ a ++ 32 ∷ b
unfolding trim_right
trim_right-append [] b ne h = rw (h, is_space-append [] b ne) refl
trim_right-append (c ∷ a) b ne h =
    rw (trim_right-append a b ne h, is_space-append (c ∷ a) b ne) refl

trim_left_spaced : (v : Text) → trim_left (32 ∷ v) ≡ trim_left v
unfolding trim_left trim_left_from starts_space is_space ℕ_discrete
trim_left_spaced v = refl

pub trim_space_spaced : (v : Text) → IsTrimmed v → trim_space (32 ∷ v) ≡ v
unfolding trim_space
trim_space_spaced v (left, right) = rw (trim_left_spaced, left, right) refl

trim_left_solid : (c : ℕ) (s : Text) → starts_space (c ∷ []) ≡ false → trim_left (c ∷ s) ≡ c ∷ s
unfolding trim_left trim_left_from
trim_left_solid c s h = rw h refl

split_field_key :
    (key value : Text)
    → contains b':' key ≡ false
    → split_field (key ++ b':' ∷ value) ≡ some (key, value)
unfolding split_field
split_field_key [] value h = ground arith
split_field_key (c ∷ key) value h = ground (arith, split_field_key key value)

digit_is_space : (c : ℕ) (s : Text) → IsDigit c → is_space (c ∷ s) ≡ false
unfolding is_space
digit_is_space c [] (lo, hi) = ground arith
digit_is_space c (d ∷ []) (lo, hi) = ground arith
digit_is_space c (d ∷ e ∷ []) (lo, hi) = ground arith
digit_is_space c (d ∷ e ∷ f ∷ s) (lo, hi) = refl

digit_starts_space : (c : ℕ) → IsDigit c → starts_space (c ∷ []) ≡ false
unfolding starts_space is_space
digit_starts_space c (lo, hi) = ground arith

digits_trim_right : (s : Text) → All IsDigit s → trim_right s ≡ s
unfolding trim_right
digits_trim_right [] h = refl
digits_trim_right (c ∷ s) (d, h) = rw (digits_trim_right s h, digit_is_space c s d) refl

-- A text of digits has no space and no newline.
pub digits-IsTrimmed : (s : Text) → All IsDigit s → IsTrimmed s
unfolding trim_left trim_left_from trim_right
digits-IsTrimmed [] h = (refl, refl)
digits-IsTrimmed (c ∷ s) (d, h) =
    (trim_left_solid c s (digit_starts_space c d), digits_trim_right (c ∷ s) (d, h))

pub digits_newline : (s : Text) → All IsDigit s → contains newline s ≡ false
digits_newline [] h = refl
digits_newline (c ∷ s) ((lo, hi), h) = ground (arith, digits_newline s h)

trim_space_line :
    (c : ℕ) (key value : Text)
    → starts_space (c ∷ []) ≡ false
    → value ≢ []
    → trim_right value ≡ value
    → trim_space ((c ∷ key) ++ b':' ∷ 32 ∷ value) ≡ (c ∷ key) ++ b':' ∷ 32 ∷ value
unfolding trim_space
trim_space_line c key value solid ne trimmed =
    ap trim_right (trim_left_solid c (key ++ b':' ∷ 32 ∷ value) solid)
    ∙ ap trim_right (sym (append_assoc (c ∷ key) (b':' ∷ []) (32 ∷ value)))
    ∙ trim_right-append ((c ∷ key) ++ b':' ∷ []) value ne trimmed
    ∙ append_assoc (c ∷ key) (b':' ∷ []) (32 ∷ value)

read_line_split :
    (resp : Response) (line trimmed : Text) (field : Text × Text)
    → trim_space line ≡ trimmed
    → split_field trimmed ≡ some field
    → read_line resp line ≡ read_field resp field
unfolding read_line read_fields
read_line_split resp line trimmed field h k =
    ap (λ x. read_fields resp (split_field x)) h ∙ ap (read_fields resp) k

-- A line `key: value` is read as these fields.
pub read_line-read_field :
    (resp : Response) (c : ℕ) (key value : Text)
    → starts_space (c ∷ []) ≡ false
    → contains b':' (c ∷ key) ≡ false
    → value ≢ []
    → trim_right value ≡ value
    → read_line resp ((c ∷ key) ++ b':' ∷ 32 ∷ value) ≡ read_field resp (c ∷ key, 32 ∷ value)
read_line-read_field resp c key value solid plain ne trimmed =
    read_line_split resp ((c ∷ key) ++ b':' ∷ 32 ∷ value) ((c ∷ key) ++ b':' ∷ 32 ∷ value)
      (c ∷ key, 32 ∷ value) (trim_space_line c key value solid ne trimmed)
      (split_field_key (c ∷ key) (32 ∷ value) plain)
