-- ===== src/Wire/Decimal.antt =====
-- api/event.go and client/client.go: a printed number is read back.
use lainlet.Base.{
  ℕ, zero, suc, ◌+◌, ◌/◌, ◌%◌, ◌^◌, ◌≤◌, ◌<◌, ◌≡◌, refl, ap, ◌∙◌, ◌≢◌, ◌⊎◌, inl, inr, false, none,
  some, [], ◌∷◌, arith, ltb, if◌then◌else◌, if_false, Text, ◌==◌, nat_eq, text_eq, Bool-cases, All,
}
use lainlet.Base.{if_true}
use lainlet.Wire.{digits, format, scan, parse_digits, parse_int, only_if}

abbrev pub IsDigit : ℕ → Type 0
IsDigit c = (b'0' ≤ c) × (c ≤ b'9')

-- Printing with enough fuel and reading adds the digits in front of the rest.
scan-digits : (fuel n : ℕ) (out : Text) → n < 10 ^ fuel → scan (digits fuel n out) 0 ≡ scan out n
unfolding digits scan
scan-digits zero n out h = ground arith
scan-digits (suc fuel) n out h =
    let fits : n / 10 < 10 ^ fuel = omega arith in
    ground (arith, scan-digits fuel (n / 10) ((b'0' + n % 10) ∷ out) fits)

digits_fuel :
    (fuel fuel' n : ℕ) (out : Text)
    → n < 10 ^ fuel
    → n < 10 ^ fuel'
    → digits fuel n out ≡ digits fuel' n out
unfolding digits
digits_fuel zero zero n out h k = refl
digits_fuel zero (suc fuel') n out h k = ground arith
digits_fuel (suc fuel) zero n out h k = ground arith
digits_fuel (suc fuel) (suc fuel') n out h k =
    let fits : n / 10 < 10 ^ fuel = omega arith in
    let fits' : n / 10 < 10 ^ fuel' = omega arith in
    ap (λ rest. if n == 0 then out else rest)
      (digits_fuel fuel fuel' (n / 10) ((b'0' + n % 10) ∷ out) fits fits')

-- Twenty rounds are enough to print a uint64: with any other number of rounds that is enough for the
-- number, as many as it has digits or more, the digits are the same, as the loop ends at zero.
pub digits_enough :
    (fuel n : ℕ) (out : Text) → n < 2 ^ 64 → n < 10 ^ fuel → digits fuel n out ≡ digits 20 n out
digits_enough fuel n out h k = digits_fuel fuel 20 n out k (omega arith)

digits-IsDigit : (fuel n : ℕ) (out : Text) → All IsDigit out → All IsDigit (digits fuel n out)
unfolding digits
digits-IsDigit zero n out h = h
digits-IsDigit (suc fuel) n out h =
    let longer =
      digits-IsDigit fuel (n / 10) ((b'0' + n % 10) ∷ out) ((omega arith, omega arith), h) in
    elim (Bool-cases (n == 0)) [ inl e ↦ rw e h | inr ne ↦ rw ne longer ]

digits-ne-nil : (fuel n : ℕ) (out : Text) → out ≢ [] → digits fuel n out ≢ []
unfolding digits
digits-ne-nil zero n out h = h
digits-ne-nil (suc fuel) n out h = elim (Bool-cases (n == 0)) [
  | inl e ↦ rw e h
  | inr ne ↦ rw ne (digits-ne-nil fuel (n / 10) ((b'0' + n % 10) ∷ out) (λ e. cc))
]

format_cases :
    (n : ℕ) → ((format n ≡ b'0' ∷ []) × (n ≡ 0)) ⊎ ((format n ≡ digits 20 n []) × (n ≢ 0))
unfolding format
format_cases n = elim (Bool-cases (n == 0)) [
  | inl e ↦ inl (if_true (n == 0) (b'0' ∷ []) (digits 20 n []) e, ground arith)
  | inr ne ↦ inr (if_false (n == 0) (b'0' ∷ []) (digits 20 n []) ne, ground arith)
]

-- The print of a number is a text of digits.
pub format_digits : (n : ℕ) → All IsDigit (format n)
format_digits n = elim (format_cases n) [
  | inl (e, _) ↦ rw e ((omega arith, omega arith), tt)
  | inr (e, _) ↦ rw e (digits-IsDigit 20 n [] tt)
]

digits_positive : (fuel n : ℕ) (out : Text) → n ≢ 0 → digits (suc fuel) n out ≢ []
unfolding digits
digits_positive fuel n out ne =
    rw (if_false (n == 0) out (digits fuel (n / 10) ((b'0' + n % 10) ∷ out)) (ground (arith, ne)))
      (digits-ne-nil fuel (n / 10) ((b'0' + n % 10) ∷ out) (λ e. cc))

pub format-ne-nil : (n : ℕ) → format n ≢ []
format-ne-nil n = elim (format_cases n) [
  | inl (e, _) ↦ rw e (λ h. cc)
  | inr (e, ne) ↦ rw e (digits_positive 19 n [] ne)
]

scan-format : (n : ℕ) → n < 2 ^ 64 → scan (format n) 0 ≡ some n
unfolding scan
scan-format n fits = elim (format_cases n) [
  | inl (e, nought) ↦ rw (e, nought) refl
  | inr (e, _) ↦ rw e (scan-digits 20 n [] (omega arith))
]

parse_int_unsigned :
    (s : Text) → All IsDigit s → s ≢ [] → parse_int s ≡ only_if (λ n. ltb n (2 ^ 63)) (scan s 0)
unfolding parse_int parse_digits scan
parse_int_unsigned [] h ne = absurd (ne refl)
parse_int_unsigned (c ∷ s) ((lo, hi), h) ne =
    let minus : (c == b'-') ≡ false = ground arith in
    let plus : (c == b'+') ≡ false = ground arith in
    rw (if_false (c == b'-') _ _ minus, if_false (c == b'+') _ _ plus) refl

-- A printed uint64 is read back as an int64 if it is one, and refused otherwise.
pub parse_int-format :
    (n : ℕ) → n < 2 ^ 64 → parse_int (format n) ≡ (if ltb n (2 ^ 63) then some n else none)
parse_int-format n fits =
    parse_int_unsigned (format n) (format_digits n) (format-ne-nil n)
    ∙ ap (only_if (λ m. ltb m (2 ^ 63))) (scan-format n fits)
