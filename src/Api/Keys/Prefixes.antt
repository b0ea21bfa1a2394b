-- ===== src/Api/Keys/Prefixes.antt =====
-- api/v2/utils.go: what the keys that `fixPrefix` closes select from a cache.
use lainlet.Base.{
  ℕ, ◌≡◌, refl, ◌≢◌, ◌↔◌, inl, inr, true, false, Option, none, some, List, [], ◌∷◌, ◌++◌, arith,
  if_false, Text, ◌==◌, nat_eq, text_eq, Option-cases, contains, has_prefix, split, has_prefix-nil,
  ℕ_discrete,
}
use lainlet.Base.{extend_first, split-ne-nil}
use lainlet.Store.{slash}
use lainlet.Api.Keys.{get_last?, fix_prefix}

get_last?-append : (s : Text) (c : ℕ) → get_last? (s ++ c ∷ []) ≡ some c
get_last?-append [] c = refl
get_last?-append (x ∷ []) c = refl
get_last?-append (x ∷ y ∷ s) c = get_last?-append (y ∷ s) c

-- Closing a name twice is closing it once.
pub fix_prefix_idem : (s : Text) → fix_prefix (fix_prefix s) ≡ fix_prefix s
unfolding fix_prefix
fix_prefix_idem s = ground (arith, get_last?-append s slash)

-- A name without a slash.
abbrev pub IsName : Text → Type 0
IsName s = (s ≢ []) × (contains slash s ≡ false)

get_last?-some : (s : Text) → s ≢ [] → get_last? s ≢ none
get_last?-some [] h = absurd (h refl)
get_last?-some (c ∷ []) h = cc
get_last?-some (c ∷ d ∷ s) h = get_last?-some (d ∷ s) cc

get_last?-name : (s : Text) → contains slash s ≡ false → get_last? s ≢ some slash
get_last?-name [] h = cc
get_last?-name (c ∷ []) h = ground arith
get_last?-name (c ∷ d ∷ s) h = get_last?-name (d ∷ s) (ground arith)

pub fix_prefix-name : (s : Text) → IsName s → fix_prefix s ≡ s ++ slash ∷ []
unfolding fix_prefix
fix_prefix-name s h = elim (Option-cases (get_last? s)) [
  | inl e ↦ absurd (get_last?-some s h.0 e)
  | inr (c, e) ↦
      rw (e, fix_prefix) (if_false (c == slash) _ _ (ground (arith, get_last?-name s h.1)))
]

-- The first part of a path, if another one follows.
abbrev pub head_part : List Text → Option Text
head_part [] = none
head_part (p ∷ []) = none
head_part (p ∷ q ∷ ps) = some p

head_part-nil_cons : (ps : List Text) → ps ≢ [] → head_part ([] ∷ ps) ≡ some []
head_part-nil_cons [] h = absurd (h refl)
head_part-nil_cons (p ∷ ps) h = refl

head_part-extend_first :
    (x c : ℕ) (s : Text) (ps : List Text)
    → (head_part (extend_first x ps) ≡ some (c ∷ s)) ↔ ((x ≡ c) × (head_part ps ≡ some s))
head_part-extend_first x c s [] = ((λ h. cc), (λ (e, h). cc))
head_part-extend_first x c s (p ∷ []) = ((λ h. cc), (λ (e, h). cc))
head_part-extend_first x c s (p ∷ q ∷ ps) = ((λ h. (cc, cc)), (λ (e, h). cc))

head_part-extend_first_nil : (x : ℕ) (ps : List Text) → head_part (extend_first x ps) ≢ some []
head_part-extend_first_nil x [] h = cc
head_part-extend_first_nil x (p ∷ []) h = cc
head_part-extend_first_nil x (p ∷ q ∷ ps) h = cc

pub has_prefix-head_part :
    (s key : Text)
    → contains slash s ≡ false
    → (has_prefix key (s ++ slash ∷ []) ≡ true) ↔ (head_part (split key slash) ≡ some s)
unfolding has_prefix split
has_prefix-head_part [] [] h = ground arith
has_prefix-head_part [] (x ∷ key) h = ground (
  arith,
  has_prefix-nil key,
  head_part-nil_cons (split key slash) (split-ne-nil key slash),
  head_part-extend_first_nil x (split key slash),
)
has_prefix-head_part (c ∷ s) [] h = ground arith
has_prefix-head_part (c ∷ s) (x ∷ key) h =
    let (f, g) = has_prefix-head_part s key (ground arith) in
    let (f', g') = head_part-extend_first x c s (split key slash) in
    let n = head_part-nil_cons (split key slash) (split-ne-nil key slash) in
    elim (ℕ_discrete x slash) [
      | yes e ↦ ((λ p. ground arith), (λ p. ground arith))
      | no e ↦ ((λ p. ground arith), (λ p. ground arith))
    ]

-- The key that closes a name, which is not empty and has no slash, is a prefix of exactly the paths
-- of which the name is the first part and another part follows.
pub fix_prefix-head_part :
    (s key : Text)
    → IsName s
    → (has_prefix key (fix_prefix s) ≡ true) ↔ (head_part (split key slash) ≡ some s)
fix_prefix-head_part s key h = rw (fix_prefix-name s h) (has_prefix-head_part s key h.1)
