-- ===== src/Base/Texts.antt =====
-- The functions of Go's `strings` package that the program calls, on byte lists.
use Prim.Native.Nat.{ℕ, suc}
use Prim.Native.Char.{code}
use Prim.Native.String.{String}
use mathlib.Core.Path.{◌≡◌, refl}
use mathlib.Core.Logic.{◌≢◌}
use mathlib.Core.Bool.{Bool, true, false, ◌&&◌}
use mathlib.Core.Option.{Option, none, some}
use mathlib.Core.List.{List, [], ◌∷◌, ◌++◌}
use native.Mathlib.Omega.{arith}
use lainlet.Base.Core.{if◌then◌else◌, Text, ◌==◌, nat_eq}
use lainlet.Base.Lists.{length, drop}

-- The bytes of an ASCII literal.
abbrev pub codes : String → Text
codes String.[] = []
codes (String.◌∷◌ c s) = code c ∷ codes s

-- strings.HasPrefix(s, p)
unfoldable pub has_prefix : Text → Text → Bool
has_prefix s [] = true
has_prefix [] (c ∷ p) = false
has_prefix (x ∷ s) (c ∷ p) = x == c && has_prefix s p

pub has_prefix-nil : (s : Text) → has_prefix s [] ≡ true
unfolding has_prefix
has_prefix-nil [] = refl
has_prefix-nil (x ∷ s) = refl

pub has_prefix-append : (p r : Text) → has_prefix (p ++ r) p ≡ true
unfolding has_prefix
has_prefix-append [] r = has_prefix-nil r
has_prefix-append (c ∷ p) r = ground (arith, has_prefix-append p r)

pub has_prefix_self : (p : Text) → has_prefix p p ≡ true
unfolding has_prefix
has_prefix_self [] = refl
has_prefix_self (c ∷ p) = ground (arith, has_prefix_self p)

-- What a text with a prefix looks like.
pub has_prefix-eq_append : (s p : Text) → has_prefix s p ≡ true → (r : Text) × (s ≡ p ++ r)
unfolding has_prefix
has_prefix-eq_append s [] h = (s, refl)
has_prefix-eq_append [] (c ∷ p) h = ([], cc)
has_prefix-eq_append (x ∷ s) (c ∷ p) h =
    let (r, e) = has_prefix-eq_append s p (ground arith) in (r, ground arith)

pub has_prefix_trans :
    (s p q : Text) → has_prefix s p ≡ true → has_prefix p q ≡ true → has_prefix s q ≡ true
unfolding has_prefix
has_prefix_trans s p [] h k = has_prefix-nil s
has_prefix_trans s [] (c ∷ q) h k = cc
has_prefix_trans [] (d ∷ p) (c ∷ q) h k = cc
has_prefix_trans (x ∷ s) (d ∷ p) (c ∷ q) h k = ground (arith, has_prefix_trans s p q)

-- A prefix put in front of both sides.
pub has_prefix-append_left : (a s p : Text) → has_prefix (a ++ s) (a ++ p) ≡ has_prefix s p
unfolding has_prefix
has_prefix-append_left [] s p = refl
has_prefix-append_left (x ∷ a) s p = ground (arith, has_prefix-append_left a s p)

-- strings.TrimPrefix(s, p)
unfoldable pub trim_prefix : Text → Text → Text
trim_prefix s p = if has_prefix s p then drop (length p) s else s

-- A byte put in front of the first part.
abbrev pub extend_first : ℕ → List Text → List Text
extend_first c [] = (c ∷ []) ∷ []
extend_first c (p ∷ ps) = (c ∷ p) ∷ ps

-- strings.Split(s, sep) at a one-byte separator
unfoldable pub split : Text → ℕ → List Text
split [] sep = [] ∷ []
split (c ∷ s) sep = let parts = split s sep in if c == sep then [] ∷ parts else extend_first c parts

-- strings.Join(parts, sep) at a one-byte separator
unfoldable pub join : List Text → ℕ → Text
join [] sep = []
join (p ∷ []) sep = p
join (p ∷ q ∷ ps) sep = p ++ (sep ∷ join (q ∷ ps) sep)

pub split-ne-nil : (s : Text) (sep : ℕ) → split s sep ≢ []
unfolding split
split-ne-nil [] sep = cc
split-ne-nil (c ∷ s) sep = ground (arith, split-ne-nil s sep)

join-extend_first :
    (c sep : ℕ) (ps : List Text) → ps ≢ [] → join (extend_first c ps) sep ≡ c ∷ join ps sep
unfolding join
join-extend_first c sep [] h = absurd (h refl)
join-extend_first c sep (p ∷ []) h = refl
join-extend_first c sep (p ∷ q ∷ ps) h = refl

join-nil_cons : (sep : ℕ) (ps : List Text) → ps ≢ [] → join ([] ∷ ps) sep ≡ sep ∷ join ps sep
unfolding join
join-nil_cons sep [] h = absurd (h refl)
join-nil_cons sep (p ∷ ps) h = refl

-- Joining the parts of a split gives the text back.
pub join-split : (s : Text) (sep : ℕ) → join (split s sep) sep ≡ s
unfolding split
join-split [] sep = unfold join in refl
join-split (c ∷ s) sep = ground (
  arith,
  join-split s sep,
  split-ne-nil s sep,
  join-extend_first c sep (split s sep) (split-ne-nil s sep),
  join-nil_cons sep (split s sep) (split-ne-nil s sep),
)

-- strings.LastIndexByte(s, c); `none` is -1
unfoldable pub last_index_byte : Text → ℕ → Option ℕ
last_index_byte [] c = none
last_index_byte (x ∷ s) c = elim (last_index_byte s c) [
  | some i ↦ some (suc i)
  | none ↦ if x == c then some 0 else none
]
