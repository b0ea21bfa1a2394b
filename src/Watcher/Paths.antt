-- ===== src/Watcher/Paths.antt =====
-- path.Join of Go's library, where its first element is a rooted path, and the keys that the
-- watchers cut out of the store's keys and build back with it.
use lainlet.Base.{
  ℕ, suc, ◌+◌, ◌≡◌, refl, sym, ap, ◌∙◌, ◌≢◌, false, ◌||◌, List, [], ◌∷◌, ◌++◌, append_assoc,
  append-nil, arith, ltb, if◌then◌else◌, Text, ◌==◌, nat_eq, text_eq, Result, ok, panic, length,
  drop, All, All-append, length-append, codes, split, join, join-split,
}
use lainlet.Base.{extend_first, split-ne-nil}
use lainlet.Store.{slash}

abbrev pub but_last : List Text → List Text
but_last [] = []
but_last (p ∷ []) = []
but_last (p ∷ q ∷ ps) = p ∷ but_last (q ∷ ps)

-- One step of path.Clean on a rooted path: the elements so far, and the next one.
unfoldable pub clean_step : List Text → Text → List Text
clean_step out part =
    if part == [] || part == codes "."
    then out
    else if part == codes ".."
    then but_last out
    else out ++ part ∷ []

unfoldable pub clean_parts : List Text → List Text → List Text
unfolding clean_step
clean_parts out [] = out
clean_parts out (part ∷ parts) = clean_parts (clean_step out part) parts

-- path.Clean on a rooted path
unfoldable pub clean : Text → Text
unfolding clean_parts
clean p = slash ∷ join (clean_parts [] (split p slash)) slash

-- path.Join(base, key) for a rooted base
unfoldable pub join_path : Text → Text → Text
unfolding clean
join_path base key = clean (if key == [] then base else base ++ slash ∷ key)

-- kv.Key[len(base)+1:], which panics if the key is shorter than that.
unfoldable pub key_below : Text → Text → Result Text
key_below base key =
    if ltb (length key) (length base + 1) then panic else ok (drop (length base + 1) key)

-- An element that path.Clean keeps.
abbrev pub IsPlain : Text → Type 0
IsPlain part = (part ≢ []) × (part ≢ codes ".") × (part ≢ codes "..")

-- A key whose elements are all kept.
abbrev pub IsClean : Text → Type 0
IsClean key = All IsPlain (split key slash)

clean_parts_plain :
    (out parts : List Text) → All IsPlain parts → clean_parts out parts ≡ out ++ parts
unfolding clean_parts
clean_parts_plain out [] h = sym (append-nil out)
clean_parts_plain out (part ∷ parts) (p, h) =
    let e : clean_step out part ≡ out ++ part ∷ [] = unfold clean_step in ground arith in
    rw e (clean_parts_plain (out ++ part ∷ []) parts h ∙ append_assoc out (part ∷ []) parts)

clean_parts-append :
    (out ps qs : List Text) → clean_parts out (ps ++ qs) ≡ clean_parts (clean_parts out ps) qs
unfolding clean_parts
clean_parts-append out [] qs = refl
clean_parts-append out (p ∷ ps) qs = clean_parts-append (clean_step out p) ps qs

extend_first-append :
    (c : ℕ) (ps qs : List Text) → ps ≢ [] → extend_first c ps ++ qs ≡ extend_first c (ps ++ qs)
extend_first-append c [] qs h = absurd (h refl)
extend_first-append c (p ∷ ps) qs h = refl

split-append_slash : (a b : Text) → split (a ++ slash ∷ b) slash ≡ split a slash ++ split b slash
unfolding split
split-append_slash [] b = ground arith
split-append_slash (c ∷ a) b = ground (
  arith,
  split-append_slash a b,
  split-ne-nil a slash,
  extend_first-append c (split a slash) (split b slash) (split-ne-nil a slash),
)

join-append :
    (ps qs : List Text)
    → ps ≢ []
    → qs ≢ []
    → join (ps ++ qs) slash ≡ join ps slash ++ slash ∷ join qs slash
unfolding join
join-append [] qs h k = absurd (h refl)
join-append (p ∷ []) [] h k = absurd (k refl)
join-append (p ∷ []) (q ∷ qs) h k = refl
join-append (p ∷ p' ∷ ps) qs h k = rw (join-append (p' ∷ ps) qs (λ e. cc) k, append_assoc)

-- A rooted key in the form that path.Clean leaves alone.
pub record IsRoot (base : Text) : Type 0 where
  pub parts : List Text
  pub nonempty : parts ≢ []
  pub plain : All IsPlain parts
  pub spelled : base ≡ slash ∷ join parts slash
  pub pieces : split base slash ≡ [] ∷ parts

clean_parts_root :
    (parts qs : List Text)
    → All IsPlain parts
    → All IsPlain qs
    → clean_parts [] ([] ∷ (parts ++ qs)) ≡ parts ++ qs
unfolding clean_parts clean_step
clean_parts_root parts qs h k =
    let e : clean_step [] [] ≡ [] = ground arith in
    rw (e, clean_parts) (clean_parts_plain [] (parts ++ qs) (All-append IsPlain parts qs h k))

IsClean-ne-nil : (key : Text) → IsClean key → key ≢ []
unfolding split
IsClean-ne-nil [] h = absurd (h.0.0 refl)
IsClean-ne-nil (c ∷ key) h = cc

clean_below :
    (base key : Text)
    → IsRoot base
    → IsClean key
    → clean (base ++ slash ∷ key) ≡ base ++ slash ∷ key
unfolding clean
clean_below base key root h = rw (
  split-append_slash base key,
  root.pieces,
  clean_parts_root root.parts (split key slash) root.plain h,
  join-append root.parts (split key slash) root.nonempty (split-ne-nil key slash),
  join-split key slash,
  root.spelled,
)

-- Below a clean root, joining a clean key appends it behind a slash.
pub join_path_clean :
    (base key : Text) → IsRoot base → IsClean key → join_path base key ≡ base ++ slash ∷ key
unfolding join_path
join_path_clean base key root h =
    let e : (if key == [] then base else base ++ slash ∷ key) ≡ base ++ slash ∷ key =
      ground (arith, IsClean-ne-nil key h) in
    ap clean e ∙ clean_below base key root h

drop-suc_length : (xs : Text) (c : ℕ) (ys : Text) → drop (length xs + 1) (xs ++ c ∷ ys) ≡ ys
drop-suc_length [] c ys = refl
drop-suc_length (x ∷ xs) c ys =
    let e : suc (length xs) + 1 ≡ suc (length xs + 1) = omega arith in
    rw e (drop-suc_length xs c ys)

-- Cutting the root off gives the key back.
pub key_below_lem : (base key : Text) → key_below base (base ++ slash ∷ key) ≡ ok key
unfolding key_below
key_below_lem base key =
    let fits : ltb (length (base ++ slash ∷ key)) (length base + 1) ≡ false =
      ground (arith, length-append base (slash ∷ key)) in
    rw fits (ap ok (drop-suc_length base slash key))
