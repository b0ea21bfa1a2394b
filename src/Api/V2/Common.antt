-- ===== src/Api/V2/Common.antt =====
-- What the `Make` methods share: the loop over the data with its type assertion, indexing, and
-- reflect.DeepEqual on the maps that they build.
use lainlet.Base.{
  ℕ, ◌+◌, ◌≤◌, ◌≡◌, refl, sym, ◌↔◌, Bool, true, false, not, ◌&&◌, Option, none, some, List, [], ◌∷◌,
  arith, if◌then◌else◌, Text, Eq, ◌==◌, nat_eq, text_eq, is_some, Result, ok, panic, ◌>>=◌, length,
  get_elem?, any,
}
use lainlet.Base.{GoMap, lookup, delete, IsMap, lookup-delete, delete-IsMap}
use lainlet.Watcher.Cacher.{Data}

-- for key, item := range data { v := item.(V); … }; a nil item panics.
unfoldable pub for_items {ℓ} :
    {V : Type 0} {S : Type ℓ} → (Text → V → S → Result S) → Data V → S → Result S
for_items body [] s = ok s
for_items body ((k, none) ∷ m) s = panic
for_items body ((k, some v) ∷ m) s = body k v s >>= λ s'. for_items body m s'

-- xs[i], which panics out of range
abbrev pub index {ℓ} : {A : Type ℓ} → List A → ℕ → Result A
index xs i = elim (get_elem? xs i) [ some x ↦ ok x | none ↦ panic ]

-- for j, x := range xs { ys[j] = f(x, zs[j]) }, which panics where `zs` is the shorter one
unfoldable pub zip_index {ℓ} : {A B C : Type ℓ} → (A → B → C) → List A → List B → Result (List C)
zip_index f [] zs = ok []
zip_index f (x ∷ xs) [] = panic
zip_index f (x ∷ xs) (z ∷ zs) = zip_index f xs zs >>= λ ys. ok (f x z ∷ ys)

-- A loop that fills a slice and may panic.
unfoldable pub map_result {ℓ κ} :
    {A : Type ℓ} {B : Type κ} → (A → Result B) → List A → Result (List B)
map_result f [] = ok []
map_result f (x ∷ xs) = f x >>= λ y. map_result f xs >>= λ ys. ok (y ∷ ys)

module _ {V : Type 0} ⦃e : Eq V⦄ where
  -- Whether each entry of the first map stands in the second.
  unfoldable pub is_within : GoMap V → GoMap V → Bool
  is_within [] n = true
  is_within ((k, v) ∷ m) n = (elim (lookup k n) [ none ↦ false | some w ↦ v == w ]) && is_within m n

  -- reflect.DeepEqual on two maps, of which the first may be nil
  unfoldable pub deep_equal : Option (GoMap V) → GoMap V → Bool
  deep_equal none n = false
  deep_equal (some m) n = length m == length n && is_within m n

-- reflect.DeepEqual on two maps whose values are compared by `same`
unfoldable pub same_map : {V : Type 0} → (V → V → Bool) → GoMap V → GoMap V → Bool
same_map same m n =
    length m == length n
    && not (any (λ x. elim (lookup x.0 n) [ none ↦ true | some w ↦ not (same x.1 w) ]) m)

-- The data of a new instance and whether they differ from those of the old one.
abbrev pub changed_from : {V : Type 0} ⦃e : Eq V⦄ → Option (GoMap V) → GoMap V → GoMap V × Bool
changed_from old new = (new, not (deep_equal old new))

module _ {V : Type 0} ⦃e : Eq V⦄ where
  length-delete :
      (k : Text) (m : GoMap V)
      → IsMap m
      → length m ≡ length (delete k m) + (if is_some (lookup k m) then 1 else 0)
  unfolding delete lookup
  length-delete k [] h = refl
  length-delete k ((j, v) ∷ m) (h, hs) = ground (arith, length-delete k m hs)

  is_within-delete :
      (k : Text) (m n : GoMap V)
      → lookup k m ≡ none
      → is_within m n ≡ true
      → is_within m (delete k n) ≡ true
  unfolding is_within lookup
  is_within-delete k [] n h w = refl
  is_within-delete k ((j, v) ∷ m) n h w =
      ground (arith, is_within-delete k m n, lookup-delete k j n)

  is_within-lookup :
      (m n : GoMap V)
      → IsMap m
      → IsMap n
      → is_within m n ≡ true
      → length m ≡ length n
      → (j : Text) → lookup j m ≡ lookup j n
  unfolding is_within lookup
  is_within-lookup [] [] hm hn w l j = refl
  is_within-lookup [] (x ∷ n) hm hn w l j = absurd (omega arith)
  is_within-lookup ((k, v) ∷ m) n (hk, hm) hn w l j =
      let found : lookup k n ≡ some v = ground arith in
      let shorter : length m ≡ length (delete k n) = ground (arith, length-delete k n hn) in
      let same =
        is_within-lookup m (delete k n) hm (delete-IsMap k n hn)
          (is_within-delete k m n hk (ground arith)) shorter j in
      ground (arith, lookup-delete k j n)

  is_within_of_lookup :
      (m n : GoMap V)
      → IsMap m
      → ((j : Text) → is_some (lookup j m) ≡ true → lookup j m ≡ lookup j n)
      → is_within m n ≡ true
  unfolding is_within lookup
  is_within_of_lookup [] n h same = refl
  is_within_of_lookup ((k, v) ∷ m) n (hk, h) same =
      let found : lookup k n ≡ some v = ground (arith, same k) in
      let rest = is_within_of_lookup m n h (λ j p. ground (arith, same j)) in ground arith

  is_within-length :
      (m n : GoMap V) → IsMap m → IsMap n → is_within m n ≡ true → length m ≤ length n
  unfolding is_within
  is_within-length [] n hm hn w = omega arith
  is_within-length ((k, v) ∷ m) n (hk, hm) hn w =
      let found : lookup k n ≡ some v = ground arith in
      let rest =
        is_within-length m (delete k n) hm (delete-IsMap k n hn)
          (is_within-delete k m n hk (ground arith)) in
      ground (arith, length-delete k n hn)

  -- Two maps with distinct keys count as equal exactly if the same keys lead to the same values,
  -- whatever the order in which the maps were filled.
  pub deep_equal_iff :
      (m n : GoMap V)
      → IsMap m
      → IsMap n
      → (deep_equal (some m) n ≡ true) ↔ ((j : Text) → lookup j m ≡ lookup j n)
  unfolding deep_equal
  deep_equal_iff m n hm hn = (
    (λ h. is_within-lookup m n hm hn (ground arith) (ground arith)),
    (λ same.
        let there = is_within_of_lookup m n hm (λ j _. same j) in
        let back = is_within_of_lookup n m hn (λ j _. sym (same j)) in
        ground (arith, is_within-length m n hm hn there, is_within-length n m hn hm back)),
  )
