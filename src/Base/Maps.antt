-- ===== src/Base/Maps.antt =====
-- Go maps with string keys: an association list, whose order is the order in which `range` visits
-- the entries. Go leaves that order open; the theorems hold for every order.
use mathlib.Core.Path.{◌≡◌, refl}
use mathlib.Core.Bool.{Bool, true, false}
use mathlib.Core.Option.{Option, none, some}
use mathlib.Core.List.{List, [], ◌∷◌}
use native.Mathlib.Omega.{arith}
use lainlet.Base.Core.{if◌then◌else◌, Text, ◌==◌, text_eq}
use lainlet.Base.Lists.{contains}

abbrev pub GoMap {ℓ} : Type ℓ → Type ℓ
GoMap V = List (Text × V)

module _ {ℓ} {V : Type ℓ} where
  -- v, ok := m[k]
  unfoldable pub lookup : Text → GoMap V → Option V
  lookup k [] = none
  lookup k ((j, v) ∷ m) = if j == k then some v else lookup k m

  -- m[k] = v
  unfoldable pub insert : Text → V → GoMap V → GoMap V
  insert k v [] = (k, v) ∷ []
  insert k v ((j, w) ∷ m) = if j == k then (k, v) ∷ m else (j, w) ∷ insert k v m

  -- delete(m, k)
  unfoldable pub delete : Text → GoMap V → GoMap V
  delete k [] = []
  delete k ((j, w) ∷ m) = let rest = delete k m in if j == k then rest else (j, w) ∷ rest

  -- The keys in the order of `range`.
  abbrev pub keys : GoMap V → List Text
  keys [] = []
  keys ((k, v) ∷ m) = k ∷ keys m

  -- The entries whose key passes a test.
  unfoldable pub keep_keys : (Text → Bool) → GoMap V → GoMap V
  keep_keys p [] = []
  keep_keys p ((k, v) ∷ m) = let rest = keep_keys p m in if p k then (k, v) ∷ rest else rest

  -- No key stands twice, as in every Go map.
  abbrev pub IsMap : GoMap V → Type ℓ
  IsMap [] = Unit
  IsMap ((k, v) ∷ m) = (lookup k m ≡ none) × IsMap m

module _ {ℓ} {V : Type ℓ} where
  pub lookup-insert :
      (k j : Text) (v : V) (m : GoMap V)
      → lookup j (insert k v m) ≡ (if k == j then some v else lookup j m)
  unfolding lookup insert
  lookup-insert k j v [] = ground arith
  lookup-insert k j v ((i, w) ∷ m) = ground (arith, lookup-insert k j v m)

  pub lookup-delete :
      (k j : Text) (m : GoMap V) → lookup j (delete k m) ≡ (if k == j then none else lookup j m)
  unfolding lookup delete
  lookup-delete k j [] = ground arith
  lookup-delete k j ((i, w) ∷ m) = ground (arith, lookup-delete k j m)

  pub lookup-keep_keys :
      (p : Text → Bool) (j : Text) (m : GoMap V)
      → lookup j (keep_keys p m) ≡ (if p j then lookup j m else none)
  unfolding lookup keep_keys
  lookup-keep_keys p j [] = ground arith
  lookup-keep_keys p j ((i, w) ∷ m) = ground (arith, lookup-keep_keys p j m)

  pub insert-IsMap : (k : Text) (v : V) (m : GoMap V) → IsMap m → IsMap (insert k v m)
  unfolding insert
  insert-IsMap k v [] h = unfold lookup in (refl, tt)
  insert-IsMap k v ((j, w) ∷ m) (h, hs) =
      ground (arith, insert-IsMap k v m hs, lookup-insert k j v m)

  pub delete-IsMap : (k : Text) (m : GoMap V) → IsMap m → IsMap (delete k m)
  unfolding delete
  delete-IsMap k [] h = tt
  delete-IsMap k ((j, w) ∷ m) (h, hs) = ground (arith, delete-IsMap k m hs, lookup-delete k j m)

  pub keep_keys-IsMap : (p : Text → Bool) (m : GoMap V) → IsMap m → IsMap (keep_keys p m)
  unfolding keep_keys
  keep_keys-IsMap p [] h = tt
  keep_keys-IsMap p ((j, w) ∷ m) (h, hs) =
      ground (arith, keep_keys-IsMap p m hs, lookup-keep_keys p j m)

  -- A key stands among the keys exactly when it is found.
  pub contains-keys :
      (k : Text) (m : GoMap V)
      → contains k (keys m) ≡ (elim (lookup k m) [ none ↦ false | some _ ↦ true ])
  unfolding lookup
  contains-keys k [] = refl
  contains-keys k ((j, w) ∷ m) = ground (arith, contains-keys k m)
