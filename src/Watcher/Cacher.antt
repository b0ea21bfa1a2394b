-- ===== src/Watcher/Cacher.antt =====
-- watcher/cacher.go: the cache of converted data. Every method holds the lock from its first line to
-- its last, so a call is one atomic step. `none` is a nil `interface{}`.
pub mod Laws
use lainlet.Base.{
  ℕ, Bool, Option, none, some, List, [], ◌∷◌, if◌then◌else◌, Text, is_some, length, has_prefix,
}
use lainlet.Base.{GoMap, lookup, insert, delete, keys, keep_keys}

-- map[string]interface{}
abbrev pub Data {ℓ} : Type ℓ → Type ℓ
Data V = GoMap (Option V)

pub record Cacher {ℓ} (V : Type ℓ) : Type ℓ where
  pub entries : Data V

module _ {ℓ} {V : Type ℓ} where
  -- NewCacher; `none` is a nil map
  unfoldable pub new_cacher : Option (Data V) → Cacher V
  new_cacher none = record { entries = [] }
  new_cacher (some m) = record { entries = m }

  -- Put
  unfoldable pub put : Cacher V → Text → Option V → Cacher V
  put c key none = record { entries = delete key c.entries }
  put c key (some v) = record { entries = insert key (some v) c.entries }

  -- Reset
  unfoldable pub reset : Cacher V → Data V → Cacher V
  reset c m = record { entries = m }

  -- The loop of the recursive `Delete`: what stays, and the deleted keys.
  unfoldable pub drop_prefix : Text → Data V → Data V × List Text
  drop_prefix key [] = ([], [])
  drop_prefix key ((k, v) ∷ m) =
      let (rest, deleted) = drop_prefix key m in
      if has_prefix k key then (rest, k ∷ deleted) else ((k, v) ∷ rest, deleted)

  -- Delete
  unfoldable pub delete_key : Cacher V → Text → Bool → Cacher V × List Text
  unfolding drop_prefix
  delete_key c key recursive =
      if recursive
      then (record { entries = (drop_prefix key c.entries).0 }, (drop_prefix key c.entries).1)
      else if is_some (lookup key c.entries)
      then (record { entries = delete key c.entries }, key ∷ [])
      else (c, [])

  -- Get
  unfoldable pub get : Cacher V → Text → Data V
  get c key = elim (lookup key c.entries) [
    | some v ↦ (key, v) ∷ []
    | none ↦ keep_keys (λ k. has_prefix k key) c.entries
  ]

  -- GetAll, a copy of the map
  unfoldable pub get_all : Cacher V → Data V
  get_all c = c.entries

  -- GetAllKeys
  unfoldable pub get_all_keys : Cacher V → List Text
  get_all_keys c = keys c.entries

  -- Count
  unfoldable pub count : Cacher V → ℕ
  count c = length c.entries
