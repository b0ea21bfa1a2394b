-- ===== src/Watcher/Cacher/Laws.antt =====
-- watcher/cacher.go: what a reader sees after each operation.
use lainlet.Base.{
  ◌≡◌, refl, Bool, true, false, not, ◌&&◌, Option, none, some, [], ◌∷◌, arith, if◌then◌else◌, Text,
  ◌==◌, nat_eq, text_eq, is_some, contains, has_prefix,
}
use lainlet.Base.{
  lookup, keep_keys, IsMap, lookup-insert, lookup-delete, lookup-keep_keys, insert-IsMap,
  delete-IsMap, keep_keys-IsMap,
}
use lainlet.Watcher.Cacher.{Data, Cacher, put, drop_prefix, delete_key, get}

module _ {ℓ} {V : Type ℓ} where
  -- The value under a key, with nil for a missing one.
  abbrev pub value_at : Text → Data V → Option V
  value_at k m = elim (lookup k m) [ none ↦ none | some v ↦ v ]

  -- After `Put` the key holds the value, or is gone if the value is nil; other keys are untouched.
  pub lookup-put :
      (c : Cacher V) (k j : Text) (v : Option V)
      → lookup j (put c k v).entries
        ≡ (if k == j then elim v [ none ↦ none | some w ↦ some (some w) ] else lookup j c.entries)
  unfolding put
  lookup-put c k j none = lookup-delete k j c.entries
  lookup-put c k j (some w) = lookup-insert k j (some w) c.entries

  pub drop_prefix-keep_keys :
      (key : Text) (m : Data V) → (drop_prefix key m).0 ≡ keep_keys (λ k. not (has_prefix k key)) m
  unfolding drop_prefix keep_keys
  drop_prefix-keep_keys key [] = refl
  drop_prefix-keep_keys key ((k, v) ∷ m) = ground (arith, drop_prefix-keep_keys key m)

  pub drop_prefix-deleted :
      (key j : Text) (m : Data V)
      → contains j (drop_prefix key m).1 ≡ (has_prefix j key && is_some (lookup j m))
  unfolding drop_prefix lookup
  drop_prefix-deleted key j [] = ground arith
  drop_prefix-deleted key j ((k, v) ∷ m) = ground (arith, drop_prefix-deleted key j m)

  -- A recursive `Delete` removes the keys that start with the given one, and no other; the keys that
  -- it returns are those that were there and are gone.
  pub delete_key_recursive :
      (c : Cacher V) (key j : Text)
      → (lookup j (delete_key c key true).0.entries
          ≡ (if has_prefix j key then none else lookup j c.entries))
        × (contains j (delete_key c key true).1
            ≡ (has_prefix j key && is_some (lookup j c.entries)))
  unfolding delete_key
  delete_key_recursive c key j = (
    ground (
      arith,
      drop_prefix-keep_keys key c.entries,
      lookup-keep_keys (λ k. not (has_prefix k key)) j c.entries,
    ),
    drop_prefix-deleted key j c.entries,
  )

  -- A `Delete` that is not recursive removes the one key, and returns it if it was there.
  pub delete_key_single :
      (c : Cacher V) (key j : Text)
      → (lookup j (delete_key c key false).0.entries
          ≡ (if key == j then none else lookup j c.entries))
        × ((delete_key c key false).1 ≡ (if is_some (lookup key c.entries) then key ∷ [] else []))
  unfolding delete_key
  delete_key_single c key j = (ground (arith, lookup-delete key j c.entries), ground arith)

  -- `Get` of a key that is in the cache returns its entry alone; of another text, the entries whose
  -- keys start with it.
  pub lookup-get :
      (c : Cacher V) (key j : Text)
      → lookup j (get c key) ≡ (
          if (if is_some (lookup key c.entries) then key == j else has_prefix j key)
          then lookup j c.entries
          else none)
  unfolding get lookup
  lookup-get c key j = ground (arith, lookup-keep_keys (λ k. has_prefix k key) j c.entries)

  -- The keys of the cache stay distinct under every operation.
  pub put-IsMap :
      (c : Cacher V) (k : Text) (v : Option V) → IsMap c.entries → IsMap (put c k v).entries
  unfolding put
  put-IsMap c k none h = delete-IsMap k c.entries h
  put-IsMap c k (some w) h = insert-IsMap k (some w) c.entries h

  pub delete_key-IsMap :
      (c : Cacher V) (k : Text) (recursive : Bool)
      → IsMap c.entries
      → IsMap (delete_key c k recursive).0.entries
  unfolding delete_key
  delete_key-IsMap c k true h =
      rw drop_prefix-keep_keys (keep_keys-IsMap (λ j. not (has_prefix j k)) c.entries h)
  delete_key-IsMap c k false h = ground (arith, delete-IsMap k c.entries h)

  pub get-IsMap : (c : Cacher V) (k : Text) → IsMap c.entries → IsMap (get c k)
  unfolding get lookup
  get-IsMap c k h = ground (arith, keep_keys-IsMap (λ j. has_prefix j k) c.entries h)
