-- ===== src/Watcher/Loop/Told.antt =====
-- watcher/watcher.go: under which keys an event of the store changes the cache, and which ones it tells.
use lainlet.Base.{
  ◌≡◌, refl, ap, inl, inr, true, ◌&&◌, ◌||◌, List, [], ◌∷◌, ◌++◌, arith, if◌then◌else◌, Text,
  nat_eq, text_eq, Text-discrete, Bool-cases, contains, has_prefix, ◌⊎◌,
}
use lainlet.Base.{keys, IsMap, contains-keys}
use lainlet.Watcher.Cacher
use lainlet.Watcher.Cacher.{Data, Cacher}
use lainlet.Watcher.Sender.UpToDate.{DiffersAt}
use lainlet.Watcher.Loop.{put_all, delete_all}
use lainlet.Watcher.Loop.Events.{lookup-put_all, lookup-delete_all}

pub contains-append :
    (j : Text) (xs ys : List Text) → contains j (xs ++ ys) ≡ (contains j xs || contains j ys)
contains-append j [] ys = refl
contains-append j (x ∷ xs) ys = ground (arith, contains-append j xs ys)

module _ {V : Type 0} where
  -- Putting data changes the cache at their keys alone.
  pub put_all-DiffersAt :
      (before : List Text) (c : Cacher V) (m : Data V)
      → IsMap m
      → DiffersAt (before ++ keys m) c (put_all c m)
  put_all-DiffersAt before c m h j missing =
      ground (arith, lookup-put_all c m j h, contains-append j before (keys m), contains-keys j m)

  -- The keys that the DELETE case tells.
  pub contains-delete_all :
      (f : Text → Text) (gone : Text) (c : Cacher V) (ks : List Text) (j : Text)
      → contains j (delete_all f gone c ks).1 ≡ (contains j ks && has_prefix (f j) gone)
  unfolding delete_all
  contains-delete_all f gone c [] j = refl
  contains-delete_all f gone c (k ∷ ks) j =
      let later =
        contains-delete_all f gone
          (if has_prefix (f k) gone then (Cacher.delete_key c k true).0 else c) ks j in
      elim (Text-discrete k j) [
        | yes e ↦ ground (arith, later, ap f e)
        | no e ↦ ground (arith, later)
      ]

  pub put_all-keys :
      (c : Cacher V) (m : Data V) (j : Text)
      → IsMap m
      → contains j (keys (put_all c m).entries) ≡ true
      → (contains j (keys m) ≡ true) ⊎ (contains j (keys c.entries) ≡ true)
  put_all-keys c m j h there = elim (Bool-cases (contains j (keys m))) [
    | inl put ↦ inl put
    | inr other ↦ inr (
        ground (
          arith,
          put_all-DiffersAt [] c m h j other,
          contains-keys j (put_all c m).entries,
          contains-keys j c.entries,
        ))
  ]

  pub delete_all-keys :
      (f : Text → Text) (gone : Text) (c : Cacher V) (ks : List Text) (j : Text)
      → contains j (keys (delete_all f gone c ks).0.entries) ≡ true
      → contains j (keys c.entries) ≡ true
  delete_all-keys f gone c ks j there = ground (
    arith,
    lookup-delete_all f gone c ks j,
    contains-keys j (delete_all f gone c ks).0.entries,
    contains-keys j c.entries,
  )
