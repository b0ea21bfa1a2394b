-- ===== src/Watcher/Loop/Distinct.antt =====
-- watcher/watcher.go: the keys of the cache stay distinct in the loops over it.
use lainlet.Base.{
  ◌≡◌, refl, inl, inr, true, Option, none, some, List, [], ◌∷◌, arith, Text, nat_eq, text_eq,
  Bool-cases, has_prefix,
}
use lainlet.Base.{lookup, IsMap, insert-IsMap, delete-IsMap}
use lainlet.Watcher.Cacher
use lainlet.Watcher.Cacher.{Data, Cacher, new_cacher}
use lainlet.Watcher.Loop.{put_all, delete_all}

module _ {V : Type 0} where
  put-IsMap :
      (c : Cacher V) (k : Text) (v : Option V) → IsMap c.entries → IsMap (Cacher.put c k v).entries
  unfolding Cacher.put
  put-IsMap c k none h = delete-IsMap k c.entries h
  put-IsMap c k (some v) h = insert-IsMap k (some v) c.entries h

  pub put_all-IsMap : (c : Cacher V) (m : Data V) → IsMap c.entries → IsMap (put_all c m).entries
  unfolding put_all
  put_all-IsMap c [] h = h
  put_all-IsMap c ((k, v) ∷ m) h = put_all-IsMap (Cacher.put c k v) m (put-IsMap c k v h)

  lookup-drop_prefix :
      (key j : Text) (m : Data V) → lookup j m ≡ none → lookup j (Cacher.drop_prefix key m).0 ≡ none
  unfolding Cacher.drop_prefix lookup
  lookup-drop_prefix key j [] h = refl
  lookup-drop_prefix key j ((k, v) ∷ m) h = ground (arith, lookup-drop_prefix key j m)

  drop_prefix-IsMap : (key : Text) (m : Data V) → IsMap m → IsMap (Cacher.drop_prefix key m).0
  unfolding Cacher.drop_prefix
  drop_prefix-IsMap key [] h = tt
  drop_prefix-IsMap key ((k, v) ∷ m) (h, hs) =
      ground (arith, drop_prefix-IsMap key m hs, lookup-drop_prefix key k m h)

  pub delete_all-IsMap :
      (ckey2skey : Text → Text) (gone : Text) (c : Cacher V) (ks : List Text)
      → IsMap c.entries
      → IsMap (delete_all ckey2skey gone c ks).0.entries
  unfolding delete_all Cacher.delete_key
  delete_all-IsMap ckey2skey gone c [] h = h
  delete_all-IsMap ckey2skey gone c (k ∷ ks) h = elim (Bool-cases (has_prefix (ckey2skey k) gone)) [
    | inl hit ↦
        rw (hit, delete_all)
          (delete_all-IsMap ckey2skey gone (Cacher.delete_key c k true).0 ks
            (drop_prefix-IsMap k c.entries h))
    | inr miss ↦ rw (miss, delete_all) (delete_all-IsMap ckey2skey gone c ks h)
  ]
