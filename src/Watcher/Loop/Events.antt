-- ===== src/Watcher/Loop/Events.antt =====
-- watcher/watcher.go: what an event of the store makes of the cache.
use lainlet.Base.{
  ℕ, ◌≡◌, refl, ap, ◌∙◌, ◌⊎◌, inl, inr, Bool, true, ◌&&◌, Option, none, some, List, [], ◌∷◌, ◌++◌,
  arith, if◌then◌else◌, Text, nat_eq, text_eq, Bool-cases, Bool-eq_of_iff, Option-cases, is_some,
  ok, err, Returns, Returns-eq-ok, any, any-eq-true, any_of_contains, has_prefix, has_prefix_self,
  has_prefix_trans,
}
use lainlet.Base.{lookup, keys, IsMap, contains-keys}
use lainlet.Store.{Action, Event}
use lainlet.Watcher.Cacher
use lainlet.Watcher.Cacher.{Data, Cacher}
use lainlet.Watcher.Cacher.Laws.{lookup-put, delete_key_recursive}
use lainlet.Watcher.Sender
use lainlet.Watcher.Sender.{Sender}
use lainlet.Watcher.Sender.Safety.{IsSound, broadcast-IsSound}
use lainlet.Watcher.Loop.{
  Converter, Watcher, with_cacher, put_all, delete_all, broadcast, apply_update, after_convert,
  on_update, on_delete, on_event,
}

-- The keys that the DELETE case removes: those that start with a cached key whose store key starts
-- with the deleted one.
abbrev pub is_gone : (Text → Text) → Text → List Text → Text → Bool
is_gone ckey2skey gone ks j = any (λ k. has_prefix (ckey2skey k) gone && has_prefix j k) ks

module _ {V : Type 0} where
  -- A value that is put under a key, nil for a deletion.
  abbrev pub stored : Option V → Option (Option V)
  stored none = none
  stored (some v) = some (some v)

  -- The entry under a key after the data of a conversion were put over the old ones.
  abbrev pub overlaid : Option (Option V) → Option (Option V) → Option (Option V)
  overlaid none old = old
  overlaid (some v) old = stored v

  pub lookup-put_all :
      (c : Cacher V) (m : Data V) (j : Text)
      → IsMap m
      → lookup j (put_all c m).entries ≡ overlaid (lookup j m) (lookup j c.entries)
  unfolding put_all lookup
  lookup-put_all c [] j h = refl
  lookup-put_all c ((k, v) ∷ m) j (h, hs) =
      ground (arith, lookup-put_all (Cacher.put c k v) m j hs, lookup-put c k j v)

  pub lookup-delete_all :
      (ckey2skey : Text → Text) (gone : Text) (c : Cacher V) (ks : List Text) (j : Text)
      → lookup j (delete_all ckey2skey gone c ks).0.entries
        ≡ (if is_gone ckey2skey gone ks j then none else lookup j c.entries)
  unfolding delete_all
  lookup-delete_all ckey2skey gone c [] j = refl
  lookup-delete_all ckey2skey gone c (k ∷ ks) j =
      elim (Bool-cases (has_prefix (ckey2skey k) gone)) [
        | inl hit ↦
            rw (hit, delete_all)
              (ground (
                arith,
                lookup-delete_all ckey2skey gone (Cacher.delete_key c k true).0 ks j,
                (delete_key_recursive c k j).0,
              ))
        | inr miss ↦ rw (miss, delete_all) (lookup-delete_all ckey2skey gone c ks j)
      ]

module _ {T V : Type 0} (cv : Converter T V) (done : ℕ → Bool) where
  -- The entry of the cache under a key; `none` if there is none.
  abbrev pub entry : Watcher T V → Text → Option (Option V)
  entry w j = lookup j w.sender.cacher.entries

  pub broadcast-keeps :
      (ks : List Text) (action : Action) (w : Watcher T V)
      → IsSound w.sender
      → (s : Sender V) × (broadcast cv done ks action w ≡ ok (record w { sender = s }))
        × IsSound s
        × (s.cacher ≡ w.sender.cacher)
  unfolding broadcast
  broadcast-keeps ks action w v =
      let (x, ex, n) =
        Returns-eq-ok (Sender.broadcast done ks action w.sender) _
          (broadcast-IsSound done ks action w.sender v) in
      (x.0, rw ex, n.0, n.1)

  -- What an update leaves behind.
  abbrev pub IsUpdated : Event → Data V → Watcher T V → Watcher T V → Type 0
  IsUpdated e m w w' =
      ((j : Text) → entry w' j ≡ overlaid (lookup j m) (entry w j))
      × IsSound w'.sender
      × (w'.last_index ≡ e.modified_index)
      × (w'.table ≡ w.table)

  apply_update-IsUpdated :
      (e : Event) (m : Data V) (w : Watcher T V)
      → IsMap m
      → IsSound w.sender
      → Returns (apply_update cv done e m w) (IsUpdated e m w)
  unfolding apply_update
  apply_update-IsUpdated e m w h v =
      let w' : Watcher T V =
        with_cacher (record w { last_index = e.modified_index }) (put_all w.sender.cacher m) in
      let (s, es, sound, same) =
        broadcast-keeps (w.pending ++ keys m) e.action w'
          (record { holds = v.holds; orderly = v.orderly }) in
      rw es ((λ j. rw same (lookup-put_all w.sender.cacher m j h)), sound, refl, refl)

  abbrev pub noted : ℕ → Event → Watcher T V → Watcher T V
  noted now e w = record w { status = record { update_time = now; last_event = some e } }

  pub on_event-on_update :
      (now : ℕ) (e : Event) (w : Watcher T V)
      → (e.action ≡ Action.set) ⊎ (e.action ≡ Action.update)
      → on_event cv done now e w ≡ on_update cv done e (noted now e w)
  unfolding on_event
  on_event-on_update now e w act = ground arith

  -- From a sound sender, after a SET or UPDATE event whose data convert to a map `m` with distinct
  -- keys, the cache holds the values of `m`, nothing where `m` has nil, and what it held before at
  -- every other key. The handler returns without a panic, with the converter's new table, the
  -- event's index noted and a sound sender.
  pub on_event-update :
      (now : ℕ) (e : Event) (w : Watcher T V) (table : T) (m : Data V)
      → (e.action ≡ Action.set) ⊎ (e.action ≡ Action.update)
      → cv.convert w.table e.pairs ≡ (table, ok m)
      → IsMap m
      → IsSound w.sender
      → Returns (on_event cv done now e w) (IsUpdated e m (record w { table = table }))
  unfolding on_update
  on_event-update now e w table m act conv h v =
      let w' = record (noted now e w) { table = table } in
      rw (on_event-on_update now e w act ∙ ap (after_convert cv done e (noted now e w)) conv)
        (apply_update-IsUpdated e m w' h v)

  -- If the conversion of a SET or UPDATE event fails, the event changes neither the cache, nor the
  -- receivers, nor the index; it is noted in the status, and the converter keeps its new table.
  pub on_event_failed :
      (now : ℕ) (e : Event) (w : Watcher T V) (table : T) (m : Text)
      → (e.action ≡ Action.set) ⊎ (e.action ≡ Action.update)
      → cv.convert w.table e.pairs ≡ (table, err m)
      → on_event cv done now e w
        ≡ ok
            (record w { table = table; status = record { update_time = now; last_event = some e } })
  unfolding on_update
  on_event_failed now e w table m act conv =
      on_event-on_update now e w act ∙ ap (after_convert cv done e (noted now e w)) conv

  pub on_event-on_delete :
      (now : ℕ) (e : Event) (w : Watcher T V)
      → e.action ≡ Action.delete
      → on_event cv done now e w ≡ on_delete cv done e (noted now e w)
  unfolding on_event
  on_event-on_delete now e w act = ground arith

  -- The keys of the cache grow with their store keys: if one starts with another, so do the store
  -- keys. Keys that are paths below the watched key have this.
  abbrev pub IsMonotone : Watcher T V → Type 0
  IsMonotone w =
      (j k : Text)
      → is_some (entry w j) ≡ true
      → is_some (entry w k) ≡ true
      → has_prefix j k ≡ true
      → has_prefix (cv.invert_key w.table j) (cv.invert_key w.table k) ≡ true

  is_gone_cached :
      (w : Watcher T V) (gone j : Text)
      → IsMonotone w
      → is_some (entry w j) ≡ true
      → is_gone (cv.invert_key w.table) gone (keys w.sender.cacher.entries) j
        ≡ has_prefix (cv.invert_key w.table j) gone
  is_gone_cached w gone j mono here =
      Bool-eq_of_iff _ _
        (λ h.
          let (k, listed, both) = any-eq-true _ (keys w.sender.cacher.entries) h in
          let cached : is_some (entry w k) ≡ true =
            ground (arith, contains-keys k w.sender.cacher.entries) in
          has_prefix_trans _ (cv.invert_key w.table k) gone (mono j k here cached (ground arith))
            (ground arith))
        (λ h.
          any_of_contains _ (keys w.sender.cacher.entries) j
            (ground (arith, contains-keys j w.sender.cacher.entries))
            (ground (arith, has_prefix_self j)))

  pub kept :
      (w : Watcher T V) (gone j : Text)
      → IsMonotone w
      → (if is_gone (cv.invert_key w.table) gone (keys w.sender.cacher.entries) j
          then none
          else entry w j)
        ≡ (if has_prefix (cv.invert_key w.table j) gone then none else entry w j)
  kept w gone j mono = elim (Option-cases (entry w j)) [
    | inl absent ↦ ground arith
    | inr (v, here) ↦ rw (is_gone_cached w gone j mono (ground arith))
  ]

  -- From a sound sender, and where a cached key that starts with another one has a store key that
  -- starts with the other's: after a DELETE event a key is gone from the cache exactly if its store
  -- key starts with the event's key, and every other entry is as it was. The handler returns without
  -- a panic, with the event's index noted and a sound sender.
  pub on_event_delete :
      (now : ℕ) (e : Event) (w : Watcher T V)
      → e.action ≡ Action.delete
      → IsSound w.sender
      → IsMonotone w
      → Returns (on_event cv done now e w) (λ w'.
        ((j : Text)
          → entry w' j ≡ (if has_prefix (cv.invert_key w.table j) e.key then none else entry w j))
        × IsSound w'.sender
        × (w'.last_index ≡ e.modified_index))
  unfolding on_delete Cacher.get_all_keys
  on_event_delete now e w act v mono =
      let c = w.sender.cacher in
      let purged = delete_all (cv.invert_key w.table) e.key c (keys c.entries) in
      let w' : Watcher T V =
        with_cacher (record (noted now e w) { last_index = e.modified_index }) purged.0 in
      let (s, es, sound, same) =
        broadcast-keeps (w.pending ++ purged.1) e.action w'
          (record { holds = v.holds; orderly = v.orderly }) in
      rw (on_event-on_delete now e w act, es)
        (
          (λ j. rw same (
              lookup-delete_all (cv.invert_key w.table) e.key c (keys c.entries) j
              ∙ kept w e.key j mono)),
          sound,
          refl,
        )
