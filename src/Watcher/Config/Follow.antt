-- ===== src/Watcher/Config/Follow.antt =====
-- watcher/config/config.go and watcher/watcher.go: the watcher of the configuration follows the store.
use lainlet.Base.{
  ℕ, ◌≡◌, refl, ap, ◌∙◌, ◌⊎◌, inl, inr, Bool, none, some, List, [], ◌∷◌, arith, if◌then◌else◌, Text,
  nat_eq, text_eq, Result, ok, ◌>>=◌, Returns, Returns-eq-ok, All,
}
use lainlet.Base.{lookup}
use lainlet.Store.{KvPair, Action, Event}
use lainlet.Watcher.Cacher.{Data}
use lainlet.Watcher.Sender.Safety.{IsSound}
use lainlet.Store.{found}
use lainlet.Watcher.Cacher
use lainlet.Watcher.Loop.{
  Watcher, on_event, Loop, turn, start, refresh, tree_pairs, after_refresh, announce, with_cacher,
  event, round, watching, refreshing,
}
use lainlet.Watcher.Loop.Events.{on_event-update, on_event_delete}
use lainlet.Watcher.Loop.Resume.{turn_round}
use lainlet.Watcher.Loop.Turns.{announce-keeps}
use lainlet.Watcher.Config.{invert_key, convert, config_converter}
use lainlet.Watcher.Config.Mirror.{IsBelow, convert-latest}
use lainlet.Watcher.Config.Converted.{IsTidy, convert-IsTidy}
use lainlet.Watcher.Config.Copies.{
  Store, written, is_under, store_after, HasNoNamesake, IsFair, store_after_all, AreFair, Mirrors,
  latest-written, Mirrors-overlaid, Mirrors-cut, Mirrors-IsMonotone,
}

module _ (done : ℕ → Bool) (now : ℕ) where
  Mirrors-update :
      (e : Event) (w : Watcher (Unit {0}) Text) (s : Store)
      → (e.action ≡ Action.set) ⊎ (e.action ≡ Action.update)
      → All IsBelow e.pairs
      → Mirrors w s
      → Returns
          (on_event config_converter done now e w)
          (λ w'. Mirrors w' (λ key. written key e.pairs (s key)))
  unfolding config_converter
  Mirrors-update e w s act below v =
      let (m, em, there) = Returns-eq-ok (convert e.pairs) _ (convert-latest e.pairs below) in
      let (w', ew, (new, sound, _, _)) = Returns-eq-ok (on_event config_converter done now e w) _ (
        on_event-update config_converter done now e w w.table m act (ap (λ x. (w.table, x)) em)
          (rw em at (convert-IsTidy e.pairs below)).0 v.sound) in
      rw ew (
        Mirrors-overlaid w w' s e.pairs m v (rw em at (convert-IsTidy e.pairs below)) there new
          sound)

  Mirrors-delete :
      (e : Event) (w : Watcher (Unit {0}) Text) (s : Store)
      → e.action ≡ Action.delete
      → HasNoNamesake e.key s
      → Mirrors w s
      → Returns
          (on_event config_converter done now e w)
          (λ w'. Mirrors w' (λ key. if is_under e.key key then none else s key))
  unfolding config_converter
  Mirrors-delete e w s act fair v =
      let (w', ew, (cut, sound, _)) = Returns-eq-ok (on_event config_converter done now e w) _ (
        on_event_delete config_converter done now e w act v.sound
          (Mirrors-IsMonotone done w s v)) in
      rw ew (Mirrors-cut w w' s e.key v fair cut sound)

  Mirrors-ignored :
      (e : Event) (w : Watcher (Unit {0}) Text) (s : Store) (a : Action)
      → e.action ≡ a
      → (a ≡ Action.error) ⊎ ((a ≡ Action.get) ⊎ (a ≡ Action.init))
      → Mirrors w s
      → Returns (on_event config_converter done now e w) (λ w'. Mirrors w' s)
  unfolding on_event
  Mirrors-ignored e w s a act other v =
      let same : on_event config_converter done now e w
          ≡ ok (record w { status = record { update_time = now; last_event = some e } }) =
        ground (arith, act, other) in
      rw same (record { sound = v.sound; clean = v.clean; same = v.same })

  -- An event of the store, whatever its action.
  Mirrors-event :
      (a : Action) (e : Event) (w : Watcher (Unit {0}) Text) (s : Store)
      → e.action ≡ a
      → IsFair a e s
      → Mirrors w s
      → Returns (on_event config_converter done now e w) (λ w'. Mirrors w' (store_after a e s))
  Mirrors-event Action.set e w s act fair v = Mirrors-update e w s (inl act) fair v
  Mirrors-event Action.update e w s act fair v = Mirrors-update e w s (inr act) fair v
  Mirrors-event Action.delete e w s act fair v = Mirrors-delete e w s act fair v
  Mirrors-event Action.error e w s act fair v = Mirrors-ignored e w s Action.error act (inl refl) v
  Mirrors-event Action.get e w s act fair v =
      Mirrors-ignored e w s Action.get act (inr (inl refl)) v
  Mirrors-event Action.init e w s act fair v =
      Mirrors-ignored e w s Action.init act (inr (inr refl)) v

module _ (done : ℕ → Bool) where
  -- The loop with a channel of events.
  unfoldable pub follow : List (ℕ × Event) → Loop (Unit {0}) Text → Result (Loop (Unit {0}) Text)
  unfolding turn
  follow [] l = ok l
  follow ((now, e) ∷ es) l =
      turn config_converter done l.phase (event now e) l.watcher >>= follow es

  -- The loop waits for the next event, and its cache is a copy of the store.
  abbrev pub IsCopy : Store → Loop (Unit {0}) Text → Type 0
  IsCopy s l = (l.phase ≡ watching) × Mirrors l.watcher s

  follow-IsCopy :
      (es : List (ℕ × Event)) (l : Loop (Unit {0}) Text) (s : Store)
      → AreFair es s
      → IsCopy s l
      → Returns (follow es l) (IsCopy (store_after_all es s))
  unfolding follow turn
  follow-IsCopy [] l s fair v = v
  follow-IsCopy ((now, e) ∷ es) l s (fair, fairs) (waits, v) =
      let (w', eq, v') =
        Returns-eq-ok (on_event config_converter done now e l.watcher) _
          (Mirrors-event done now e.action e l.watcher s refl fair v) in
      rw (waits, eq)
        (follow-IsCopy es (record { phase = watching; watcher = w' }) (store_after e.action e s)
          fairs (refl, v'))

  start-IsCopy :
      (pairs : List KvPair) (w : Watcher (Unit {0}) Text)
      → All IsBelow pairs
      → IsSound w.sender
      → Returns
          (turn config_converter done refreshing (round (found pairs) none) w)
          (IsCopy (λ key. written key pairs none))
  unfolding turn start refresh tree_pairs config_converter Cacher.reset
  start-IsCopy pairs w below sound =
      let (m, em, there) = Returns-eq-ok (convert pairs) _ (convert-latest pairs below) in
      let tidy : IsTidy m = rw em at (convert-IsTidy pairs below) in
      let w₁ : Watcher (Unit {0}) Text = with_cacher w (record { entries = m }) in
      let (w', eq, (sound', same, _)) = Returns-eq-ok (announce config_converter done w₁) _ (
        announce-keeps config_converter done w₁
          (record { holds = sound.holds; orderly = sound.orderly })) in
      rw
        (
          turn_round config_converter done (found pairs) none w pairs w.table m refl
              (ap (λ x. (w.table, x)) em),
          after_refresh,
          eq,
        )
        (
          refl,
          record {
            sound = sound';
            clean = λ k here. tidy.1 k (ground (arith, same));
            same = λ k c.
                ap (λ c. lookup k c.entries) same
                ∙ there k c
                ∙ latest-written (invert_key k) pairs none;
          },
        )

  -- The watcher of the configuration implements a copy of the store: after a refresh from the pairs of
  -- the store, which are clean paths below KEY, and whatever events follow, of which a SET or UPDATE
  -- has such pairs and a DELETE leaves no key that starts with the text of the deleted one, the cache
  -- has under each clean path the value that the store has under the path's key, and no other key. The
  -- loop neither returns nor panics; it starts from a sound sender.
  pub run-IsCopy :
      (pairs : List KvPair) (es : List (ℕ × Event)) (w : Watcher (Unit {0}) Text)
      → All IsBelow pairs
      → AreFair es (λ key. written key pairs none)
      → IsSound w.sender
      → Returns
          (turn config_converter done refreshing (round (found pairs) none) w >>= follow es)
          (IsCopy (store_after_all es (λ key. written key pairs none)))
  run-IsCopy pairs es w below fair sound =
      let (l, eq, copy) =
        Returns-eq-ok (turn config_converter done refreshing (round (found pairs) none) w) _
          (start-IsCopy pairs w below sound) in
      rw eq (follow-IsCopy es l (λ key. written key pairs none) fair copy)
