-- ===== src/Watcher/Loop/Turns.antt =====
-- watcher/watcher.go: what a turn of `watchStore` keeps true of its watcher.
use lainlet.Base.{
  ℕ, ◌≡◌, refl, ◌∙◌, ◌≢◌, inl, inr, Bool, Option, some, List, [], ◌++◌, if_false, Text, nat_eq,
  text_eq, Bool-cases, Result, ok, err, panic, Returns, Returns-eq-ok,
}
use lainlet.Base.{keys, IsMap}
use lainlet.Base.{if_true}
use lainlet.Store.{Action, KvPair, Event, Answer, found, key_not_found, failure}
use lainlet.Watcher.Cacher
use lainlet.Watcher.Cacher.{Data, Cacher, new_cacher}
use lainlet.Watcher.Sender.Safety.{IsSound}
use lainlet.Watcher.Loop.{
  Converter, Watcher, Phase, refreshing, watching, returned, Input, round, event, closed, cancelled,
  tree_pairs, put_all, delete_all, reset_with, refresh, broadcast, apply_update, after_convert,
  on_update, on_delete, on_event, announce, after_refresh, start, turn, with_cacher,
}
use lainlet.Watcher.Loop.Events.{broadcast-keeps}
use lainlet.Watcher.Loop.Distinct.{put_all-IsMap, delete_all-IsMap}

-- A sound sender, distinct keys in the cache, and no key that waits to be broadcast.
pub record IsWell {T V : Type 0} (w : Watcher T V) : Type 0 where
  pub sound : IsSound w.sender
  pub distinct : IsMap w.sender.cacher.entries
  pub settled : w.pending ≡ []

-- A conversion that does not panic, and makes data with distinct keys.
abbrev pub IsHandled : {V : Type 0} → Result (Data V) → Type 0
IsHandled panic = ⊥
IsHandled (err m) = Unit {0}
IsHandled (ok m) = IsMap m

-- An input whose pairs the converter takes.
abbrev pub IsFed : (List KvPair → Type 0) → Input → Type 0
IsFed IsAccepted (round (found pairs) watch_error) = IsAccepted pairs
IsFed IsAccepted (round key_not_found watch_error) = IsAccepted []
IsFed IsAccepted (round (failure m) watch_error) = Unit {0}
IsFed IsAccepted (event now e) = IsAccepted e.pairs
IsFed IsAccepted closed = Unit {0}
IsFed IsAccepted cancelled = Unit {0}

-- The broadcast after a refresh changes the channels alone.
pub announce-keeps :
    {T V : Type 0} (cv : Converter T V) (done : ℕ → Bool) (w : Watcher T V)
    → IsSound w.sender
    → Returns
        (announce cv done w)
        (λ w'. IsSound w'.sender × (w'.sender.cacher ≡ w.sender.cacher) × (w'.pending ≡ w.pending))
unfolding announce
announce-keeps cv done w v = elim (Bool-cases w.broadcast_after_refresh) [
  | inr settled ↦ rw (if_false w.broadcast_after_refresh _ _ settled) (v, refl, refl)
  | inl due ↦
      let (s, es, sound, same) =
        broadcast-keeps cv done (Cacher.get_all_keys w.sender.cacher) Action.set w v in
      rw (if_true w.broadcast_after_refresh _ _ due, es) (sound, same, refl)
]

module _ {T V : Type 0} (cv : Converter T V) (IsAccepted : List KvPair → Type 0)
    (handles : (table : T) (pairs : List KvPair)
      → IsAccepted pairs
      → IsHandled (cv.convert table pairs).1) where
  module _ (done : ℕ → Bool) where
    broadcast-IsWell :
        (ks : List Text) (action : Action) (w : Watcher T V)
        → IsSound w.sender
        → IsMap w.sender.cacher.entries
        → Returns
            (broadcast cv done ks action w)
            (λ w'. IsSound w'.sender × IsMap w'.sender.cacher.entries × (w'.pending ≡ w.pending))
    broadcast-IsWell ks action w v h =
        let (s, es, sound, same) = broadcast-keeps cv done ks action w v in
        rw es (sound, rw same h, refl)

    apply_update-IsWell :
        (e : Event) (m : Data V) (w : Watcher T V)
        → IsWell w
        → Returns (apply_update cv done e m w) IsWell
    unfolding apply_update
    apply_update-IsWell e m w v =
        let w' : Watcher T V =
          with_cacher (record w { last_index = e.modified_index }) (put_all w.sender.cacher m) in
        let (w'', eq, (sound, distinct, _)) =
          Returns-eq-ok (broadcast cv done (w.pending ++ keys m) e.action w') _ (
            broadcast-IsWell (w.pending ++ keys m) e.action w'
              (record { holds = v.sound.holds; orderly = v.sound.orderly })
              (put_all-IsMap w.sender.cacher m v.distinct)) in
        rw eq (record { sound = sound; distinct = distinct; settled = refl })

    after_convert-IsWell :
        (e : Event) (w : Watcher T V) (x : T × Result (Data V))
        → IsHandled x.1
        → IsWell w
        → Returns (after_convert cv done e w x) IsWell
    unfolding after_convert
    after_convert-IsWell e w (table, panic) h v = absurd h
    after_convert-IsWell e w (table, err m) h v = record {
      sound = v.sound;
      distinct = v.distinct;
      settled = v.settled;
    }
    after_convert-IsWell e w (table, ok m) h v =
        apply_update-IsWell e m (record w { table = table })
          (record { sound = v.sound; distinct = v.distinct; settled = v.settled })

    on_delete-IsWell :
        (e : Event) (w : Watcher T V) → IsWell w → Returns (on_delete cv done e w) IsWell
    unfolding on_delete
    on_delete-IsWell e w v =
        let c = w.sender.cacher in
        let purged = delete_all (cv.invert_key w.table) e.key c (Cacher.get_all_keys c) in
        let w' : Watcher T V = with_cacher (record w { last_index = e.modified_index }) purged.0 in
        let (w'', eq, (sound, distinct, _)) =
          Returns-eq-ok (broadcast cv done (w.pending ++ purged.1) e.action w') _ (
            broadcast-IsWell (w.pending ++ purged.1) e.action w'
              (record { holds = v.sound.holds; orderly = v.sound.orderly })
              (delete_all-IsMap (cv.invert_key w.table) e.key c (Cacher.get_all_keys c)
                v.distinct)) in
        rw eq (record { sound = sound; distinct = distinct; settled = refl })

    on_event-IsWell :
        (now : ℕ) (e : Event) (w : Watcher T V)
        → IsAccepted e.pairs
        → IsWell w
        → Returns (on_event cv done now e w) IsWell
    unfolding on_event on_update
    on_event-IsWell now e w fed v =
        let w' : Watcher T V = record w {
          status = record { update_time = now; last_event = some e };
        } in
        let v' : IsWell w' = record {
          sound = v.sound;
          distinct = v.distinct;
          settled = v.settled;
        } in
        let updated =
          after_convert-IsWell e w' (cv.convert w.table e.pairs) (handles w.table e.pairs fed) v' in
        elim e.action
          as (λ act.
            Returns
              (elim act [
                | Action.set ↦ on_update cv done e w'
                | Action.update ↦ on_update cv done e w'
                | Action.delete ↦ on_delete cv done e w'
                | _ ↦ ok w'
              ])
              IsWell) [
                | Action.set ↦ updated
                | Action.update ↦ updated
                | Action.delete ↦ on_delete-IsWell e w' v'
                | _ ↦ v'
              ]

    announce-IsWell : (w : Watcher T V) → IsWell w → Returns (announce cv done w) IsWell
    announce-IsWell w v =
        let (w', eq, (sound, same, kept)) =
          Returns-eq-ok (announce cv done w) _ (announce-keeps cv done w v.sound) in
        rw eq (record { sound = sound; distinct = rw same v.distinct; settled = kept ∙ v.settled })

    after_refresh-IsWell :
        (watch_error : Option Text) (x : Watcher T V × Result (Unit {0}))
        → x.1 ≢ panic
        → IsWell x.0
        → Returns (after_refresh cv done watch_error x) (λ l. IsWell l.watcher)
    unfolding after_refresh
    after_refresh-IsWell watch_error (w, panic) returns v = absurd (returns refl)
    after_refresh-IsWell watch_error (w, err m) returns v = v
    after_refresh-IsWell watch_error (w, ok _) returns v =
        let (w', eq, well) = Returns-eq-ok (announce cv done w) _ (announce-IsWell w v) in
        rw eq well

    reset_with-IsWell :
        (w : Watcher T V) (x : T × Result (Data V))
        → IsHandled x.1
        → IsWell w
        → ((reset_with cv w x).1 ≢ panic) × IsWell (reset_with cv w x).0
    unfolding reset_with Cacher.reset
    reset_with-IsWell w (table, panic) h v = absurd h
    reset_with-IsWell w (table, err m) h v =
        ((λ e. cc), record { sound = v.sound; distinct = v.distinct; settled = v.settled })
    reset_with-IsWell w (table, ok m) h v = (
      (λ e. cc),
      record {
        sound = record { holds = v.sound.holds; orderly = v.sound.orderly };
        distinct = h;
        settled = v.settled;
      },
    )

    start-IsWell :
        (tree : Answer (List KvPair)) (watch_error : Option Text) (w : Watcher T V)
        → IsFed IsAccepted (round tree watch_error)
        → IsWell w
        → Returns (start cv done tree watch_error w) (λ l. IsWell l.watcher)
    unfolding start refresh tree_pairs
    start-IsWell (found pairs) watch_error w fed v =
        let (returns, well) =
          reset_with-IsWell w (cv.convert w.table pairs) (handles w.table pairs fed) v in
        after_refresh-IsWell watch_error _ returns well
    start-IsWell key_not_found watch_error w fed v =
        let (returns, well) =
          reset_with-IsWell w (cv.convert w.table []) (handles w.table [] fed) v in
        after_refresh-IsWell watch_error _ returns well
    start-IsWell (failure m) watch_error w fed v = v

    pub turn-IsWell :
        (phase : Phase) (i : Input) (w : Watcher T V)
        → IsFed IsAccepted i
        → IsWell w
        → Returns (turn cv done phase i w) (λ l. IsWell l.watcher)
    unfolding turn
    turn-IsWell refreshing (round tree watch_error) w fed v = start-IsWell tree watch_error w fed v
    turn-IsWell refreshing (event now e) w fed v = v
    turn-IsWell refreshing closed w fed v = v
    turn-IsWell refreshing cancelled w fed v = v
    turn-IsWell watching (event now e) w fed v =
        let (w', eq, well) =
          Returns-eq-ok (on_event cv done now e w) _ (on_event-IsWell now e w fed v) in
        rw eq well
    turn-IsWell watching closed w fed v = record {
      sound = v.sound;
      distinct = v.distinct;
      settled = v.settled;
    }
    turn-IsWell watching cancelled w fed v = v
    turn-IsWell watching (round tree watch_error) w fed v = v
    turn-IsWell returned i w fed v = v
