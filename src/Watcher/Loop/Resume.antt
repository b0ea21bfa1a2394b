-- ===== src/Watcher/Loop/Resume.antt =====
-- watcher/watcher.go: what `watchStore` does after the channel of store events was closed.
use mathlib.Core.List.{Memᴰ}
use lainlet.Base.{
  ℕ, ◌≡◌, refl, ap, ◌∙◌, Bool, true, false, Option, none, some, List, if_true, Text, nat_eq,
  text_eq, Result, ok, ◌>>=◌, Returns, Returns-eq-ok,
}
use lainlet.Base.{keys}
use lainlet.Store.{KvPair, Action, Answer}
use lainlet.Watcher.Cacher
use lainlet.Watcher.Cacher.{Data, Cacher}
use lainlet.Watcher.Sender
use lainlet.Watcher.Sender.{Receiver, Sender}
use lainlet.Watcher.Sender.Safety.{IsSound, broadcast-IsSound}
use lainlet.Watcher.Sender.Delivery.{delivered, broadcast-delivered}
use lainlet.Watcher.Loop.{
  Converter, Watcher, Input, Loop, refreshing, watching, round, closed, with_cacher, tree_pairs,
  reset_with, refresh, broadcast, announce, after_refresh, start, turn,
}

module _ {T V : Type 0} (cv : Converter T V) (done : ℕ → Bool) where
  -- What a broadcast does, told of the watcher that makes it.
  abbrev pub IsTold : List Text → Watcher T V → Watcher T V → Type 0
  IsTold ks w w' =
      (w'.sender.cacher ≡ w.sender.cacher)
      × IsSound w'.sender
      × ((r : Receiver)
          → Memᴰ (some r) w.sender.receivers
          → w'.sender.channels r.ch
            ≡ delivered done w.sender.cacher ks Action.set r (w.sender.channels r.ch))

  broadcast-IsTold :
      (ks : List Text) (w : Watcher T V)
      → IsSound w.sender
      → Returns (broadcast cv done ks Action.set w) (IsTold ks w)
  unfolding broadcast
  broadcast-IsTold ks w v =
      let (x, ex, (sound, same)) =
        Returns-eq-ok (Sender.broadcast done ks Action.set w.sender) _
          (broadcast-IsSound done ks Action.set w.sender v) in
      let (y, ey, (told, _)) =
        Returns-eq-ok (Sender.broadcast done ks Action.set w.sender) _
          (broadcast-delivered done ks Action.set w.sender v) in
      let e : x ≡ y = cc (ex, ey) in rw ey (rw⁻¹ e same, rw⁻¹ e sound, told)

  announce-IsTold :
      (w : Watcher T V)
      → w.broadcast_after_refresh ≡ true
      → IsSound w.sender
      → Returns
          (announce cv done w)
          (λ w'. IsTold (keys w.sender.cacher.entries) w w' × (w'.broadcast_after_refresh ≡ false))
  unfolding announce Cacher.get_all_keys
  announce-IsTold w pending v =
      let (w', e, told) =
        Returns-eq-ok (broadcast cv done (keys w.sender.cacher.entries) Action.set w) _
          (broadcast-IsTold (keys w.sender.cacher.entries) w v) in
      rw (e, if_true w.broadcast_after_refresh _ _ pending) (told, refl)

  -- The watcher with the converted data in its cache.
  abbrev pub refreshed : T → Data V → Watcher T V → Watcher T V
  refreshed table m w = with_cacher (record w { table = table }) (record { entries = m })

  refresh-eq-ok :
      (tree : Answer (List KvPair)) (w : Watcher T V) (pairs : List KvPair) (table : T) (m : Data V)
      → tree_pairs tree ≡ ok pairs
      → cv.convert w.table pairs ≡ (table, ok m)
      → refresh cv tree w ≡ (refreshed table m w, ok tt)
  unfolding refresh Cacher.reset reset_with
  refresh-eq-ok tree w pairs table m read converted =
      rw (refresh, read) refl ∙ ap (reset_with cv w) converted

  pub turn_round :
      (tree : Answer (List KvPair)) (watch_error : Option Text) (w : Watcher T V)
      (pairs : List KvPair) (table : T) (m : Data V)
      → tree_pairs tree ≡ ok pairs
      → cv.convert w.table pairs ≡ (table, ok m)
      → turn cv done refreshing (round tree watch_error) w
        ≡ after_refresh cv done watch_error (refreshed table m w, ok tt)
  unfolding turn start
  turn_round tree watch_error w pairs table m read converted =
      ap (after_refresh cv done watch_error) (refresh-eq-ok tree w pairs table m read converted)

  -- A round that is due to broadcast.
  turn-IsTold :
      (tree : Answer (List KvPair)) (watch_error : Option Text) (w : Watcher T V)
      (pairs : List KvPair) (table : T) (m : Data V)
      → w.broadcast_after_refresh ≡ true
      → tree_pairs tree ≡ ok pairs
      → cv.convert w.table pairs ≡ (table, ok m)
      → IsSound w.sender
      → Returns (turn cv done refreshing (round tree watch_error) w) (λ l.
        IsTold (keys m) (refreshed table m w) l.watcher
        × (l.watcher.broadcast_after_refresh ≡ false)
        × (l.phase ≡ elim watch_error [ none ↦ watching | some e ↦ refreshing ]))
  unfolding after_refresh
  turn-IsTold tree watch_error w pairs table m pending read converted v =
      let (w', e, told) = Returns-eq-ok (announce cv done (refreshed table m w)) _ (
        announce-IsTold (refreshed table m w) pending
          (record { holds = v.holds; orderly = v.orderly })) in
      rw (turn_round tree watch_error w pairs table m read converted, after_refresh, e)
        (told.0, told.1, refl)

  -- Two turns one after the other.
  abbrev pub then_turn : Input → Result (Loop T V) → Result (Loop T V)
  then_turn input m = m >>= (λ l. turn cv done l.phase input l.watcher)

  -- The channel of store events is closed while the loop of a sound sender waits, and the next round
  -- finds that the store answers, or lacks the key, and that the data convert. Then the cache becomes
  -- the converted data, all their keys are broadcast to all receivers, and the broadcast is not due
  -- again in the next round; the loop waits for events, or refreshes if Watch has an error. Nothing
  -- panics.
  pub turn_resumes :
      (tree : Answer (List KvPair)) (watch_error : Option Text) (w : Watcher T V)
      (pairs : List KvPair) (table : T) (m : Data V)
      → tree_pairs tree ≡ ok pairs
      → cv.convert w.table pairs ≡ (table, ok m)
      → IsSound w.sender
      → Returns (then_turn (round tree watch_error) (turn cv done watching closed w)) (λ l.
        IsTold (keys m) (refreshed table m w) l.watcher
        × (l.watcher.broadcast_after_refresh ≡ false)
        × (l.phase ≡ elim watch_error [ none ↦ watching | some e ↦ refreshing ]))
  unfolding turn
  turn_resumes tree watch_error w pairs table m read converted v =
      turn-IsTold tree watch_error (record w { broadcast_after_refresh = true }) pairs table m refl
        read converted (record { holds = v.holds; orderly = v.orderly })
