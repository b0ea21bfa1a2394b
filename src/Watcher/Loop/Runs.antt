-- ===== src/Watcher/Loop/Runs.antt =====
-- watcher/watcher.go: the goroutine `watchStore` with the calls of clients in between.
use lainlet.Base.{
  ℕ, ◌≡◌, refl, inl, inr, Bool, none, List, [], arith, if◌then◌else◌, Text, ◌==◌, nat_eq, text_eq,
  Bool-cases, Result, ok, err, panic, Returns, codes,
}
use lainlet.Store.{KvPair}
use lainlet.Watcher.Cacher.{new_cacher}
use lainlet.Watcher.Sender
use lainlet.Watcher.Sender.{Sender, new_sender}
use lainlet.Watcher.Sender.Reachable.{
  watch-IsSound, clear_nil_receivers-IsSound, take_event-IsSound, new_sender-IsSound,
}
use lainlet.Watcher.Loop.{Converter, Watcher, Loop, refreshing, Input, new_watcher, turn, watch}
use lainlet.Watcher.Loop.Turns.{IsWell, IsHandled, IsFed, turn-IsWell}

module _ {T V : Type 0} (cv : Converter T V) (IsAccepted : List KvPair → Type 0) where
  -- A turn of `watchStore`, a client that watches or takes an event, or the goroutine that drops the
  -- receivers that are gone.
  pub data Step : Loop T V → Loop T V → Type 0 where
    turns :
        (done : ℕ → Bool) (i : Input) (l l' : Loop T V)
        → IsFed IsAccepted i
        → turn cv done l.phase i l.watcher ≡ ok l'
        → Step l l'
    watches :
        (prefix : Text) (ctx : ℕ) (l : Loop T V) (w : Watcher T V) (ch : ℕ)
        → watch prefix ctx l.watcher ≡ ok (w, ch)
        → Step l (record l { watcher = w })
    clears :
        (l : Loop T V)
        → Step l (record l {
          watcher = record l.watcher { sender = Sender.clear_nil_receivers l.watcher.sender };
        })
    takes :
        (ch : ℕ) (l : Loop T V)
        → Step l (record l {
          watcher = record l.watcher { sender = Sender.take_event ch l.watcher.sender };
        })

  -- The loops that a new watcher may come to.
  pub data Run (key : Text) (table : T) : Loop T V → Type 0 where
    made : Run key table (record { phase = refreshing; watcher = new_watcher key table })
    next : {l l' : Loop T V} → Run key table l → Step l l' → Run key table l'

  abbrev WatchIsWell : Result (Watcher T V × ℕ) → Type 0
  WatchIsWell (ok (w, ch)) = IsWell w
  WatchIsWell (err m) = Unit {0}
  WatchIsWell panic = Unit {0}

  watch-keeps :
      (prefix : Text) (ctx : ℕ) (w : Watcher T V) → IsWell w → WatchIsWell (watch prefix ctx w)
  unfolding watch Sender.watch
  watch-keeps prefix ctx w v = elim (Bool-cases (prefix == [])) [
    | inl empty ↦ rw (watch, empty) tt
    | inr named ↦
        rw (watch, named)
          (record {
            sound = watch-IsSound (if prefix == codes "*" then [] else prefix) ctx v.sound;
            distinct = v.distinct;
            settled = v.settled;
          })
  ]

  take_event-cacher : (ch : ℕ) (t : Sender V) → (Sender.take_event ch t).cacher ≡ t.cacher
  unfolding Sender.take_event
  take_event-cacher ch t = ground arith

  module _
      (handles : (table : T) (pairs : List KvPair)
        → IsAccepted pairs
        → IsHandled (cv.convert table pairs).1) where
    Step-IsWell : {l l' : Loop T V} → Step l l' → IsWell l.watcher → IsWell l'.watcher
    unfolding Sender.clear_nil_receivers Sender.take_event
    Step-IsWell (turns done i l l' fed eq) v =
        let well = turn-IsWell cv IsAccepted handles done l.phase i l.watcher fed v in rw eq at well
    Step-IsWell (watches prefix ctx l w ch eq) v =
        let well = watch-keeps prefix ctx l.watcher v in rw eq at well
    Step-IsWell (clears l) v = record {
      sound = clear_nil_receivers-IsSound v.sound;
      distinct = v.distinct;
      settled = v.settled;
    }
    Step-IsWell (takes ch l) v = record {
      sound = take_event-IsSound ch v.sound;
      distinct = rw take_event-cacher v.distinct;
      settled = v.settled;
    }

    Run-IsWell : {key : Text} {table : T} {l : Loop T V} → Run key table l → IsWell l.watcher
    unfolding new_watcher new_sender new_cacher
    Run-IsWell made = record { sound = new_sender-IsSound none; distinct = tt; settled = refl }
    Run-IsWell (next r s) = Step-IsWell s (Run-IsWell r)

    -- If the converter neither panics nor makes data with a double key on the pairs that the store
    -- hands out: whatever happened since the watcher was made, its sender is sound, the keys of its
    -- cache are distinct, no key waits to be broadcast, and the next turn of `watchStore` returns a
    -- watcher of which the same holds.
    pub Run-Returns :
        (key : Text) (table : T) (l : Loop T V) (done : ℕ → Bool) (i : Input)
        → Run key table l
        → IsFed IsAccepted i
        → IsWell l.watcher × Returns (turn cv done l.phase i l.watcher) (λ l'. IsWell l'.watcher)
    Run-Returns key table l done i r fed = (
      Run-IsWell r,
      turn-IsWell cv IsAccepted handles done l.phase i l.watcher fed (Run-IsWell r),
    )
