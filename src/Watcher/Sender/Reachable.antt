-- ===== src/Watcher/Sender/Reachable.antt =====
-- watcher/sender.go: every interleaving of the sender's operations, of the consumers' reads and of
-- writes to the cache, from a new sender on.
use lainlet.Base.{
  ℕ, ◌+◌, ◌≡◌, refl, ◌≢◌, inl, inr, Bool, Option, none, some, List, [], ◌∷◌, ◌++◌, arith, ltb, Text,
  nat_eq, text_eq, Bool-cases, ok, Returns, length, ℕ_discrete,
}
use lainlet.Store.{Action}
use lainlet.Watcher.Cacher.{Data, Cacher}
use lainlet.Watcher.Sender.{
  Channel, Channels, Receiver, Sender, update, make_channel, new_sender, broadcast, watch,
  live_slots, clear_nil_receivers, take_event,
}
use lainlet.Watcher.Sender.Safety.{
  IsFree, HoldsOpen, IsOrderly, IsSound, update_self, update_ne, broadcast-IsSound,
}

module _ {V : Type 0} where
  -- One atomic step; the contexts that are cancelled, the keys and the contents of the cache are
  -- the environment's choice.
  pub data Step : Sender V → Sender V → Type 0 where
    broadcasts :
        (done : ℕ → Bool) (changed : List Text) (action : Action) (s t : Sender V) (clear : Bool)
        → broadcast done changed action s ≡ ok (t, clear)
        → Step s t
    watches : (key : Text) (ctx : ℕ) (s : Sender V) → Step s (watch key ctx s).0
    clears : (s : Sender V) → Step s (clear_nil_receivers s)
    reads : (c : ℕ) (s : Sender V) → Step s (take_event c s)
    writes : (c : Cacher V) (s : Sender V) → Step s (record s { cacher = c })

  pub data Reach (s : Sender V) : Sender V → Type 0 where
    here : Reach s s
    next : {t u : Sender V} → Reach s t → Step t u → Reach s u

  IsFree-fresh :
      (h : Channels V) (fresh : ℕ) (rs : List (Option Receiver))
      → HoldsOpen h fresh rs
      → IsFree fresh rs
  IsFree-fresh h fresh [] k = tt
  IsFree-fresh h fresh (none ∷ rs) k = IsFree-fresh h fresh rs k
  IsFree-fresh h fresh (some r ∷ rs) (lt, _, _, k) = (omega arith, IsFree-fresh h fresh rs k)

IsFree-append :
    (c : ℕ) (rs : List (Option Receiver)) (r : Receiver)
    → IsFree c rs
    → r.ch ≢ c
    → IsFree c (rs ++ some r ∷ [])
IsFree-append c [] r f ne = (ne, tt)
IsFree-append c (none ∷ rs) r f ne = IsFree-append c rs r f ne
IsFree-append c (some q ∷ rs) r (n, f) ne = (n, IsFree-append c rs r f ne)

IsFree-live_slots : (c : ℕ) (rs : List (Option Receiver)) → IsFree c rs → IsFree c (live_slots rs)
unfolding live_slots
IsFree-live_slots c [] f = tt
IsFree-live_slots c (none ∷ rs) f = IsFree-live_slots c rs f
IsFree-live_slots c (some r ∷ rs) (n, f) = (n, IsFree-live_slots c rs f)

module _ {V : Type 0} where
  HoldsOpen-watch :
      (h : Channels V) (fresh : ℕ) (rs : List (Option Receiver)) (r : Receiver)
      → r.ch ≡ fresh
      → r.counter ≡ 2
      → HoldsOpen h fresh rs
      → HoldsOpen (update h fresh make_channel) (fresh + 1) (rs ++ some r ∷ [])
  HoldsOpen-watch h fresh [] r e two k = (omega arith, rw (e, update_self) (refl, two), tt, tt)
  HoldsOpen-watch h fresh (none ∷ rs) r e two k = HoldsOpen-watch h fresh rs r e two k
  HoldsOpen-watch h fresh (some q ∷ rs) r e two (lt, served, own, k) = (
    omega arith,
    rw (update_ne h fresh make_channel q.ch (omega arith)) served,
    IsFree-append q.ch rs r own (omega arith),
    HoldsOpen-watch h fresh rs r e two k,
  )

  HoldsOpen-live_slots :
      (h : Channels V) (fresh : ℕ) (rs : List (Option Receiver))
      → HoldsOpen h fresh rs
      → HoldsOpen h fresh (live_slots rs)
  unfolding live_slots
  HoldsOpen-live_slots h fresh [] k = tt
  HoldsOpen-live_slots h fresh (none ∷ rs) k = HoldsOpen-live_slots h fresh rs k
  HoldsOpen-live_slots h fresh (some r ∷ rs) (lt, served, own, k) =
      (lt, served, IsFree-live_slots r.ch rs own, HoldsOpen-live_slots h fresh rs k)

  HoldsOpen-same :
      (h h' : Channels V) (fresh : ℕ) (rs : List (Option Receiver))
      → ((c : ℕ) → ((h' c).closed ≡ (h c).closed) × ((h' c).sent ≡ (h c).sent))
      → HoldsOpen h fresh rs
      → HoldsOpen h' fresh rs
  HoldsOpen-same h h' fresh [] same k = tt
  HoldsOpen-same h h' fresh (none ∷ rs) same k = HoldsOpen-same h h' fresh rs same k
  HoldsOpen-same h h' fresh (some r ∷ rs) same (lt, served, own, k) =
      (lt, rw ((same r.ch).0, (same r.ch).1) served, own, HoldsOpen-same h h' fresh rs same k)

  pub watch-IsSound :
      (key : Text) (ctx : ℕ) {s : Sender V} → IsSound s → IsSound (watch key ctx s).0
  unfolding watch
  watch-IsSound key ctx {s} v = record {
    holds = HoldsOpen-watch s.channels s.fresh s.receivers _ refl refl v.holds;
    orderly = λ c. elim (ℕ_discrete c s.fresh) [
      | yes e ↦ rw (e, update_self) (omega arith)
      | no ne ↦ rw (update_ne s.channels s.fresh make_channel c ne) (v.orderly c)
    ];
  }

  pub clear_nil_receivers-IsSound : {s : Sender V} → IsSound s → IsSound (clear_nil_receivers s)
  unfolding clear_nil_receivers
  clear_nil_receivers-IsSound {s} v = record {
    holds = HoldsOpen-live_slots s.channels s.fresh s.receivers v.holds;
    orderly = v.orderly;
  }

  pub take_event-IsSound : (c : ℕ) {s : Sender V} → IsSound s → IsSound (take_event c s)
  unfolding take_event
  take_event-IsSound c {s} v =
      let old = s.channels c in
      let new : Channel V = record old { received = old.received + 1 } in
      elim (Bool-cases (ltb old.received (length old.sent))) [
        | inr empty ↦ rw (empty, take_event) v
        | inl some_left ↦
            rw (some_left, take_event)
              (record {
                holds =
                    HoldsOpen-same s.channels (update s.channels c new) s.fresh s.receivers
                      (λ d. elim (ℕ_discrete d c) [
                        | yes e ↦ rw (e, update_self) (refl, refl)
                        | no ne ↦ rw (update_ne s.channels c new d ne) (refl, refl)
                      ])
                      v.holds;
                orderly = λ d. elim (ℕ_discrete d c) [
                  | yes e ↦ rw (e, update_self) (ground (arith, v.orderly c))
                  | no ne ↦ rw (update_ne s.channels c new d ne) (v.orderly d)
                ];
              })
      ]

  pub new_sender-IsSound : (m : Option (Data V)) → IsSound (new_sender m)
  unfolding new_sender
  new_sender-IsSound m = record { holds = tt; orderly = λ c. omega arith }

  Step-IsSound : {s t : Sender V} → Step s t → IsSound s → IsSound t
  Step-IsSound (broadcasts done changed action s t clear e) v =
      (rw e at (broadcast-IsSound done changed action s v)).0
  Step-IsSound (watches key ctx s) v = watch-IsSound key ctx v
  Step-IsSound (clears s) v = clear_nil_receivers-IsSound v
  Step-IsSound (reads c s) v = take_event-IsSound c v
  Step-IsSound (writes c s) v = record { holds = v.holds; orderly = v.orderly }

  pub Reach-IsSound : {s t : Sender V} → IsSound s → Reach s t → IsSound t
  Reach-IsSound v here = v
  Reach-IsSound v (next r st) = Step-IsSound st (Reach-IsSound v r)

  -- Whatever the operations since the sender was made, and in whatever order: the next `Broadcast`
  -- returns, no channel holds more than one unread event, and the events sent on a channel are
  -- numbered 2, 3, … without a gap, as a uint64 counts.
  pub reachable-Returns :
      (m : Option (Data V)) (s : Sender V) (done : ℕ → Bool) (changed : List Text) (action : Action)
      → Reach (new_sender m) s
      → Returns (broadcast done changed action s) (λ x. IsSound x.0 × (x.0.cacher ≡ s.cacher))
        × ((c : ℕ) → IsOrderly (s.channels c))
  reachable-Returns m s done changed action r =
      let v = Reach-IsSound (new_sender-IsSound m) r in
      (broadcast-IsSound done changed action s v, v.orderly)
