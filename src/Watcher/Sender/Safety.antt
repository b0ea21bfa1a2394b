-- ===== src/Watcher/Sender/Safety.antt =====
-- watcher/sender.go: no send on a closed channel, no channel closed twice, at most one unread event.
use lainlet.Base.{
  ℕ, suc, ◌+◌, ◌%◌, ◌^◌, ◌≤◌, ◌<◌, ◌≡◌, refl, sym, ◌∙◌, ◌≢◌, inl, inr, Bool, false, Option, none,
  some, List, [], ◌∷◌, ◌++◌, arith, Text, nat_eq, text_eq, Bool-cases, Returns, Returns-eq-ok,
  length, any, length-append, has_prefix, ℕ_discrete,
}
use lainlet.Store.{Action}
use lainlet.Watcher.Cacher.{Cacher}
use lainlet.Watcher.Sender.{
  Event, Channel, Channels, Receiver, Sender, update, has_room, notify, notify_all, broadcast,
}

-- No receiver of the list has the channel.
abbrev pub IsFree : ℕ → List (Option Receiver) → Type 0
IsFree c [] = Unit
IsFree c (none ∷ rs) = IsFree c rs
IsFree c (some r ∷ rs) = (r.ch ≢ c) × IsFree c rs

-- The events carry the numbers n, n + 1, …, as a uint64 counts them.
abbrev pub Numbered : {V : Type 0} → ℕ → List (Event V) → Type 0
Numbered n [] = Unit
Numbered n (e ∷ es) = (e.id ≡ n % 2 ^ 64) × Numbered (suc n) es

-- At most one event is unread, and the events that were sent are numbered from 2 on.
abbrev pub IsOrderly : {V : Type 0} → Channel V → Type 0
IsOrderly c = (c.received ≤ length c.sent) × (length c.sent ≤ c.received + 1) × Numbered 2 c.sent

-- The channel of a live receiver.
abbrev pub IsServed : {V : Type 0} → Channel V → Receiver → Type 0
IsServed c r = (c.closed ≡ false) × (r.counter ≡ (2 + length c.sent) % 2 ^ 64)

-- The receivers hold channels that were made, are open, and belong to one receiver each; the counter
-- of a receiver is the number of its next event.
abbrev pub HoldsOpen : {V : Type 0} → Channels V → ℕ → List (Option Receiver) → Type 0
HoldsOpen h fresh [] = Unit
HoldsOpen h fresh (none ∷ rs) = HoldsOpen h fresh rs
HoldsOpen h fresh (some r ∷ rs) =
    (r.ch < fresh) × IsServed (h r.ch) r × IsFree r.ch rs × HoldsOpen h fresh rs

pub record IsSound {V : Type 0} (s : Sender V) : Type 0 where
  pub holds : HoldsOpen s.channels s.fresh s.receivers
  pub orderly : (c : ℕ) → IsOrderly (s.channels c)

module _ {V : Type 0} where
  pub HoldsOpen-frame :
      (h h' : Channels V) (fresh c : ℕ) (rs : List (Option Receiver))
      → ((d : ℕ) → d ≢ c → h' d ≡ h d)
      → IsFree c rs
      → HoldsOpen h fresh rs
      → HoldsOpen h' fresh rs
  HoldsOpen-frame h h' fresh c [] same free k = tt
  HoldsOpen-frame h h' fresh c (none ∷ rs) same free k = HoldsOpen-frame h h' fresh c rs same free k
  HoldsOpen-frame h h' fresh c (some r ∷ rs) same (ne, free) (lt, opened, own, k) =
      (lt, rw (same r.ch ne) opened, own, HoldsOpen-frame h h' fresh c rs same free k)

  pub update_self : (h : Channels V) (c : ℕ) (x : Channel V) → update h c x c ≡ x
  unfolding update
  update_self h c x = ground arith

  pub update_ne : (h : Channels V) (c : ℕ) (x : Channel V) (d : ℕ) → d ≢ c → update h c x d ≡ h d
  unfolding update
  update_ne h c x d ne = ground arith

  Numbered-append :
      (n : ℕ) (es : List (Event V)) (e : Event V)
      → Numbered n es
      → e.id ≡ (n + length es) % 2 ^ 64
      → Numbered n (es ++ e ∷ [])
  Numbered-append n [] e k h = (omega (arith, h), tt)
  Numbered-append n (f ∷ es) e (p, k) h = (p, Numbered-append (suc n) es e k (omega (arith, h)))

  IsServed-next :
      (es : List (Event V)) (e : Event V) (c : ℕ)
      → c ≡ (2 + length es) % 2 ^ 64
      → (c + 1) % 2 ^ 64 ≡ (2 + length (es ++ e ∷ [])) % 2 ^ 64
  IsServed-next es e c h = omega (arith, length-append es (e ∷ []))

  -- What `notify` leaves behind at the receiver's own channel and elsewhere.
  abbrev Notified : Channels V → Receiver → Channels V × Option Receiver → Type 0
  Notified h r x =
      ((c : ℕ) → c ≢ r.ch → x.0 c ≡ h c)
      × (elim x.1 [ none ↦ Unit {0} | some r' ↦ (r'.ch ≡ r.ch) × IsServed (x.0 r.ch) r' ])
      × IsOrderly (x.0 r.ch)

  notify-Notified :
      (done : ℕ → Bool) (cacher : Cacher V) (changed : List Text) (action : Action) (h : Channels V)
      (r : Receiver)
      → IsServed (h r.ch) r
      → IsOrderly (h r.ch)
      → Returns (notify done cacher changed action h r) (Notified h r)
  unfolding notify
  notify-Notified done cacher changed action h r (opened, count) fits =
      elim (Bool-cases (done r.ctx)) [
        | inl gone ↦
            rw (gone, opened, notify) ((λ c ne. update_ne h r.ch _ c ne), tt, rw update_self fits)
        | inr live ↦ elim (Bool-cases (any (λ k. has_prefix k r.key) changed)) [
          | inr quiet ↦ rw (live, quiet, notify) ((λ c ne. refl), (refl, (opened, count)), fits)
          | inl hit ↦ elim (Bool-cases (has_room (h r.ch))) [
            | inr full ↦
                rw (live, hit, opened, full, notify) ((λ c ne. refl), (refl, (opened, count)), fits)
            | inl room ↦
                rw (live, hit, opened, room, notify)
                  (
                    (λ c ne. update_ne h r.ch _ c ne),
                    (refl, rw update_self (refl, IsServed-next (h r.ch).sent _ r.counter count)),
                    rw update_self (
                      grind (arith, length-append),
                      grind (arith, length-append),
                      Numbered-append 2 (h r.ch).sent _ fits.2 count,
                    ),
                  )
          ]
        ]
      ]

  -- What the loop of `Broadcast` leaves behind.
  abbrev NotifiedAll :
      Channels V → ℕ → List (Option Receiver) → Channels V × List (Option Receiver) × ℕ → Type 0
  NotifiedAll h fresh rs x =
      HoldsOpen x.0 fresh x.1
      × ((c : ℕ) → IsFree c rs → x.0 c ≡ h c)
      × ((c : ℕ) → IsFree c rs → IsFree c x.1)
      × ((c : ℕ) → IsOrderly (x.0 c))

  Notified-capacity :
      (h : Channels V) (r : Receiver) (x : Channels V × Option Receiver)
      → Notified h r x
      → ((c : ℕ) → IsOrderly (h c))
      → (c : ℕ) → IsOrderly (x.0 c)
  Notified-capacity h r x n fits c = elim (ℕ_discrete c r.ch) [
    | yes e ↦ rw e n.2
    | no ne ↦ rw (n.0 c ne) (fits c)
  ]

  -- One more receiver in front of those that the loop has yet to visit.
  NotifiedAll-cons :
      (h : Channels V) (fresh : ℕ) (r : Receiver) (rs : List (Option Receiver))
      (x : Channels V × Option Receiver) (y : Channels V × List (Option Receiver) × ℕ)
      → r.ch < fresh
      → IsFree r.ch rs
      → Notified h r x
      → NotifiedAll x.0 fresh rs y
      → NotifiedAll h fresh (some r ∷ rs) (y.0, x.1 ∷ y.1, y.2)
  NotifiedAll-cons h fresh r rs (h', none) (h'', slots, nils) lt own n m =
      (m.0, (λ c f. m.1 c f.1 ∙ n.0 c (λ e. f.0 (sym e))), (λ c f. m.2 c f.1), m.3)
  NotifiedAll-cons h fresh r rs (h', some r') (h'', slots, nils) lt own n m = (
    (rw n.1.0 lt, rw n.1.0 (rw (m.1 r.ch own) n.1.1), rw n.1.0 (m.2 r.ch own), m.0),
    (λ c f. m.1 c f.1 ∙ n.0 c (λ e. f.0 (sym e))),
    (λ c f. (rw n.1.0 f.0, m.2 c f.1)),
    m.3,
  )

  notify_all-NotifiedAll :
      (done : ℕ → Bool) (cacher : Cacher V) (changed : List Text) (action : Action) (fresh : ℕ)
      (h : Channels V) (rs : List (Option Receiver))
      → HoldsOpen h fresh rs
      → ((c : ℕ) → IsOrderly (h c))
      → Returns (notify_all done cacher changed action h rs) (NotifiedAll h fresh rs)
  unfolding notify_all
  notify_all-NotifiedAll done cacher changed action fresh h [] k fits =
      (tt, (λ c _. refl), (λ c _. tt), fits)
  notify_all-NotifiedAll done cacher changed action fresh h (none ∷ rs) k fits =
      let (y, ey, m) =
        Returns-eq-ok (notify_all done cacher changed action h rs) (NotifiedAll h fresh rs)
          (notify_all-NotifiedAll done cacher changed action fresh h rs k fits) in
      rw ey m
  notify_all-NotifiedAll done cacher changed action fresh h (some r ∷ rs) (lt, opened, own, k)
        fits =
      let (x, ex, n) =
        Returns-eq-ok (notify done cacher changed action h r) (Notified h r)
          (notify-Notified done cacher changed action h r opened (fits r.ch)) in
      let fits' : (c : ℕ) → IsOrderly (x.0 c) = Notified-capacity h r x n fits in
      let (y, ey, m) =
        Returns-eq-ok (notify_all done cacher changed action x.0 rs) (NotifiedAll x.0 fresh rs) (
          notify_all-NotifiedAll done cacher changed action fresh x.0 rs
            (HoldsOpen-frame h x.0 fresh r.ch rs n.0 own k) fits') in
      rw (ex, ey) (NotifiedAll-cons h fresh r rs x y lt own n m)

  -- From a sound sender `Broadcast` returns: it sends on no closed channel and closes none twice.
  -- The sender that it leaves is sound, with the same cache.
  pub broadcast-IsSound :
      (done : ℕ → Bool) (changed : List Text) (action : Action) (s : Sender V)
      → IsSound s
      → Returns (broadcast done changed action s) (λ x. IsSound x.0 × (x.0.cacher ≡ s.cacher))
  unfolding broadcast
  broadcast-IsSound done changed action s v =
      let (x, ex, n) =
        Returns-eq-ok (notify_all done s.cacher changed action s.channels s.receivers)
          (NotifiedAll s.channels s.fresh s.receivers)
          (notify_all-NotifiedAll done s.cacher changed action s.fresh s.channels s.receivers
            v.holds v.orderly) in
      rw ex (record { holds = n.0; orderly = n.3 }, refl)
