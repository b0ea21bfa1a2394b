-- ===== src/Watcher/Sender/Delivery.antt =====
-- watcher/sender.go: what one `Broadcast` does to the channel of each receiver.
use mathlib.Core.List.{Memᴰ}
use lainlet.Base.{
  ℕ, ◌≡◌, refl, sym, ap, ◌∙◌, ◌≢◌, inl, inr, Bool, true, false, ◌&&◌, Option, none, some, List, [],
  ◌∷◌, ◌++◌, arith, if◌then◌else◌, if_false, Text, nat_eq, text_eq, Bool-cases, Returns,
  Returns-eq-ok, any, has_prefix,
}
use lainlet.Store.{Action}
use lainlet.Watcher.Cacher.{Cacher, get}
use lainlet.Watcher.Sender.{
  Channel, Channels, Receiver, Sender, has_room, notify, notify_all, broadcast,
}
use lainlet.Watcher.Sender.Safety.{
  IsFree, HoldsOpen, IsSound, update_self, update_ne, HoldsOpen-frame,
}

IsFree-mem :
    (c : ℕ) (rs : List (Option Receiver)) (q : Receiver) → IsFree c rs → Memᴰ (some q) rs → q.ch ≢ c
IsFree-mem c [] q f m = elim m [ ]
IsFree-mem c (none ∷ rs) q f (Memᴰ.head e) = cc
IsFree-mem c (none ∷ rs) q f (Memᴰ.tail m) = IsFree-mem c rs q f m
IsFree-mem c (some r ∷ rs) q (ne, f) (Memᴰ.head e) = ground arith
IsFree-mem c (some r ∷ rs) q (ne, f) (Memᴰ.tail m) = IsFree-mem c rs q f m

mem_past_nil :
    {r : Receiver} {rs : List (Option Receiver)} → Memᴰ (some r) (none ∷ rs) → Memᴰ (some r) rs
mem_past_nil (Memᴰ.head e) = cc
mem_past_nil (Memᴰ.tail m) = m

module _ {V : Type 0} (done : ℕ → Bool) (cacher : Cacher V) (changed : List Text)
    (action : Action) where
  -- What becomes of a receiver's channel, told for the one receiver alone.
  unfoldable pub delivered : Receiver → Channel V → Channel V
  delivered r c =
      if done r.ctx
      then record c { closed = true }
      else if any (λ k. has_prefix k r.key) changed && has_room c
      then record c {
        sent =
            c.sent ++ record { id = r.counter; action = action; content = get cacher r.key } ∷ [];
      }
      else c

  abbrev Outcome : Channels V → Receiver → Channels V × Option Receiver → Type 0
  Outcome h r x = (x.0 r.ch ≡ delivered r (h r.ch)) × ((c : ℕ) → c ≢ r.ch → x.0 c ≡ h c)

  pub delivered_kept :
      (r : Receiver) (c : Channel V)
      → done r.ctx ≡ false
      → (any (λ k. has_prefix k r.key) changed && has_room c) ≡ false
      → delivered r c ≡ c
  unfolding delivered
  delivered_kept r c live quiet = rw (live, quiet)

  delivered_gone :
      (r : Receiver) (c : Channel V)
      → done r.ctx ≡ true
      → delivered r c ≡ record c { closed = true }
  unfolding delivered
  delivered_gone r c gone = rw gone

  pub delivered_sent :
      (r : Receiver) (c : Channel V)
      → done r.ctx ≡ false
      → any (λ k. has_prefix k r.key) changed ≡ true
      → has_room c ≡ true
      → delivered r c ≡ record c {
        sent =
            c.sent ++ record { id = r.counter; action = action; content = get cacher r.key } ∷ [];
      }
  unfolding delivered
  delivered_sent r c live hit room = rw (live, hit, room)

  notify-Outcome :
      (h : Channels V) (r : Receiver)
      → (h r.ch).closed ≡ false
      → Returns (notify done cacher changed action h r) (Outcome h r)
  unfolding notify
  notify-Outcome h r opened = elim (Bool-cases (done r.ctx)) [
    | inl gone ↦
        rw (gone, opened, notify)
          (
            update_self h r.ch _ ∙ sym (delivered_gone r (h r.ch) gone),
            (λ c ne. update_ne h r.ch _ c ne),
          )
    | inr live ↦ elim (Bool-cases (any (λ k. has_prefix k r.key) changed)) [
      | inr quiet ↦
          rw (live, quiet, notify)
            (sym (delivered_kept r (h r.ch) live (ground arith)), (λ c ne. refl))
      | inl hit ↦ elim (Bool-cases (has_room (h r.ch))) [
        | inr full ↦
            rw (live, hit, if_false (h r.ch).closed _ _ opened, full, notify)
              (sym (delivered_kept r (h r.ch) live (ground arith)), (λ c ne. refl))
        | inl room ↦
            rw (live, hit, if_false (h r.ch).closed _ _ opened, room, notify)
              (
                update_self h r.ch _ ∙ sym (delivered_sent r (h r.ch) live hit room),
                (λ c ne. update_ne h r.ch _ c ne),
              )
      ]
    ]
  ]

  -- Every live receiver is served once, by its own part of the loop; all other channels stay.
  abbrev Served : Channels V → List (Option Receiver) → Channels V → Type 0
  Served h rs h' =
      ((r : Receiver) → Memᴰ (some r) rs → h' r.ch ≡ delivered r (h r.ch))
      × ((c : ℕ) → IsFree c rs → h' c ≡ h c)

  Served-cons :
      (h : Channels V) (r : Receiver) (rs : List (Option Receiver))
      (x : Channels V × Option Receiver) (h' : Channels V)
      → IsFree r.ch rs
      → Outcome h r x
      → Served x.0 rs h'
      → Served h (some r ∷ rs) h'
  Served-cons h r rs x h' own (here, frame) (served, rest) =
      (served_at, λ c f. rest c f.1 ∙ frame c (λ e. f.0 (sym e)))
    where
      served_at : (q : Receiver) → Memᴰ (some q) (some r ∷ rs) → h' q.ch ≡ delivered q (h q.ch)
      served_at q (Memᴰ.head e) = let e' : q ≡ r = cc in rw e' (rest r.ch own ∙ here)
      served_at q (Memᴰ.tail m) =
          served q m ∙ ap (delivered q) (frame q.ch (IsFree-mem r.ch rs q own m))

  notify_all-Served :
      (fresh : ℕ) (h : Channels V) (rs : List (Option Receiver))
      → HoldsOpen h fresh rs
      → Returns (notify_all done cacher changed action h rs) (λ y. Served h rs y.0)
  unfolding notify_all
  notify_all-Served fresh h [] k = ((λ r m. elim m [ ]), (λ c _. refl))
  notify_all-Served fresh h (none ∷ rs) k =
      let (y, ey, m) =
        Returns-eq-ok (notify_all done cacher changed action h rs) (λ y. Served h rs y.0)
          (notify_all-Served fresh h rs k) in
      rw ey ((λ r w. m.0 r (mem_past_nil w)), m.1)
  notify_all-Served fresh h (some r ∷ rs) (lt, served, own, k) =
      let (x, ex, n) =
        Returns-eq-ok (notify done cacher changed action h r) (Outcome h r)
          (notify-Outcome h r served.0) in
      let (y, ey, m) =
        Returns-eq-ok (notify_all done cacher changed action x.0 rs) (λ y. Served x.0 rs y.0)
          (notify_all-Served fresh x.0 rs (HoldsOpen-frame h x.0 fresh r.ch rs n.1 own k)) in
      rw (ex, ey) (Served-cons h r rs x y.0 own n m)

module _ {V : Type 0} where
  -- From a sound sender `Broadcast` returns, and what it does to the channel of each live receiver
  -- does not depend on the other receivers: the channel is closed if the receiver's context is
  -- cancelled; otherwise, if a changed key starts with the receiver's key and nothing is unread, one
  -- event is sent, with the receiver's counter and what the cache holds for the receiver's key;
  -- otherwise nothing happens to it. A channel that no live receiver has stays as it was.
  pub broadcast-delivered :
      (done : ℕ → Bool) (changed : List Text) (action : Action) (s : Sender V)
      → IsSound s
      → Returns (broadcast done changed action s) (λ x.
        ((r : Receiver)
          → Memᴰ (some r) s.receivers
          → x.0.channels r.ch ≡ delivered done s.cacher changed action r (s.channels r.ch))
        × ((c : ℕ) → IsFree c s.receivers → x.0.channels c ≡ s.channels c))
  unfolding broadcast
  broadcast-delivered done changed action s v =
      let (y, ey, m) =
        Returns-eq-ok (notify_all done s.cacher changed action s.channels s.receivers)
          (λ y. Served done s.cacher changed action s.channels s.receivers y.0)
          (notify_all-Served done s.cacher changed action s.fresh s.channels s.receivers v.holds) in
      rw ey m
