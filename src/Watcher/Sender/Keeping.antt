-- ===== src/Watcher/Sender/Keeping.antt =====
-- watcher/sender.go: that `Broadcast` keeps the receivers whose contexts are not cancelled.
use mathlib.Core.List.{Memᴰ}
use mathlib.Core.Path.{subst}
use lainlet.Base.{
  ℕ, ◌+◌, ◌%◌, ◌^◌, ◌≡◌, refl, sym, inl, inr, Bool, false, Option, none, some, List, [], ◌∷◌, Text,
  nat_eq, text_eq, Bool-cases, ok, >>=-eq-ok, any, has_prefix,
}
use lainlet.Store.{Action}
use lainlet.Watcher.Cacher.{Cacher}
use lainlet.Watcher.Sender.{Channels, Receiver, has_room, notify, notify_all}

-- Two states of one receiver.
abbrev pub IsSame : Receiver → Receiver → Type 0
IsSame q r = (q.key ≡ r.key) × (q.ctx ≡ r.ctx) × (q.ch ≡ r.ch)

module _ {V : Type 0} (done : ℕ → Bool) (cacher : Cacher V) (changed : List Text)
    (action : Action) where
  notify-IsSame :
      (h : Channels V) (r : Receiver) {x : Channels V × Option Receiver}
      → done r.ctx ≡ false
      → notify done cacher changed action h r ≡ ok x
      → (q : Receiver) × (x.1 ≡ some q) × IsSame q r
  unfolding notify
  notify-IsSame h r live e = elim (Bool-cases (any (λ k. has_prefix k r.key) changed)) [
    | inr quiet ↦ (r, cc (rw (notify, live, quiet) at e), (refl, refl, refl))
    | inl touched ↦ elim (Bool-cases (h r.ch).closed) [
      | inl shut ↦ cc (rw (notify, live, touched, shut) at e)
      | inr opened ↦ elim (Bool-cases (has_room (h r.ch))) [
        | inl room ↦ (
          record r { counter = (r.counter + 1) % 2 ^ 64 },
          cc (rw (notify, live, touched, opened, room) at e),
          (refl, refl, refl),
        )
        | inr full ↦ (r, cc (rw (notify, live, touched, opened, full) at e), (refl, refl, refl))
      ]
    ]
  ]

  pub notify_all-keeps :
      (h : Channels V) (rs : List (Option Receiver)) (r : Receiver)
      {y : Channels V × List (Option Receiver) × ℕ}
      → done r.ctx ≡ false
      → Memᴰ (some r) rs
      → notify_all done cacher changed action h rs ≡ ok y
      → (q : Receiver) × Memᴰ (some q) y.1 × IsSame q r
  unfolding notify_all
  notify_all-keeps h [] r live there e = elim there [ ]
  notify_all-keeps h (none ∷ rs) r live (Memᴰ.head q) e = cc q
  notify_all-keeps h (none ∷ rs) r {y} live (Memᴰ.tail m) e =
      let (x, ex, ey) = >>=-eq-ok (notify_all done cacher changed action h rs) _ e in
      let (q, there, same) = notify_all-keeps h rs r live m ex in
      (q, subst (λ l. Memᴰ (some q) l) {x = none ∷ x.1} {y = y.1} (cc ey) (Memᴰ.tail there), same)
  notify_all-keeps h (some p ∷ rs) r {y} live (Memᴰ.head own) e =
      let (x, ex, er) = >>=-eq-ok (notify done cacher changed action h p) _ e in
      let (z, ez, ey) = >>=-eq-ok (notify_all done cacher changed action x.0 rs) _ er in
      let here : r ≡ p = cc own in
      let (q, slot, same) = notify-IsSame h p (rw here at live) ex in
      (
        q,
        subst (λ l. Memᴰ (some q) l) {x = x.1 ∷ z.1} {y = y.1} (cc ey) (Memᴰ.head (sym slot)),
        rw here same,
      )
  notify_all-keeps h (some p ∷ rs) r {y} live (Memᴰ.tail m) e =
      let (x, ex, er) = >>=-eq-ok (notify done cacher changed action h p) _ e in
      let (z, ez, ey) = >>=-eq-ok (notify_all done cacher changed action x.0 rs) _ er in
      let (q, there, same) = notify_all-keeps x.0 rs r live m ez in
      (q, subst (λ l. Memᴰ (some q) l) {x = x.1 ∷ z.1} {y = y.1} (cc ey) (Memᴰ.tail there), same)
