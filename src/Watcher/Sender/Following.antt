-- ===== src/Watcher/Sender/Following.antt =====
-- watcher/sender.go and watcher/cacher.go: a client that takes its events, over many changes of the
-- cache.
use mathlib.Core.List.{Memᴰ}
use mathlib.Core.Path.{subst}
use lainlet.Base.{
  ℕ, ◌+◌, ◌≡◌, refl, ap, ◌∙◌, inl, inr, Bool, true, false, Option, some, List, [], ◌∷◌, ◌++◌, arith,
  ltb, Text, nat_eq, text_eq, Bool-cases, Result, ok, ◌>>=◌, >>=-eq-ok, Returns, Returns-eq-ok,
  length,
}
use lainlet.Base.{lookup}
use lainlet.Store.{Action}
use lainlet.Watcher.Cacher.{Cacher, Data, get}
use lainlet.Watcher.Sender.{Channel, Receiver, Sender, has_room, notify_all, broadcast, take_event}
use lainlet.Watcher.Sender.Safety.{IsOrderly, broadcast-IsSound, update_self}
use lainlet.Watcher.Sender.Reachable.{take_event-IsSound}
use lainlet.Watcher.Sender.Safety.{IsSound}
use lainlet.Watcher.Sender.{make_channel, watch}
use lainlet.Watcher.Sender.Reachable.{watch-IsSound}
use lainlet.Watcher.Sender.UpToDate.{last_sent, Agrees, DiffersAt, broadcast-Agrees}
use lainlet.Watcher.Sender.Keeping.{IsSame, notify_all-keeps}

-- A receiver with this key, context and channel
abbrev pub HasReceiver : Text → ℕ → ℕ → List (Option Receiver) → Type 0
HasReceiver key ctx ch rs =
    (r : Receiver) × Memᴰ (some r) rs × (r.key ≡ key) × (r.ctx ≡ ctx) × (r.ch ≡ ch)

-- What the loop of a watcher does for an event of the store: it writes the cache, and then it tells the
-- keys that it has changed.
pub record Round (V : Type 0) : Type 0 where
  pub cacher : Cacher V
  pub changed : List Text
  pub action : Action

module _ {V : Type 0} where
  -- Each round tells all the keys under which it has changed the cache.
  abbrev pub TellsAll : Cacher V → List (Round V) → Type 0
  TellsAll c [] = Unit {0}
  TellsAll c (round ∷ rounds) =
      DiffersAt round.changed c round.cacher × TellsAll round.cacher rounds

  abbrev pub last_cacher : Cacher V → List (Round V) → Cacher V
  last_cacher c [] = c
  last_cacher c (round ∷ rounds) = last_cacher round.cacher rounds

  take_event-keeps :
      (ch : ℕ) (s : Sender V)
      → IsOrderly (s.channels ch)
      → (((take_event ch s).channels ch).sent ≡ (s.channels ch).sent)
        × (has_room ((take_event ch s).channels ch) ≡ true)
        × ((take_event ch s).receivers ≡ s.receivers)
        × ((take_event ch s).cacher ≡ s.cacher)
  unfolding take_event
  take_event-keeps ch s (low, high, numbered) =
      let old = s.channels ch in
      let new : Channel V = record old { received = old.received + 1 } in
      elim (Bool-cases (ltb old.received (length old.sent))) [
        | inr empty ↦ rw (empty, take_event) (refl, ground arith, refl, refl)
        | inl unread ↦
            rw (unread, take_event)
              (
                ap (λ x. x.sent) (update_self s.channels ch new),
                ap has_room (update_self s.channels ch new) ∙ ground arith,
                refl,
                refl,
              )
      ]

  -- What holds between the rounds: the client has nothing unread, and knows what the cache has.
  abbrev pub IsUpToDate : Text → ℕ → ℕ → Data V → Cacher V → Sender V → Type 0
  IsUpToDate key ctx ch d c s =
      IsSound s
      × HasReceiver key ctx ch s.receivers
      × (has_room (s.channels ch) ≡ true)
      × Agrees (last_sent d (s.channels ch).sent) c key

  pub taken-IsUpToDate :
      (key : Text) (ctx ch : ℕ) (d : Data V) (c : Cacher V) (t : Sender V)
      → IsSound t
      → HasReceiver key ctx ch t.receivers
      → Agrees (last_sent d (t.channels ch).sent) c key
      → IsUpToDate key ctx ch d c (take_event ch t)
  taken-IsUpToDate key ctx ch d c t v (r, slot, key_is, ctx_is, ch_is) agrees =
      let (sent, room, receivers, cache) = take_event-keeps ch t (v.orderly ch) in
      (take_event-IsSound ch v, (r, rw receivers slot, key_is, ctx_is, ch_is), room, rw sent agrees)

module _ {V : Type 0} (done : ℕ → Bool) where
  -- Rounds, behind each of which the client of a channel takes an event, if there is one.
  unfoldable pub follow : (ch : ℕ) → List (Round V) → Sender V → Result (Sender V)
  follow ch [] s = ok s
  follow ch (round ∷ rounds) s =
      broadcast done round.changed round.action (record s { cacher = round.cacher })
      >>= (λ x. follow ch rounds (take_event ch x.0))

  broadcast-keeps :
      (changed : List Text) (action : Action) (s : Sender V) (r : Receiver) {x : Sender V × Bool}
      → done r.ctx ≡ false
      → Memᴰ (some r) s.receivers
      → broadcast done changed action s ≡ ok x
      → (q : Receiver) × Memᴰ (some q) x.0.receivers × IsSame q r
  unfolding broadcast
  broadcast-keeps changed action s r {x} live there e =
      let (y, ey, ex) =
        >>=-eq-ok (notify_all done s.cacher changed action s.channels s.receivers) _ e in
      let (q, slot, same) =
        notify_all-keeps done s.cacher changed action s.channels s.receivers r live there ey in
      (q, subst (λ l. Memᴰ (some q) l) {x = y.1} {y = x.0.receivers} (cc ex) slot, same)

  told-IsUpToDate :
      (changed : List Text) (action : Action) (s : Sender V) (c : Cacher V) (r : Receiver)
      (key : Text) (ctx ch : ℕ) (d : Data V) (x : Sender V × Bool)
      → IsSound s
      → Memᴰ (some r) s.receivers
      → (r.key ≡ key) × (r.ctx ≡ ctx) × (r.ch ≡ ch)
      → done ctx ≡ false
      → broadcast done changed action s ≡ ok x
      → Agrees (last_sent d (x.0.channels r.ch).sent) c r.key
      → IsUpToDate key ctx ch d c (take_event ch x.0)
  told-IsUpToDate changed action s c r key ctx ch d x v slot (key_is, ctx_is, ch_is) live e agreed =
      let (q, there, (k, o, h)) = broadcast-keeps changed action s r (rw ctx_is live) slot e in
      let sound : IsSound x.0 × (x.0.cacher ≡ s.cacher) =
        subst (λ y. Returns y (λ x. IsSound x.0 × (x.0.cacher ≡ s.cacher))) e
          (broadcast-IsSound done changed action s v) in
      taken-IsUpToDate key ctx ch d c x.0 sound.0 (q, there, k ∙ key_is, o ∙ ctx_is, h ∙ ch_is)
        (rw (key_is, ch_is) at agreed)

  pub round-IsUpToDate :
      (round : Round V) (s : Sender V) (c : Cacher V) (key : Text) (ctx ch : ℕ) (d : Data V)
      → done ctx ≡ false
      → DiffersAt round.changed c round.cacher
      → IsUpToDate key ctx ch d c s
      → Returns
          (broadcast done round.changed round.action (record s { cacher = round.cacher }))
          (λ x. IsUpToDate key ctx ch d round.cacher (take_event ch x.0))
  round-IsUpToDate round s c key ctx ch d live differs
        (v, (r, slot, key_is, ctx_is, ch_is), room, agrees) =
      let s1 : Sender V = record s { cacher = round.cacher } in
      let v1 : IsSound s1 = record { holds = v.holds; orderly = v.orderly } in
      let (x, e, agreed) = Returns-eq-ok (broadcast done round.changed round.action s1) _ (
        broadcast-Agrees done round.changed round.action c s1 r d v1 slot (rw ctx_is live)
          (rw ch_is room) differs (rw (key_is, ch_is) agrees)) in
      rw e (
        told-IsUpToDate round.changed round.action s1 round.cacher r key ctx ch d x v1 slot
          (key_is, ctx_is, ch_is) live e agreed)

  follow-IsUpToDate :
      (rounds : List (Round V)) (s : Sender V) (c : Cacher V) (key : Text) (ctx ch : ℕ) (d : Data V)
      → done ctx ≡ false
      → TellsAll c rounds
      → IsUpToDate key ctx ch d c s
      → Returns (follow ch rounds s) (IsUpToDate key ctx ch d (last_cacher c rounds))
  unfolding follow
  follow-IsUpToDate [] s c key ctx ch d live tells now = now
  follow-IsUpToDate (round ∷ rounds) s c key ctx ch d live (differs, tells) now =
      let (x, e, later) =
        Returns-eq-ok
          (broadcast done round.changed round.action (record s { cacher = round.cacher })) _
          (round-IsUpToDate round s c key ctx ch d live differs now) in
      rw e (follow-IsUpToDate rounds (take_event ch x.0) round.cacher key ctx ch d live tells later)

mem-last : {A : Type 0} (xs : List A) (x : A) → Memᴰ x (xs ++ x ∷ [])
mem-last [] x = Memᴰ.head refl
mem-last (y ∷ xs) x = Memᴰ.tail (mem-last xs x)

module _ {V : Type 0} where
  pub watch-IsUpToDate :
      (key : Text) (ctx : ℕ) (s : Sender V)
      → IsSound s
      → IsUpToDate key ctx (watch key ctx s).1 (get s.cacher key) s.cacher (watch key ctx s).0
  unfolding watch
  watch-IsUpToDate key ctx s v =
      let made = update_self s.channels s.fresh make_channel in
      (
        watch-IsSound key ctx v,
        (_, mem-last s.receivers _, refl, refl, refl),
        ap has_room made ∙ ground arith,
        (λ j. ap (λ x. lookup j (last_sent (get s.cacher key) x.sent)) made),
      )

module _ {V : Type 0} (done : ℕ → Bool) where
  -- No client that takes its events falls behind: from a sound sender, after a Watch whose context is
  -- not cancelled, and whatever rounds follow, of which each tells all the keys under which it has
  -- changed the cache: if the client begins with what `Get` of its key returned before the Watch, and
  -- takes an event, if there is one, behind each round, then nothing panics, and it ends with what `Get`
  -- of its key returns from the cache of the last round, key by key.
  pub watch-follow :
      (key : Text) (ctx : ℕ) (s : Sender V) (rounds : List (Round V))
      → IsSound s
      → done ctx ≡ false
      → TellsAll s.cacher rounds
      → let (t, ch) = watch key ctx s in
        Returns (follow done ch rounds t) (λ u.
          Agrees
            (last_sent (get s.cacher key) (u.channels ch).sent)
            (last_cacher s.cacher rounds)
            key)
  watch-follow key ctx s rounds v live tells =
      let (u, e, now) =
        Returns-eq-ok (follow done (watch key ctx s).1 rounds (watch key ctx s).0) _ (
          follow-IsUpToDate done rounds (watch key ctx s).0 s.cacher key ctx (watch key ctx s).1
            (get s.cacher key) live tells (watch-IsUpToDate key ctx s v)) in
      rw e now.3
