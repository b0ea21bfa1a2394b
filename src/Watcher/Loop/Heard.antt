-- ===== src/Watcher/Loop/Heard.antt =====
-- watcher/watcher.go and watcher/sender.go: what a client that takes its events hears of the events of
-- the store.
use lainlet.Base.{
  ℕ, ◌≡◌, refl, sym, ap, ◌∙◌, ◌≢◌, inl, inr, Bool, true, false, List, [], ◌∷◌, ◌++◌, arith, Text,
  nat_eq, text_eq, Result, ok, err, panic, ◌>>=◌, Returns, Returns-eq-ok, contains, has_prefix, All,
}
use lainlet.Base.{lookup, keys, IsMap, contains-keys}
use lainlet.Store.{KvPair, Action, Event}
use lainlet.Watcher.Cacher
use lainlet.Watcher.Cacher.{Data, Cacher}
use lainlet.Watcher.Sender
use lainlet.Watcher.Sender.{Sender, take_event}
use lainlet.Watcher.Sender.Safety.{IsSound, broadcast-IsSound}
use lainlet.Watcher.Sender.UpToDate.{last_sent, Agrees, DiffersAt}
use lainlet.Watcher.Sender.Following.{
  Round, IsUpToDate, taken-IsUpToDate, round-IsUpToDate, watch-IsUpToDate,
}
use lainlet.Watcher.Loop.{
  Converter, Watcher, with_cacher, put_all, delete_all, broadcast, apply_update, after_convert,
  on_update, on_delete, on_event,
}
use lainlet.Watcher.Loop.Events.{
  lookup-delete_all, IsMonotone, kept, noted, on_event-on_update, on_event-on_delete,
}
use lainlet.Watcher.Loop.Told.{
  contains-append, put_all-DiffersAt, contains-delete_all, put_all-keys, delete_all-keys,
}

take_event-cacher : {V : Type 0} (ch : ℕ) (s : Sender V) → (take_event ch s).cacher ≡ s.cacher
unfolding take_event
take_event-cacher ch s = ground arith

-- A conversion that does not panic, and makes data with distinct keys of some kind.
abbrev pub IsKeyed : {V : Type 0} → (Text → Type 0) → Result (Data V) → Type 0
IsKeyed IsKey panic = ⊥
IsKeyed IsKey (err m) = Unit {0}
IsKeyed IsKey (ok m) = IsMap m × ((j : Text) → contains j (keys m) ≡ true → IsKey j)

module _ {T V : Type 0} (cv : Converter T V) (done : ℕ → Bool) where
  -- Events of the store, behind each of which the client of a channel takes an event, if there is one.
  unfoldable pub hear : (ch : ℕ) → List (ℕ × Event) → Watcher T V → Result (Watcher T V)
  hear ch [] w = ok w
  hear ch ((now, e) ∷ es) w =
      on_event cv done now e w
      >>= (λ w'. hear ch es (record w' { sender = take_event ch w'.sender }))

  module _ (IsKey : Text → Type 0) (key : Text) (ctx ch : ℕ) (d : Data V)
      (live : done ctx ≡ false) where
    -- The client has nothing unread and knows what the cache has, whose keys are of the kind.
    abbrev pub IsHeard : Watcher T V → Sender V → Type 0
    IsHeard w s =
        IsUpToDate key ctx ch d w.sender.cacher s
        × ((j : Text) → contains j (keys w.sender.cacher.entries) ≡ true → IsKey j)

    told-IsHeard :
        (ks : List Text) (action : Action) (w : Watcher T V) (c' : Cacher V)
        → DiffersAt ks w.sender.cacher c'
        → ((j : Text) → contains j (keys c'.entries) ≡ true → IsKey j)
        → IsUpToDate key ctx ch d w.sender.cacher w.sender
        → Returns
            (broadcast cv done ks action (with_cacher w c'))
            (λ w'. IsHeard w' (take_event ch w'.sender))
    unfolding broadcast
    told-IsHeard ks action w c' differs kind now =
        let s1 : Sender V = record w.sender { cacher = c' } in
        let round : Round V = record { cacher = c'; changed = ks; action = action } in
        let (x, ex, later) =
          Returns-eq-ok (Sender.broadcast done ks action s1) _
            (round-IsUpToDate done round w.sender w.sender.cacher key ctx ch d live differs now) in
        let (y, ey, sound) = Returns-eq-ok (Sender.broadcast done ks action s1) _ (
          broadcast-IsSound done ks action s1
            (record { holds = now.0.holds; orderly = now.0.orderly })) in
        let e : x ≡ y = cc (ex, ey) in
        let same : x.0.cacher ≡ c' = ap (λ (z : Sender V × Bool). z.0.cacher) e ∙ sound.1 in
        rw (ex, same) (later, kind)

    update-IsHeard :
        (e : Event) (m : Data V) (w : Watcher T V)
        → IsKeyed IsKey (ok m)
        → IsHeard w w.sender
        → Returns (apply_update cv done e m w) (λ w'. IsHeard w' (take_event ch w'.sender))
    unfolding apply_update
    update-IsHeard e m w (h, made) (now, kind) =
        let w1 = record w { last_index = e.modified_index } in
        let c' = put_all w.sender.cacher m in
        let (w', ew, heard) =
          Returns-eq-ok (broadcast cv done (w.pending ++ keys m) e.action (with_cacher w1 c')) _ (
            told-IsHeard (w.pending ++ keys m) e.action w1 c'
              (put_all-DiffersAt w.pending w.sender.cacher m h)
              (λ j there. elim (put_all-keys w.sender.cacher m j h there) [
                | inl new ↦ made j new
                | inr old ↦ kind j old
              ])
              now) in
        rw ew heard

    -- The client takes an event, or finds that there is none, with the cache as it was.
    taken-IsHeard : (w : Watcher T V) → IsHeard w w.sender → IsHeard w (take_event ch w.sender)
    taken-IsHeard w ((v, slot, room, agrees), kind) =
        (taken-IsUpToDate key ctx ch d w.sender.cacher w.sender v slot agrees, kind)

    convert-IsHeard :
        (e : Event) (w : Watcher T V) (x : T × Result (Data V))
        → IsKeyed IsKey x.1
        → IsHeard w w.sender
        → Returns (after_convert cv done e w x) (λ w'. IsHeard w' (take_event ch w'.sender))
    unfolding after_convert
    convert-IsHeard e w (table, panic) made heard = absurd made
    convert-IsHeard e w (table, err m) made heard = taken-IsHeard w heard
    convert-IsHeard e w (table, ok m) made heard =
        update-IsHeard e m (record w { table = table }) made heard

    delete-IsHeard :
        (e : Event) (w : Watcher T V)
        → IsMonotone cv done w
        → IsHeard w w.sender
        → Returns (on_delete cv done e w) (λ w'. IsHeard w' (take_event ch w'.sender))
    unfolding on_delete Cacher.get_all_keys
    delete-IsHeard e w mono (now, kind) =
        let c = w.sender.cacher in
        let f = cv.invert_key w.table in
        let purged = delete_all f e.key c (keys c.entries) in
        let w1 = record w { last_index = e.modified_index } in
        let (w', ew, heard) =
          Returns-eq-ok
            (broadcast cv done (w.pending ++ purged.1) e.action (with_cacher w1 purged.0)) _
            (told-IsHeard (w.pending ++ purged.1) e.action w1 purged.0
              (λ j missing.
                lookup-delete_all f e.key c (keys c.entries) j
                ∙ kept cv done w e.key j mono
                ∙ ground (
                  arith,
                  contains-append j w.pending purged.1,
                  contains-delete_all f e.key c (keys c.entries) j,
                  contains-keys j c.entries,
                ))
              (λ j there. kind j (delete_all-keys f e.key c (keys c.entries) j there)) now) in
        rw ew heard

    -- The keys grow with their store keys.
    abbrev pub Grows : Type 0
    Grows =
        (table : T) (j k : Text)
        → IsKey j
        → IsKey k
        → has_prefix j k ≡ true
        → has_prefix (cv.invert_key table j) (cv.invert_key table k) ≡ true

    quiet_event :
        (now : ℕ) (e : Event) (w : Watcher T V)
        → e.action ≢ Action.set
        → e.action ≢ Action.update
        → e.action ≢ Action.delete
        → on_event cv done now e w ≡ ok (noted cv done now e w)
    unfolding on_event
    quiet_event now e w a b c = ground arith

    grown-IsMonotone : (w : Watcher T V) → Grows → IsHeard w w.sender → IsMonotone cv done w
    grown-IsMonotone w grows (now, kind) j k hj hk below =
        grows w.table j k (kind j (ground (arith, contains-keys j w.sender.cacher.entries)))
          (kind k (ground (arith, contains-keys k w.sender.cacher.entries))) below

    event-IsHeard :
        (now : ℕ) (e : Event) (w : Watcher T V) (a : Action)
        → e.action ≡ a
        → IsKeyed IsKey (cv.convert w.table e.pairs).1
        → Grows
        → IsHeard w w.sender
        → Returns (on_event cv done now e w) (λ w'. IsHeard w' (take_event ch w'.sender))
    unfolding on_update
    event-IsHeard now e w Action.set act made grows heard =
        rw (on_event-on_update cv done now e w (inl act))
          (convert-IsHeard e (noted cv done now e w) (cv.convert w.table e.pairs) made heard)
    event-IsHeard now e w Action.update act made grows heard =
        rw (on_event-on_update cv done now e w (inr act))
          (convert-IsHeard e (noted cv done now e w) (cv.convert w.table e.pairs) made heard)
    event-IsHeard now e w Action.delete act made grows heard =
        rw (on_event-on_delete cv done now e w act) (
          delete-IsHeard e (noted cv done now e w)
            (grown-IsMonotone (noted cv done now e w) grows heard) heard)
    event-IsHeard now e w Action.error act made grows heard =
        rw (quiet_event now e w (λ p. cc) (λ p. cc) (λ p. cc))
          (taken-IsHeard (noted cv done now e w) heard)
    event-IsHeard now e w Action.get act made grows heard =
        rw (quiet_event now e w (λ p. cc) (λ p. cc) (λ p. cc))
          (taken-IsHeard (noted cv done now e w) heard)
    event-IsHeard now e w Action.init act made grows heard =
        rw (quiet_event now e w (λ p. cc) (λ p. cc) (λ p. cc))
          (taken-IsHeard (noted cv done now e w) heard)

    left-IsHeard :
        (w : Watcher T V)
        → IsHeard w (take_event ch w.sender)
        → IsHeard (record w { sender = take_event ch w.sender }) (take_event ch w.sender)
    left-IsHeard w ((v, slot, room, agrees), kind) =
        let same = take_event-cacher ch w.sender in
        (
          (v, slot, room, (λ j. agrees j ∙ ap (λ c. lookup j (Cacher.get c key)) (sym same))),
          (λ j there.
              kind j (ap (λ (c : Cacher V). contains j (keys c.entries)) (sym same) ∙ there)),
        )

    hear-IsHeard :
        (IsAccepted : List KvPair → Type 0) (es : List (ℕ × Event)) (w : Watcher T V)
        → ((table : T) (pairs : List KvPair)
            → IsAccepted pairs
            → IsKeyed IsKey (cv.convert table pairs).1)
        → Grows
        → All (λ x. IsAccepted x.1.pairs) es
        → IsHeard w w.sender
        → Returns (hear ch es w) (λ w'. IsHeard w' w'.sender)
    unfolding hear
    hear-IsHeard IsAccepted [] w handles grows fed heard = heard
    hear-IsHeard IsAccepted ((now, e) ∷ es) w handles grows (accepted, fed) heard =
        let (w', ew, later) =
          Returns-eq-ok (on_event cv done now e w) _
            (event-IsHeard now e w e.action refl (handles w.table e.pairs accepted) grows heard) in
        rw ew (
          hear-IsHeard IsAccepted es (record w' { sender = take_event ch w'.sender }) handles grows
            fed (left-IsHeard w' later))

module _ {T V : Type 0} (cv : Converter T V) (done : ℕ → Bool) (IsAccepted : List KvPair → Type 0)
    (IsKey : Text → Type 0) where
  -- No client that takes its events falls behind the store: for a converter that makes, of the pairs
  -- that the store hands out, data with distinct keys of some kind or an error, and whose keys of that
  -- kind grow with their store keys; from a watcher with a sound sender and keys of that kind, after a
  -- Watch of the client whose context is not cancelled, and whatever events of the store follow. If the
  -- client begins with what `Get` of its key returned before the Watch, and takes an event, if there is
  -- one, behind each event of the store, then nothing panics, and it ends with what `Get` of its key
  -- returns from the cache that the watcher then has, key by key.
  pub hear-Agrees :
      (key : Text) (ctx : ℕ) (es : List (ℕ × Event)) (w : Watcher T V)
      → ((table : T) (pairs : List KvPair)
          → IsAccepted pairs
          → IsKeyed IsKey (cv.convert table pairs).1)
      → ((table : T) (j k : Text)
          → IsKey j
          → IsKey k
          → has_prefix j k ≡ true
          → has_prefix (cv.invert_key table j) (cv.invert_key table k) ≡ true)
      → All (λ x. IsAccepted x.1.pairs) es
      → IsSound w.sender
      → ((j : Text) → contains j (keys w.sender.cacher.entries) ≡ true → IsKey j)
      → done ctx ≡ false
      → let (t, ch) = Sender.watch key ctx w.sender in
        Returns (hear cv done ch es (record w { sender = t })) (λ w'.
          Agrees
            (last_sent (Cacher.get w.sender.cacher key) (w'.sender.channels ch).sent)
            w'.sender.cacher
            key)
  unfolding Sender.watch
  hear-Agrees key ctx es w handles grows fed v kind live =
      let (t, ch) = Sender.watch key ctx w.sender in
      let d = Cacher.get w.sender.cacher key in
      let start = watch-IsUpToDate key ctx w.sender v in
      let (w', ew, now) = Returns-eq-ok (hear cv done ch es (record w { sender = t })) _ (
        hear-IsHeard cv done IsKey key ctx ch d live IsAccepted es (record w { sender = t }) handles
          grows fed (start, kind)) in
      rw ew now.0.3
