-- ===== src/Watcher/Sender/UpToDate.antt =====
-- watcher/sender.go and watcher/cacher.go: what a client that reads its events knows of the cache.
use mathlib.Core.List.{Memᴰ}
use lainlet.Base.{
  ℕ, ◌≡◌, refl, sym, ap, ◌∙◌, inl, inr, Bool, true, false, some, List, [], ◌∷◌, ◌++◌, arith, Text,
  ◌==◌, nat_eq, text_eq, Bool-cases, Returns, Returns-eq-ok, any, contains, any_of_contains,
  has_prefix, has_prefix_self,
}
use lainlet.Base.{lookup}
use lainlet.Store.{Action}
use lainlet.Watcher.Cacher.{Cacher, Data, get}
use lainlet.Watcher.Cacher.Laws.{lookup-get}
use lainlet.Watcher.Sender.{Event, Receiver, Sender, has_room, broadcast}
use lainlet.Watcher.Sender.Safety.{IsSound}
use lainlet.Watcher.Sender.Delivery.{delivered_kept, delivered_sent, broadcast-delivered}

unchanged-contains :
    (changed : List Text) (key j : Text)
    → any (λ k. has_prefix k key) changed ≡ false
    → has_prefix j key ≡ true
    → contains j changed ≡ false
unchanged-contains changed key j quiet below = elim (Bool-cases (contains j changed)) [
  | inl there ↦ cc (any_of_contains (λ k. has_prefix k key) changed j there below, quiet)
  | inr missing ↦ missing
]

module _ {V : Type 0} where
  -- What a client holds that started with some data and then took every event of a list.
  abbrev pub last_sent : Data V → List (Event V) → Data V
  last_sent d [] = d
  last_sent d (e ∷ es) = last_sent e.content es

  -- The data are what `Get` of the key returns, key by key.
  abbrev pub Agrees : Data V → Cacher V → Text → Type 0
  Agrees d c key = (j : Text) → lookup j d ≡ lookup j (get c key)

  -- All keys under which two caches differ are among some keys.
  abbrev pub DiffersAt : List Text → Cacher V → Cacher V → Type 0
  DiffersAt changed c c' =
      (j : Text) → contains j changed ≡ false → lookup j c'.entries ≡ lookup j c.entries

  last_sent-append :
      (d : Data V) (es : List (Event V)) (e : Event V) → last_sent d (es ++ e ∷ []) ≡ e.content
  last_sent-append d [] e = refl
  last_sent-append d (x ∷ es) e = last_sent-append x.content es e

  unchanged-Agrees :
      (d : Data V) (changed : List Text) (c c' : Cacher V) (key : Text)
      → any (λ k. has_prefix k key) changed ≡ false
      → DiffersAt changed c c'
      → Agrees d c key
      → Agrees d c' key
  unchanged-Agrees d changed c c' key quiet differs agrees j =
      let own = differs key (unchanged-contains changed key key quiet (has_prefix_self key)) in
      agrees j
      ∙ lookup-get c key j
      ∙ (elim (Bool-cases (has_prefix j key)) [
        | inl below ↦
            let same = differs j (unchanged-contains changed key j quiet below) in
            rw (own, same) refl
        | inr above ↦
            let other : (key == j) ≡ false = ground (arith, above, has_prefix_self j) in
            ground (arith, own, above, other)
      ])
      ∙ sym (lookup-get c' key j)

  -- Nothing is unread: what is next sent goes through, and the client has taken the rest.
  pub broadcast-Agrees :
      (done : ℕ → Bool) (changed : List Text) (action : Action) (c : Cacher V) (s : Sender V)
      (r : Receiver) (d : Data V)
      → IsSound s
      → Memᴰ (some r) s.receivers
      → done r.ctx ≡ false
      → has_room (s.channels r.ch) ≡ true
      → DiffersAt changed c s.cacher
      → Agrees (last_sent d (s.channels r.ch).sent) c r.key
      → Returns
          (broadcast done changed action s)
          (λ x. Agrees (last_sent d (x.0.channels r.ch).sent) s.cacher r.key)
  broadcast-Agrees done changed action c s r d v there live room differs agrees =
      let (x, e, told) =
        Returns-eq-ok (broadcast done changed action s) _
          (broadcast-delivered done changed action s v) in
      let channel = told.0 r there in
      rw e (elim (Bool-cases (any (λ k. has_prefix k r.key) changed)) [
        | inl touched ↦ λ j.
            ap (λ ch. lookup j (last_sent d ch.sent))
              (channel
                ∙ delivered_sent done s.cacher changed action r (s.channels r.ch) live touched room)
            ∙ ap (lookup j) (last_sent-append d (s.channels r.ch).sent _)
        | inr quiet ↦ λ j.
            ap (λ ch. lookup j (last_sent d ch.sent))
              (channel
                ∙ delivered_kept done s.cacher changed action r (s.channels r.ch) live
                    (ground (arith, quiet)))
            ∙ unchanged-Agrees _ changed c s.cacher r.key quiet differs agrees j
      ])
