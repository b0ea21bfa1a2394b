-- ===== src/Endpoints/Sharing.antt =====
-- endpoints/*.go: what the cache that the streams of a service share does to them.
use lainlet.Base.{
  ℕ, ◌≡◌, refl, ap, ◌∙◌, ◌⊎◌, inl, inr, Bool, true, false, none, some, List, [], ◌∷◌, arith,
  if◌then◌else◌, Text, ◌==◌, nat_eq, text_eq, Bool-cases, Option-cases, Result, ok, err, All,
}
use lainlet.Base.{GoMap, lookup, insert, lookup-insert}
use lainlet.Watcher.Cacher.{Data}
use lainlet.Watcher.Sender.{Event}
use lainlet.Api.Server.{is_error}
use lainlet.Endpoints.{
  Peer, get_reply, first_reply, Endpoint, Turn, sent, unchanged, update_cache, make_reply, on_event,
  Call, hears, asks, log, serve,
}

-- Whether a reply under a key counts as another one than what the cache has.
abbrev pub IsNew : {V R : Type 0} → Endpoint V R → GoMap R → Text → R → Type 0
IsNew ed cache key r = elim (lookup key cache) [
  | none ↦ Unit {0}
  | some cached ↦ ed.same cached r ≡ false
]

-- What the client of a stream holds after some replies.
abbrev pub view_of : {R : Type 0} → ℕ → R → List (ℕ × R) → R
view_of i r [] = r
view_of i r ((j, x) ∷ replies) = view_of i (if j == i then x else r) replies

-- The data of the last event for a key.
abbrev pub last_heard : {V : Type 0} → Text → Data V → List (Call V) → Data V
last_heard key d [] = d
last_heard key d (hears j k e ∷ calls) = last_heard key (if k == key then e.content else d) calls
last_heard key d (asks k m ∷ calls) = last_heard key d calls

-- No call but those of stream `i` has the key, and stream `i` has no other key; no event is an ERROR.
abbrev pub IsAlone : {V : Type 0} → ℕ → Text → Call V → Type 0
IsAlone i key (hears j k e) = ((j == i) ≡ (k == key)) × (is_error e.action ≡ false)
IsAlone i key (asks k m) = (k == key) ≡ false

-- `make` makes the reply of the data of a call.
abbrev pub IsMade : {V R : Type 0} → Endpoint V R → (Data V → R) → Call V → Type 0
IsMade ed reply (hears j k e) = ed.render e.content ≡ ok (reply e.content)
IsMade ed reply (asks k m) = ed.render m ≡ ok (reply m)

module _ {V R : Type 0} (ed : Endpoint V R) where
  -- A key that is granted and that the watcher has an error for.
  pub get_reply_failed :
      (cache : GoMap R) (get : Text → Result (Data V)) (field : Text) (peer : Peer) (key m : Text)
      → ed.get_key field peer ≡ ok key
      → get key ≡ err m
      → get_reply ed cache get field peer ≡ (cache, err m)
  unfolding get_reply first_reply
  get_reply_failed cache get field peer key m granted fails = ground arith

  make_reply-new :
      (cache : GoMap R) (key : Text) (d : Data V) (r : R)
      → ed.is_cached ≡ true
      → ed.render d ≡ ok r
      → IsNew ed cache key r
      → make_reply ed cache key d ≡ (insert key r cache, ok (r, true))
  unfolding make_reply update_cache
  make_reply-new cache key d r shared built new = ground arith

  make_reply-seen :
      (cache : GoMap R) (key : Text) (d : Data V) (r x : R)
      → ed.is_cached ≡ true
      → ed.render d ≡ ok r
      → lookup key cache ≡ some x
      → ed.same x r ≡ true
      → make_reply ed cache key d ≡ (cache, ok (r, false))
  unfolding make_reply update_cache
  make_reply-seen cache key d r x shared built found seen = ground arith

  none-IsNew :
      (cache : GoMap R) (key : Text) (r : R) → lookup key cache ≡ none → IsNew ed cache key r
  none-IsNew cache key r missing = rw (IsNew, missing) tt

  some-IsNew :
      (cache : GoMap R) (key : Text) (r x : R)
      → lookup key cache ≡ some x
      → ed.same x r ≡ false
      → IsNew ed cache key r
  some-IsNew cache key r x found new = rw (IsNew, found) new

  on_event-made :
      (cache cache' : GoMap R) (key : Text) (e : Event V) (r : R) (changed : Bool)
      → is_error e.action ≡ false
      → make_reply ed cache key e.content ≡ (cache', ok (r, changed))
      → on_event ed cache key e none ≡ (cache', (if changed then sent r else unchanged))
  unfolding on_event
  on_event-made cache cache' key e r true live made = rw (live, made) refl
  on_event-made cache cache' key e r false live made = rw (live, made) refl

  serve-hears :
      (cache cache' : GoMap R) (i : ℕ) (key : Text) (e : Event V) (calls : List (Call V))
      (turn : Turn R)
      → on_event ed cache key e none ≡ (cache', turn)
      → (serve ed cache (hears i key e ∷ calls)).1 ≡ log i turn (serve ed cache' calls).1
  unfolding serve
  serve-hears cache cache' i key e calls turn heard =
      ap (λ x. log i x.1 (serve ed x.0 calls).1) heard

  -- A change reaches one client per key: where the reply for an event is another one than the cached
  -- one, of two streams of the key that hear the event one after the other only the first is sent the
  -- reply, and a stream that hears it after a `Get` of the key saw the same data is sent nothing.
  pub serve_first_only :
      (cache : GoMap R) (key : Text) (e : Event V) (r : R) (i j : ℕ)
      → ed.is_cached ≡ true
      → is_error e.action ≡ false
      → ed.render e.content ≡ ok r
      → ed.same r r ≡ true
      → IsNew ed cache key r
      → ((serve ed cache (hears i key e ∷ hears j key e ∷ [])).1 ≡ (i, r) ∷ [])
        × ((serve ed cache (asks key e.content ∷ hears j key e ∷ [])).1 ≡ [])
  unfolding serve
  serve_first_only cache key e r i j shared live built reflexive new =
      let first = make_reply-new cache key e.content r shared built new in
      let found : lookup key (insert key r cache) ≡ some r =
        ground (arith, lookup-insert key key r cache) in
      let second =
        make_reply-seen (insert key r cache) key e.content r r shared built found reflexive in
      let again =
        serve-hears (insert key r cache) (insert key r cache) j key e [] unchanged
          (on_event-made (insert key r cache) (insert key r cache) key e r false live second) in
      (
        serve-hears cache (insert key r cache) i key e (hears j key e ∷ []) (sent r)
              (on_event-made cache (insert key r cache) key e r true live first)
            ∙ ap (λ replies. (i, r) ∷ replies) again,
        ap (λ x. (serve ed x.0 (hears j key e ∷ [])).1) first ∙ again,
      )

  module _ (reply : Data V → R) (reflexive : (d : Data V) → ed.same (reply d) (reply d) ≡ true)
      (shared : ed.is_cached ≡ true) where
    -- What a call does to the entries of the cache: one under its own key stays or becomes the reply.
    make_reply-cases :
        (cache : GoMap R) (key : Text) (d : Data V)
        → ed.render d ≡ ok (reply d)
        → (make_reply ed cache key d ≡ (insert key (reply d) cache, ok (reply d, true)))
          ⊎ ((x : R) × (lookup key cache ≡ some x)
              × (ed.same x (reply d) ≡ true)
              × (make_reply ed cache key d ≡ (cache, ok (reply d, false))))
    make_reply-cases cache key d good = elim (Option-cases (lookup key cache)) [
      | inl missing ↦ inl (
          make_reply-new cache key d (reply d) shared good (none-IsNew cache key (reply d) missing))
      | inr (x, found) ↦ elim (Bool-cases (ed.same x (reply d))) [
        | inl seen ↦
            inr (x, found, seen, make_reply-seen cache key d (reply d) x shared good found seen)
        | inr new ↦ inl (
            make_reply-new cache key d (reply d) shared good
              (some-IsNew cache key (reply d) x found new))
      ]
    ]

    make_reply_other :
        (cache : GoMap R) (key k : Text) (d : Data V)
        → ed.render d ≡ ok (reply d)
        → (k == key) ≡ false
        → lookup key (make_reply ed cache k d).0 ≡ lookup key cache
    make_reply_other cache key k d good other = elim (make_reply-cases cache k d good) [
      | inl made ↦ rw made (ground (arith, lookup-insert k key (reply d) cache))
      | inr (x, found, seen, made) ↦ rw made refl
    ]

    -- A service that keeps its replies in a cache and counts each reply as equal to itself, whose
    -- `make` makes replies, and neither fails nor panics, on the data of all the calls, of which none is
    -- an ERROR: a stream that has its key for itself, and whose client starts with the reply that the
    -- cache has for the key, one that counts as equal to the reply for some data, ends with a reply that
    -- counts as equal to the one for the data of the last event for the key, or for those data if there
    -- is none; although replies that count as equal to the cached one are not sent, and whatever happens
    -- under other keys in between.
    pub serve-view :
        (calls : List (Call V)) (cache : GoMap R) (i : ℕ) (key : Text) (d : Data V) (r : R)
        → All (IsAlone i key) calls
        → All (IsMade ed reply) calls
        → lookup key cache ≡ some r
        → ed.same r (reply d) ≡ true
        → ed.same (view_of i r (serve ed cache calls).1) (reply (last_heard key d calls)) ≡ true
    unfolding serve
    serve-view [] cache i key d r alone goods found seen = seen
    serve-view (asks k m ∷ calls) cache i key d r (other, alone) (good, goods) found seen =
        serve-view calls (make_reply ed cache k m).0 i key d r alone goods
          (make_reply_other cache key k m good other ∙ found) seen
    serve-view (hears j k e ∷ calls) cache i key d r ((mine, live), alone) (good, goods) found
          seen =
        elim (make_reply-cases cache k e.content good) [
          | inl made ↦
              let c : GoMap R = insert k (reply e.content) cache in
              let turn = on_event-made cache c k e (reply e.content) true live made in
              let kept = lookup-insert k key (reply e.content) cache in
              elim (Bool-cases (k == key)) [
                | inl own ↦
                    rw (turn, mine ∙ own, own)
                      (serve-view calls c i key e.content (reply e.content) alone goods
                        (ground arith) (reflexive e.content))
                | inr other ↦
                    rw (turn, mine ∙ other, other)
                      (serve-view calls c i key d r alone goods (ground arith) seen)
              ]
          | inr (x, old, same, made) ↦
              let turn = on_event-made cache cache k e (reply e.content) false live made in
              elim (Bool-cases (k == key)) [
                | inl own ↦
                    rw (turn, own)
                      (serve-view calls cache i key e.content r alone goods found (ground arith))
                | inr other ↦
                    rw (turn, other) (serve-view calls cache i key d r alone goods found seen)
              ]
        ]
