-- ===== src/Watcher/Config/Copies.antt =====
-- watcher/config/config.go: the cache of the watcher of the configuration as a copy of what the store
-- has below KEY. The store is a function from keys to values here.
use lainlet.Base.{
  ℕ, ◌≡◌, refl, ap, ◌∙◌, inl, inr, Bool, true, ◌||◌, Option, none, some, List, [], ◌∷◌, ◌++◌, arith,
  if◌then◌else◌, Text, ◌==◌, nat_eq, text_eq, Bool-cases, Bool-eq_of_iff, Option-cases, is_some,
  All, has_prefix, has_prefix-append, has_prefix_self, has_prefix_trans, has_prefix-append_left,
}
use lainlet.Base.{lookup}
use lainlet.Store.{KvPair, slash, Action, Event}
use lainlet.Watcher.Cacher.{Data}
use lainlet.Watcher.Sender.Safety.{IsSound}
use lainlet.Watcher.Paths.{IsClean}
use lainlet.Watcher.Loop.{Watcher}
use lainlet.Watcher.Loop.Events.{stored, overlaid, IsMonotone}
use lainlet.Watcher.Config.{config_key, invert_key, config_converter}
use lainlet.Watcher.Config.Mirror.{IsBelow, latest, invert_key-clean}
use lainlet.Watcher.Config.Converted.{IsTidy}

abbrev pub Store : Type 0
Store = Text → Option Text

-- What pairs that are written one after the other leave under a key.
abbrev pub written : Text → List KvPair → Option Text → Option Text
written key [] old = old
written key (kv ∷ pairs) old = written key pairs (if kv.key == key then some kv.value else old)

-- A key is the directory or stands below it.
abbrev pub is_under : Text → Text → Bool
is_under gone key = key == gone || has_prefix key (gone ++ slash ∷ [])

-- The store after what an event reports, by its action.
abbrev pub store_after : Action → Event → Store → Store
store_after Action.set e s key = written key e.pairs (s key)
store_after Action.update e s key = written key e.pairs (s key)
store_after Action.delete e s key = if is_under e.key key then none else s key
store_after Action.error e s key = s key
store_after Action.get e s key = s key
store_after Action.init e s key = s key

-- No key of the store starts with the text of a directory and is not under it.
abbrev pub HasNoNamesake : Text → Store → Type 0
HasNoNamesake gone s =
    (key : Text) → is_some (s key) ≡ true → has_prefix key gone ≡ true → is_under gone key ≡ true

-- What an event may be: the pairs of a SET or UPDATE are clean paths below KEY, and no key that stays
-- starts with the text of a deleted one.
abbrev pub IsFair : Action → Event → Store → Type 0
IsFair Action.set e s = All IsBelow e.pairs
IsFair Action.update e s = All IsBelow e.pairs
IsFair Action.delete e s = HasNoNamesake e.key s
IsFair Action.error e s = Unit {0}
IsFair Action.get e s = Unit {0}
IsFair Action.init e s = Unit {0}

abbrev pub cached : Watcher (Unit {0}) Text → Data Text
cached w = w.sender.cacher.entries

-- The cache has clean keys, and under each what the store has.
pub record Mirrors (w : Watcher (Unit {0}) Text) (s : Store) : Type 0 where
  pub sound : IsSound w.sender
  pub clean : (k : Text) → is_some (lookup k (cached w)) ≡ true → IsClean k
  pub same : (k : Text) → IsClean k → lookup k (cached w) ≡ stored (s (invert_key k))

latest-over :
    (key : Text) (pairs : List KvPair) (x : Option Text) (old : Option (Option Text))
    → overlaid (latest key pairs (stored x)) old ≡ latest key pairs (overlaid (stored x) old)
latest-over key [] x old = refl
latest-over key (kv ∷ pairs) x old = elim (Bool-cases (kv.key == key)) [
  | inl hit ↦ rw hit (latest-over key pairs (some kv.value) old)
  | inr miss ↦ rw miss (latest-over key pairs x old)
]

pub latest-written :
    (key : Text) (pairs : List KvPair) (x : Option Text)
    → latest key pairs (stored x) ≡ stored (written key pairs x)
latest-written key [] x = refl
latest-written key (kv ∷ pairs) x = elim (Bool-cases (kv.key == key)) [
  | inl hit ↦ rw hit (latest-written key pairs (some kv.value))
  | inr miss ↦ rw miss (latest-written key pairs x)
]

-- The cache with converted pairs over what it had.
pub Mirrors-overlaid :
    (w w' : Watcher (Unit {0}) Text) (s : Store) (pairs : List KvPair) (m : Data Text)
    → Mirrors w s
    → IsTidy m
    → ((k : Text) → IsClean k → lookup k m ≡ latest (invert_key k) pairs none)
    → ((k : Text) → lookup k (cached w') ≡ overlaid (lookup k m) (lookup k (cached w)))
    → IsSound w'.sender
    → Mirrors w' (λ key. written key pairs (s key))
Mirrors-overlaid w w' s pairs m v tidy there new sound = record {
  sound = sound;
  clean = λ k here. elim (Option-cases (lookup k m)) [
    | inl absent ↦ v.clean k (ground (arith, new k))
    | inr (x, hit) ↦ tidy.1 k (ground arith)
  ];
  same = λ k c.
      new k
      ∙ ap (λ x. overlaid x (lookup k (cached w))) (there k c)
      ∙ latest-over (invert_key k) pairs none (lookup k (cached w))
      ∙ ap (latest (invert_key k) pairs) (v.same k c)
      ∙ latest-written (invert_key k) pairs (s (invert_key k));
}

-- A key that is under a directory starts with its text.
has_prefix_under : (gone key : Text) → is_under gone key ≡ true → has_prefix key gone ≡ true
has_prefix_under gone key under = elim (Bool-cases (key == gone)) [
  | inl same ↦ ground (arith, has_prefix_self gone)
  | inr other ↦
      has_prefix_trans key (gone ++ slash ∷ []) gone (ground arith)
        (has_prefix-append gone (slash ∷ []))
]

cut_same :
    (x : Option Text) (a b : Bool)
    → (is_some x ≡ true → a ≡ b)
    → (if a then none else stored x) ≡ stored (if b then none else x)
cut_same none a b h = ground arith
cut_same (some t) a b h = ground (arith, h)

-- The cache without the keys whose store keys start with the text of a deleted one.
pub Mirrors-cut :
    (w w' : Watcher (Unit {0}) Text) (s : Store) (gone : Text)
    → Mirrors w s
    → HasNoNamesake gone s
    → ((k : Text)
        → lookup k (cached w')
          ≡ (if has_prefix (invert_key k) gone then none else lookup k (cached w)))
    → IsSound w'.sender
    → Mirrors w' (λ key. if is_under gone key then none else s key)
Mirrors-cut w w' s gone v fair cut sound = record {
  sound = sound;
  clean = λ k here. v.clean k (ground (arith, cut k));
  same = λ k c.
      let key = invert_key k in
      cut k
      ∙ ap (λ x. if has_prefix key gone then none else x) (v.same k c)
      ∙ cut_same (s key) (has_prefix key gone) (is_under gone key)
          (λ here. Bool-eq_of_iff _ _ (fair key here) (has_prefix_under gone key));
}

pub Mirrors-IsMonotone :
    (done : ℕ → Bool) (w : Watcher (Unit {0}) Text) (s : Store)
    → Mirrors w s
    → IsMonotone config_converter done w
unfolding config_converter
Mirrors-IsMonotone done w s v j k here there starts =
    rw (invert_key-clean j (v.clean j here), invert_key-clean k (v.clean k there))
      (has_prefix-append_left config_key (slash ∷ j) (slash ∷ k)
        ∙ has_prefix-append_left (slash ∷ []) j k
        ∙ starts)

-- What events make of the store, one after the other.
abbrev pub store_after_all : List (ℕ × Event) → Store → Store
store_after_all [] s = s
store_after_all ((now, e) ∷ es) s = store_after_all es (store_after e.action e s)

abbrev pub AreFair : List (ℕ × Event) → Store → Type 0
AreFair [] s = Unit {0}
AreFair ((now, e) ∷ es) s = IsFair e.action e s × AreFair es (store_after e.action e s)
