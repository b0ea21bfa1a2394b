-- ===== src/Watcher/Config/Mirror.antt =====
-- watcher/config/config.go: the converted data are those of the store, under the keys below KEY.
use lainlet.Base.{
  ◌≡◌, refl, sym, ap, ◌∙◌, ◌≢◌, Option, none, some, List, [], ◌∷◌, ◌++◌, arith, if◌then◌else◌, Text,
  ◌==◌, nat_eq, text_eq, Text-discrete, ok, Returns, Returns-eq-ok, All, codes, split, join,
  ℕ_discrete,
}
use lainlet.Base.{lookup, insert, lookup-insert}
use lainlet.Store.{KvPair, slash}
use lainlet.Watcher.Cacher.{Data}
use lainlet.Watcher.Paths.{IsClean, IsRoot, key_below, join_path_clean, key_below_lem}
use lainlet.Watcher.Config.{config_key, invert_key, convert_from, convert}

pub config_key-IsRoot : IsRoot config_key
unfolding split join ℕ_discrete config_key
config_key-IsRoot = record {
  parts = codes "lain" ∷ codes "config" ∷ [];
  nonempty = λ e. cc;
  plain = (((λ e. cc), (λ e. cc), (λ e. cc)), (((λ e. cc), (λ e. cc), (λ e. cc)), tt));
  spelled = refl;
  pieces = refl;
}

-- A pair of the store whose key is a clean path below KEY.
abbrev pub IsBelow : KvPair → Type 0
IsBelow kv = (k : Text) × IsClean k × (kv.key ≡ config_key ++ slash ∷ k)

-- What the last pair with a key says, or else the old entry.
abbrev pub latest : Text → List KvPair → Option (Option Text) → Option (Option Text)
latest key [] old = old
latest key (kv ∷ pairs) old = latest key pairs (if kv.key == key then some (some kv.value) else old)

pub invert_key-clean : (k : Text) → IsClean k → invert_key k ≡ config_key ++ slash ∷ k
unfolding invert_key
invert_key-clean k h = join_path_clean config_key k config_key-IsRoot h

below_inj : (j k : Text) → config_key ++ slash ∷ j ≡ config_key ++ slash ∷ k → ok j ≡ ok k
below_inj j k e =
    sym (key_below_lem config_key j) ∙ ap (key_below config_key) e ∙ key_below_lem config_key k

same_key :
    (kv : KvPair) (j k : Text)
    → kv.key ≡ config_key ++ slash ∷ j
    → IsClean k
    → (j == k) ≡ (kv.key == invert_key k)
same_key kv j k e h = elim (Text-discrete j k) [
  | yes p ↦
      let q : kv.key ≡ invert_key k =
        e ∙ ap (λ x. config_key ++ slash ∷ x) p ∙ sym (invert_key-clean k h) in
      ground arith
  | no n ↦
      let q : kv.key ≢ invert_key k =
        λ p. n (cc (below_inj j k (sym e ∙ p ∙ invert_key-clean k h))) in
      ground arith
]

convert_from-latest :
    (pairs : List KvPair) (ret : Data Text)
    → All IsBelow pairs
    → Returns
        (convert_from ret pairs)
        (λ m. (k : Text) → IsClean k → lookup k m ≡ latest (invert_key k) pairs (lookup k ret))
unfolding convert_from
convert_from-latest [] ret h = λ k c. refl
convert_from-latest (kv ∷ pairs) ret ((j, clean, e), hs) =
    let below = ap (key_below config_key) e ∙ key_below_lem config_key j in
    let (m, em, rest) =
      Returns-eq-ok (convert_from (insert j (some kv.value) ret) pairs) _
        (convert_from-latest pairs (insert j (some kv.value) ret) hs) in
    rw (below, em)
      (λ k c.
        rest k c
        ∙ ap (latest (invert_key k) pairs) (
            lookup-insert j k (some kv.value) ret
            ∙ ap (λ b. if b then some (some kv.value) else lookup k ret) (same_key kv j k e c)))

-- From pairs whose keys are clean paths below KEY, `convert` makes the data in which each such path
-- has the value that the last pair says whose key is `invertKey` of it, and no value without such a
-- pair; it neither fails nor panics.
pub convert-latest :
    (pairs : List KvPair)
    → All IsBelow pairs
    → Returns
        (convert pairs)
        (λ m. (k : Text) → IsClean k → lookup k m ≡ latest (invert_key k) pairs none)
unfolding convert lookup
convert-latest pairs h = convert_from-latest pairs [] h
