-- ===== src/Watcher/Config/Converted.antt =====
-- watcher/config/config.go: the keys of the converted data.
use lainlet.Base.{
  ◌≡◌, ap, ◌∙◌, true, Option, some, List, [], ◌∷◌, arith, Text, nat_eq, text_eq, Text-discrete,
  is_some, Returns, All,
}
use lainlet.Base.{lookup, insert, IsMap, lookup-insert, insert-IsMap}
use lainlet.Store.{KvPair}
use lainlet.Watcher.Cacher.{Data}
use lainlet.Watcher.Paths.{IsClean, key_below, key_below_lem}
use lainlet.Watcher.Config.{config_key, convert_from, convert}
use lainlet.Watcher.Config.Mirror.{IsBelow}

-- Distinct keys, which are clean paths.
abbrev pub IsTidy : Data Text → Type 0
IsTidy m = IsMap m × ((k : Text) → is_some (lookup k m) ≡ true → IsClean k)

insert-IsTidy :
    (k : Text) (v : Option Text) (m : Data Text) → IsClean k → IsTidy m → IsTidy (insert k v m)
insert-IsTidy k v m clean (distinct, cleans) = (
  insert-IsMap k v m distinct,
  (λ j here. elim (Text-discrete k j) [
    | yes e ↦ rw⁻¹ e clean
    | no ne ↦ cleans j (ground (arith, lookup-insert k j v m))
  ]),
)

convert_from-IsTidy :
    (pairs : List KvPair) (ret : Data Text)
    → All IsBelow pairs
    → IsTidy ret
    → Returns (convert_from ret pairs) IsTidy
unfolding convert_from
convert_from-IsTidy [] ret h tidy = tidy
convert_from-IsTidy (kv ∷ pairs) ret ((j, clean, e), hs) tidy =
    let below = ap (key_below config_key) e ∙ key_below_lem config_key j in
    rw below (
      convert_from-IsTidy pairs (insert j (some kv.value) ret) hs
        (insert-IsTidy j (some kv.value) ret clean tidy))

-- From pairs below KEY, `convert` makes data with distinct clean keys.
pub convert-IsTidy : (pairs : List KvPair) → All IsBelow pairs → Returns (convert pairs) IsTidy
unfolding convert lookup
convert-IsTidy pairs h = convert_from-IsTidy pairs [] h (tt, (λ k e. cc))
