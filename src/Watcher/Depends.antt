-- ===== src/Watcher/Depends.antt =====
-- watcher/depends/depends.go: the watcher of the dependencies. `unmarshal` is json.Unmarshal into the Go type,
-- `none` its error.
use lainlet.Base.{
  Option, none, some, List, [], ◌∷◌, Text, nat_eq, text_eq, Result, ok, err, ◌>>=◌, codes,
}
use lainlet.Base.{insert}
use lainlet.Spec.{Depends}
use lainlet.Store.{KvPair}
use lainlet.Watcher.Cacher.{Data}
use lainlet.Watcher.Loop.{Converter}
use lainlet.Watcher.Paths.{join_path, key_below}

-- KEY
unfoldable pub depends_key : Text
depends_key = codes "/lain/deployd/depends/pods"

-- invertKey
unfoldable pub invert_key : Text → Text
invert_key key = join_path depends_key key

module _ (unmarshal : Text → Option Depends) where
  -- The loop of `convert`.
  unfoldable pub convert_from : Data Depends → List KvPair → Result (Data Depends)
  convert_from ret [] = ok ret
  convert_from ret (kv ∷ pairs) = elim (unmarshal kv.value) [
    | none ↦ err (codes "a KVPair unmarshal failed")
    | some v ↦ key_below depends_key kv.key >>= λ k. convert_from (insert k (some v) ret) pairs
  ]

  -- convert
  unfoldable pub convert : List KvPair → Result (Data Depends)
  unfolding convert_from
  convert pairs = convert_from [] pairs

  -- New, as the pair of functions that the base watcher is given
  unfoldable pub depends_converter : Converter (Unit {0}) Depends
  depends_converter = record {
    convert = λ table pairs. (table, convert pairs);
    invert_key = λ table key. invert_key key;
  }
