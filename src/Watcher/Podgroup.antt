-- ===== src/Watcher/Podgroup.antt =====
-- watcher/podgroup/podgroup.go: the watcher of the pod groups. `unmarshal` is json.Unmarshal into the Go type,
-- `none` its error.
use lainlet.Base.{
  Option, none, some, List, [], ◌∷◌, Text, nat_eq, text_eq, Result, ok, err, ◌>>=◌, codes,
}
use lainlet.Base.{insert}
use lainlet.Spec.{PodGroup}
use lainlet.Store.{KvPair}
use lainlet.Watcher.Cacher.{Data}
use lainlet.Watcher.Loop.{Converter}
use lainlet.Watcher.Paths.{join_path, key_below}

-- KEY
unfoldable pub podgroup_key : Text
podgroup_key = codes "/lain/deployd/pod_groups"

-- invertKey
unfoldable pub invert_key : Text → Text
invert_key key = join_path podgroup_key key

module _ (unmarshal : Text → Option PodGroup) where
  -- The loop of `convert`.
  unfoldable pub convert_from : Data PodGroup → List KvPair → Result (Data PodGroup)
  convert_from ret [] = ok ret
  convert_from ret (kv ∷ pairs) = elim (unmarshal kv.value) [
    | none ↦ err (codes "a KVPair unmarshal failed")
    | some v ↦ key_below podgroup_key kv.key >>= λ k. convert_from (insert k (some v) ret) pairs
  ]

  -- convert
  unfoldable pub convert : List KvPair → Result (Data PodGroup)
  unfolding convert_from
  convert pairs = convert_from [] pairs

  -- New, as the pair of functions that the base watcher is given
  unfoldable pub podgroup_converter : Converter (Unit {0}) PodGroup
  podgroup_converter = record {
    convert = λ table pairs. (table, convert pairs);
    invert_key = λ table key. invert_key key;
  }
