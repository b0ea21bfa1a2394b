-- ===== src/Watcher/Nodes.antt =====
-- watcher/nodes/nodes.go: the watcher of the nodes. `unmarshal` is json.Unmarshal into the Go type,
-- `none` its error; `NodeInfo` is the map that it fills.
use lainlet.Base.{
  Option, none, some, List, [], ◌∷◌, Text, nat_eq, text_eq, Result, ok, ◌>>=◌, codes,
}
use lainlet.Base.{insert}
use lainlet.Store.{KvPair}
use lainlet.Watcher.Cacher.{Data}
use lainlet.Watcher.Loop.{Converter}
use lainlet.Watcher.Paths.{join_path, key_below}

-- KEY
unfoldable pub nodes_key : Text
nodes_key = codes "/lain/nodes/nodes"

-- invertKey
unfoldable pub invert_key : Text → Text
invert_key key = join_path nodes_key key

module _ {NodeInfo : Type 0} (unmarshal : Text → Option NodeInfo) where
  -- The loop of `convert`; a value that is no JSON object is logged and left out.
  unfoldable pub convert_from : Data NodeInfo → List KvPair → Result (Data NodeInfo)
  convert_from ret [] = ok ret
  convert_from ret (kv ∷ pairs) =
      let rest = convert_from ret pairs in
      elim (unmarshal kv.value) [
        | none ↦ rest
        | some v ↦ key_below nodes_key kv.key >>= λ k. convert_from (insert k (some v) ret) pairs
      ]

  -- convert
  unfoldable pub convert : List KvPair → Result (Data NodeInfo)
  unfolding convert_from
  convert pairs = convert_from [] pairs

  -- New, as the pair of functions that the base watcher is given
  unfoldable pub nodes_converter : Converter (Unit {0}) NodeInfo
  nodes_converter = record {
    convert = λ table pairs. (table, convert pairs);
    invert_key = λ table key. invert_key key;
  }
