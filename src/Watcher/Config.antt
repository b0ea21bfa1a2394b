-- ===== src/Watcher/Config.antt =====
-- watcher/config/config.go: the watcher of the configuration.
pub mod Mirror
pub mod Converted
pub mod Copies
pub mod Follow
use lainlet.Base.{some, List, [], ◌∷◌, Text, Result, ok, ◌>>=◌, codes}
use lainlet.Base.{insert}
use lainlet.Store.{KvPair}
use lainlet.Watcher.Cacher.{Data}
use lainlet.Watcher.Loop.{Converter}
use lainlet.Watcher.Paths.{join_path, key_below}

-- KEY
unfoldable pub config_key : Text
config_key = codes "/lain/config"

-- invertKey
unfoldable pub invert_key : Text → Text
invert_key key = join_path config_key key

-- The loop of `convert`.
unfoldable pub convert_from : Data Text → List KvPair → Result (Data Text)
convert_from ret [] = ok ret
convert_from ret (kv ∷ pairs) = do
  k ← key_below config_key kv.key
  convert_from (insert k (some kv.value) ret) pairs

-- convert
unfoldable pub convert : List KvPair → Result (Data Text)
unfolding convert_from
convert pairs = convert_from [] pairs

-- New, as the pair of functions that the base watcher is given
unfoldable pub config_converter : Converter (Unit {0}) Text
config_converter = record {
  convert = λ table pairs. (table, convert pairs);
  invert_key = λ table key. invert_key key;
}
