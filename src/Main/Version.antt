-- ===== src/Main/Version.antt =====
-- version/version.go: the version of the API. The parser of versions is a parameter.
use lainlet.Base.{ℕ, ◌∷◌, ◌++◌, Text, nat_eq, text_eq, Result, ok, codes}
use lainlet.Wire.{format}

-- Version
abbrev pub version_text : Text
version_text = codes "2.4.3+git"

-- APIVersion, after init; `parse` yields the major and the minor number.
unfoldable pub api_version : (Text → Result (ℕ × ℕ)) → Text
unfolding format
api_version parse = elim (parse version_text) [
  | ok (major, minor) ↦ format major ++ b'.' ∷ format minor
  | _ ↦ codes "unknown"
]
