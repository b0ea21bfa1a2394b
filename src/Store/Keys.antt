-- ===== src/Store/Keys.antt =====
-- store/store.go and store/etcd/etcd.go: what becomes of a key on its way to the backend.
use lainlet.Base.{
  ◌≡◌, ap, inl, inr, [], ◌∷◌, arith, Text, nat_eq, text_eq, Bool-cases, contains, has_prefix,
  trim_prefix, join, has_prefix-nil, join-split,
}
use lainlet.Store.{slash, split_key, join_parts, normalize}

-- Etcd.normalize
unfoldable pub etcd_normalize : Text → Text
etcd_normalize key = trim_prefix (normalize key) (slash ∷ [])

pub join_parts-split_key : (key : Text) → join_parts (split_key key) ≡ key
unfolding join_parts split_key join
join_parts-split_key key = elim (Bool-cases (contains slash key)) [
  | inl h ↦ rw h (join-split key slash)
  | inr h ↦ rw h
]

pub normalize_lem : (key : Text) → normalize key ≡ slash ∷ key
unfolding normalize
normalize_lem key = ap (λ s. slash ∷ s) (join_parts-split_key key)

-- A key reaches the client of etcd as it was given: what `Normalize` puts in front, the store cuts off
-- again, and splitting and joining the key in between changes nothing.
pub etcd_normalize_lem : (key : Text) → etcd_normalize key ≡ key
unfolding etcd_normalize trim_prefix has_prefix
etcd_normalize_lem key = rw normalize_lem (ground (arith, has_prefix-nil key))
