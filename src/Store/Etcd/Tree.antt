-- ===== src/Store/Etcd/Tree.antt =====
-- store/etcd/etcd.go: what the tree walk and the reads return.
use mathlib.Core.List.{Memᴰ}
use lainlet.Base.{
  ℕ, ◌≡◌, refl, sym, ◌∙◌, Bool-cases, ◌↔◌, ◌⊎◌, inl, inr, true, false, List, [], ◌∷◌, ◌++◌, arith,
  if◌then◌else◌, Text, nat_eq, text_eq, Bool,
}
use lainlet.Store.{KvPair, found, failure, Answer}
use lainlet.Store.Keys.{etcd_normalize, etcd_normalize_lem}
use lainlet.Store.Etcd.{
  Node, Nodes, node, nil, cons, node_dir, node_nodes, pair_of, ClientError, Reply, message,
  response, refused, etcd_error, other_error, KeysApi, travel_nodes, is_key_not_found, store_error,
  get_pair, exists,
}

-- `Leaf p ns`: somewhere below `ns` stands a node that is no directory and whose pair is `p`.
pub data Leaf (p : KvPair) : Nodes → Type 0 where
  file : {n : Node} {ns : Nodes} → node_dir n ≡ false → pair_of n ≡ p → Leaf p (cons n ns)
  inside : {n : Node} {ns : Nodes} → node_dir n ≡ true → Leaf p (node_nodes n) → Leaf p (cons n ns)
  later : {n : Node} {ns : Nodes} → Leaf p ns → Leaf p (cons n ns)

Memᴰ-append_right {ℓ} : {A : Type ℓ} {a : A} (xs ys : List A) → Memᴰ a ys → Memᴰ a (xs ++ ys)
Memᴰ-append_right [] ys m = m
Memᴰ-append_right (x ∷ xs) ys m = Memᴰ.tail (Memᴰ-append_right xs ys m)

Memᴰ-append_left {ℓ} : {A : Type ℓ} {a : A} (xs ys : List A) → Memᴰ a xs → Memᴰ a (xs ++ ys)
Memᴰ-append_left [] ys m = elim m [ ]
Memᴰ-append_left (x ∷ xs) ys (Memᴰ.head e) = Memᴰ.head e
Memᴰ-append_left (x ∷ xs) ys (Memᴰ.tail m) = Memᴰ.tail (Memᴰ-append_left xs ys m)

Memᴰ-append_cases {ℓ} :
    {A : Type ℓ} {a : A} (xs ys : List A) → Memᴰ a (xs ++ ys) → Memᴰ a xs ⊎ Memᴰ a ys
Memᴰ-append_cases [] ys m = inr m
Memᴰ-append_cases (x ∷ xs) ys (Memᴰ.head e) = inl (Memᴰ.head e)
Memᴰ-append_cases (x ∷ xs) ys (Memᴰ.tail m) = elim (Memᴰ-append_cases xs ys m) [
  | inl l ↦ inl (Memᴰ.tail l)
  | inr r ↦ inr r
]

travel_nodes_complete : {p : KvPair} {ns : Nodes} → Leaf p ns → Memᴰ p (travel_nodes ns)
unfolding travel_nodes
travel_nodes_complete (file {n = node k v d i kids} e q) = rw e (Memᴰ.head (sym q))
travel_nodes_complete (inside {n = node k v d i kids} e l) =
    rw e (Memᴰ-append_left _ _ (travel_nodes_complete l))
travel_nodes_complete (later {n = node k v true i kids} l) =
    Memᴰ-append_right (travel_nodes kids) _ (travel_nodes_complete l)
travel_nodes_complete (later {n = node k v false i kids} l) = Memᴰ.tail (travel_nodes_complete l)

travel_nodes_sound : {p : KvPair} (ns : Nodes) → Memᴰ p (travel_nodes ns) → Leaf p ns
unfolding travel_nodes
travel_nodes_sound nil m = elim m [ ]
travel_nodes_sound (cons (node k v true i kids) ns) m = elim (Memᴰ-append_cases _ _ m) [
  | inl l ↦ inside refl (travel_nodes_sound kids l)
  | inr r ↦ later (travel_nodes_sound ns r)
]
travel_nodes_sound (cons (node k v false i kids) ns) (Memᴰ.head e) = file refl (sym e)
travel_nodes_sound (cons (node k v false i kids) ns) (Memᴰ.tail m) = later (travel_nodes_sound ns m)

-- A pair is returned for a tree exactly when a node of the tree that is no directory has that key,
-- value and index, at whatever depth it stands.
pub travel_nodes-mem_iff : (p : KvPair) (ns : Nodes) → Memᴰ p (travel_nodes ns) ↔ Leaf p ns
travel_nodes-mem_iff p ns = (travel_nodes_sound ns, travel_nodes_complete)

Reply-cases :
    {A : Type 0} (r : Reply A)
    → ((a : A) × (r ≡ response a)) ⊎ ((e : ClientError) × (r ≡ refused e))
Reply-cases (response a) = inl (a, refl)
Reply-cases (refused e) = inr (e, refl)

-- An error of etcd that says that there is no such file.
abbrev pub SaysNotFound : KeysApi → ClientError → Type 0
SaysNotFound client e =
    (code : ℕ) × (m : Text) × (e ≡ etcd_error code m)
    × ((code ≡ client.code_key_not_found)
        ⊎ ((code ≡ client.code_not_file) ⊎ (code ≡ client.code_not_dir)))

is_key_not_found_iff :
    (client : KeysApi) (e : ClientError)
    → (is_key_not_found client e ≡ true) ↔ SaysNotFound client e
unfolding is_key_not_found
is_key_not_found_iff client (etcd_error code m) =
    ((λ h. (code, m, refl, ground arith)), (λ (code', m', e, says). ground arith))
is_key_not_found_iff client (other_error m) = ((λ h. cc), (λ (code, m', e, says). cc))

failed_reply :
    (client : KeysApi) (e : ClientError) (m : Text)
    → ◌≡◌ {A = Answer Bool}
        (if is_key_not_found client e then found false else failure (message e))
        (failure m)
    → (¬ SaysNotFound client e) × (message e ≡ m)
failed_reply client e m h = elim (Bool-cases (is_key_not_found client e)) [
  | inl b ↦ absurd (ground arith)
  | inr b ↦ ((λ says. let k = (is_key_not_found_iff client e).1 says in cc), ground arith)
]

other_reply :
    (client : KeysApi) (e : ClientError) (m : Text)
    → ¬ SaysNotFound client e
    → message e ≡ m
    → ◌≡◌ {A = Answer Bool}
        (if is_key_not_found client e then found false else failure (message e))
        (failure m)
other_reply client e m other same = elim (Bool-cases (is_key_not_found client e)) [
  | inl b ↦ absurd (other ((is_key_not_found_iff client e).0 b))
  | inr b ↦ ground arith
]

module _ (client : KeysApi) (key : Text) where
  exists-eq-true : (n : Node) → client.get key ≡ response n → exists client key ≡ found true
  unfolding exists get_pair
  exists-eq-true n h =
      let h' : client.get (etcd_normalize key) ≡ response n = rw etcd_normalize_lem h in
      ground arith

  exists-eq_refused :
      (e : ClientError)
      → client.get key ≡ refused e
      → exists client key ≡ (if is_key_not_found client e then found false else failure (message e))
  unfolding exists get_pair store_error
  exists-eq_refused e h =
      let h' : client.get (etcd_normalize key) ≡ refused e = rw etcd_normalize_lem h in ground arith

  -- `Exists` is true exactly when the client answers for the very key; it is false exactly when the
  -- client refuses with an error of etcd whose code says that the key is not found, or that it is no
  -- file, or no directory; and it fails with the message of any other error that the client refuses
  -- with.
  pub exists_cases :
      ((exists client key ≡ found true) ↔ ((n : Node) × (client.get key ≡ response n)))
      × ((exists client key ≡ found false)
          ↔ ((e : ClientError) × (client.get key ≡ refused e) × SaysNotFound client e))
      × ((m : Text)
          → (exists client key ≡ failure m) ↔ (
              (e : ClientError) × (client.get key ≡ refused e)
              × (¬ SaysNotFound client e)
              × (message e ≡ m)))
  exists_cases = elim (Reply-cases (client.get key)) [
    | inl (n, h) ↦ (
      ((λ _. (n, h)), (λ _. exists-eq-true n h)),
      ((λ k. cc (exists-eq-true n h)), (λ w. cc (w.1, h))),
      (λ m. ((λ k. cc (exists-eq-true n h)), (λ w. cc (w.1, h)))),
    )
    | inr (e, h) ↦ (
      ((λ k. ground (arith, exists-eq_refused e h)), (λ w. cc (w.1, h))),
      (
        (λ k. (e, h, (is_key_not_found_iff client e).0 (ground (arith, exists-eq_refused e h)))),
        (λ (e', h', says).
            ground (arith, exists-eq_refused e' h', (is_key_not_found_iff client e').1 says)),
      ),
      (λ m. (
        (λ k.
            let (other, same) = failed_reply client e m (sym (exists-eq_refused e h) ∙ k) in
            (e, h, other, same)),
        (λ (e', h', other, same). exists-eq_refused e' h' ∙ other_reply client e' m other same),
      )),
    )
  ]
