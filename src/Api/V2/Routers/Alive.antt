-- ===== src/Api/V2/Routers/Alive.antt =====
-- api/v2/webrouter_webprocs.go: when the web router gets an answer.
use lainlet.Base.{
  ◌+◌, ◌*◌, ◌≤◌, ◌<◌, ◌≡◌, refl, ◌↔◌, ◌⊎◌, inl, inr, Bool, true, false, Option, none, some, ok, sym,
  ltb, List, [], ◌∷◌, ◌++◌, arith, if◌then◌else◌, nat_eq, text_eq, Bool-cases, err, Returns,
  Returns-eq-ok, length, keep, All, length-append, Text, not, ◌==◌, Text-discrete,
}
use lainlet.Base.{GoMap}
use lainlet.Spec
use lainlet.Spec.{ContainerSpec, Pod, PodGroup}
use lainlet.Watcher.Cacher.{Data}
use lainlet.Api.V2.Common.{for_items, zip_index}
use lainlet.Api.V2.Routers.{
  ContainerForWebrouter, PodInfoForWebrouter, web_eq, Counts, is_alive, count_pod,
  too_many_dead_containers, changed_from, has_too_many_dead, is_web, web_pods, web_item,
  webrouter_make,
}

-- The pods of the web groups among the data.
abbrev pub web_pods_of : Data PodGroup → List Pod
web_pods_of [] = []
web_pods_of ((k, none) ∷ m) = web_pods_of m
web_pods_of ((k, some pg) ∷ m) =
    if is_web pg.spec.name then pg.pods ++ web_pods_of m else web_pods_of m

-- Whether the first container of a pod has an address.
abbrev pub has_address : Pod → Bool
has_address pod = elim pod.containers [ [] ↦ false | c ∷ cs ↦ ltb 0 (length c.container_ip) ]

not_nil-length : (s : Text) → not (s == []) ≡ ltb 0 (length s)
unfolding Text-discrete
not_nil-length [] = refl
not_nil-length (c ∷ s) = ground arith

is_alive-has_address : (pod : Pod) → is_alive pod ≡ has_address pod
unfolding is_alive
is_alive-has_address pod = grind (arith, not_nil-length)

keep-is_alive : (pods : List Pod) → keep is_alive pods ≡ keep has_address pods
keep-is_alive [] = refl
keep-is_alive (pod ∷ pods) = rw (is_alive-has_address pod, keep-is_alive pods) refl

-- The counts of a list of pods.
abbrev pub counts_after : List Pod → Counts → Counts
counts_after pods n = record {
  container_count = n.container_count + length pods;
  alive_count = n.alive_count + length (keep is_alive pods);
}

zip_index-Returns :
    {A B C : Type 0} (f : A → B → C) (xs : List A) (ys : List B)
    → length xs ≤ length ys
    → Returns (zip_index f xs ys) (λ _. Unit)
unfolding zip_index
zip_index-Returns f [] ys h = ground arith
zip_index-Returns f (x ∷ xs) [] h = absurd (omega arith)
zip_index-Returns f (x ∷ xs) (y ∷ ys) h =
    let (zs, e, _) =
      Returns-eq-ok (zip_index f xs ys) _ (zip_index-Returns f xs ys (omega arith)) in
    rw e (ground arith)

-- No nil among the data, and no pod of a web group with more containers than its specification.
abbrev pub FitsSpec : Data PodGroup → Type 0
FitsSpec [] = Unit
FitsSpec ((k, none) ∷ m) = ⊥
FitsSpec ((k, some pg) ∷ m) =
    All (λ pod. length pod.containers ≤ length pg.spec.pod.containers) pg.pods × FitsSpec m

-- The counts after some pods, from those before.
abbrev pub IsAfter : List Pod → Counts → Counts → Type 0
IsAfter pods n n' =
    (n'.container_count ≡ n.container_count + length pods)
    × (n'.alive_count ≡ n.alive_count + length (keep is_alive pods))

IsAfter-cons :
    (pod : Pod) (pods : List Pod) (n n' : Counts)
    → IsAfter pods (count_pod n pod) n'
    → IsAfter (pod ∷ pods) n n'
unfolding count_pod
IsAfter-cons pod pods n n' h = ground arith

keep-append : (p : Pod → Bool) (xs ys : List Pod) → keep p (xs ++ ys) ≡ keep p xs ++ keep p ys
keep-append p [] ys = refl
keep-append p (x ∷ xs) ys = ground (arith, keep-append p xs ys)

IsAfter-append :
    (web : Bool) (xs ys : List Pod) (n n' n'' : Counts)
    → IsAfter (if web then xs else []) n n'
    → IsAfter ys n' n''
    → IsAfter (if web then xs ++ ys else ys) n n''
IsAfter-append true xs ys n n' n'' h k =
    rw
      (
        keep-append is_alive xs ys,
        length-append xs ys,
        length-append (keep is_alive xs) (keep is_alive ys),
      )
      (ground arith)
IsAfter-append false xs ys n n' n'' h k = ground arith

web_pods-Returns :
    (pg : PodGroup) (pods : List Pod) (n : Counts)
    → All (λ pod. length pod.containers ≤ length pg.spec.pod.containers) pods
    → Returns (web_pods pg pods n) (λ r. IsAfter pods n r.1)
unfolding web_pods
web_pods-Returns pg [] n h = ground arith
web_pods-Returns pg (pod ∷ pods) n (h, hs) =
    let f : Spec.Container → ContainerSpec → ContainerForWebrouter =
      λ c s. record { ip = c.container_ip; expose = s.expose } in
    let (cs, e, _) =
      Returns-eq-ok (zip_index f pod.containers pg.spec.pod.containers) _
        (zip_index-Returns f pod.containers pg.spec.pod.containers h) in
    let ((infos, n'), e', (t, a)) =
      Returns-eq-ok (web_pods pg pods (count_pod n pod)) _
        (web_pods-Returns pg pods (count_pod n pod) hs) in
    rw (e, e') (IsAfter-cons pod pods n n' (t, a))

web_item-Returns :
    (pg : PodGroup) (ret : GoMap (List PodInfoForWebrouter)) (n : Counts)
    → All (λ pod. length pod.containers ≤ length pg.spec.pod.containers) pg.pods
    → Returns
        (web_item pg (ret, n))
        (λ r. IsAfter (if is_web pg.spec.name then pg.pods else []) n r.1)
unfolding web_item
web_item-Returns pg ret n h = elim (Bool-cases (is_web pg.spec.name)) [
  | inl web ↦
      let ((infos, n'), e, a) =
        Returns-eq-ok (web_pods pg pg.pods n) _ (web_pods-Returns pg pg.pods n h) in
      rw (web, e) a
  | inr other ↦ rw other (ground arith)
]

for_items-Returns :
    (items : Data PodGroup) (ret : GoMap (List PodInfoForWebrouter)) (n : Counts)
    → FitsSpec items
    → Returns
        (for_items (λ _ pg s. web_item pg s) items (ret, n))
        (λ r. IsAfter (web_pods_of items) n r.1)
unfolding for_items
for_items-Returns [] ret n h = ground arith
for_items-Returns ((k, none) ∷ items) ret n h = absurd h
for_items-Returns ((k, some pg) ∷ items) ret n (h, hs) =
    let ((ret', n'), e, a) = Returns-eq-ok (web_item pg (ret, n)) _ (web_item-Returns pg ret n h) in
    let ((ret'', n''), e', b) =
      Returns-eq-ok (for_items (λ _ pg s. web_item pg s) items (ret', n')) _
        (for_items-Returns items ret' n' hs) in
    rw (e, e') (IsAfter-append (is_web pg.spec.name) pg.pods (web_pods_of items) n n' n'' a b)

has_too_many_dead_iff :
    (pods : List Pod) (n : Counts)
    → IsAfter pods (record { container_count = 0; alive_count = 0 }) n
    → (has_too_many_dead n ≡ true)
      ↔ ((length pods ≡ 0) ⊎ (length (keep is_alive pods) * 2 < length pods))
unfolding has_too_many_dead
has_too_many_dead_iff pods n (t, a) = ((λ p. ground arith), (λ p. ground arith))

-- While no entry is nil and no pod has more containers than its specification, the web router gets
-- an error exactly if there is no pod of a web group, or fewer than half of these pods have a first
-- container with an address; otherwise `Make` returns an answer, with whether it is another one than
-- the old answer.
pub webrouter_make_iff :
    (old : Option (GoMap (List PodInfoForWebrouter))) (items : Data PodGroup)
    → FitsSpec items
    → ((webrouter_make old items ≡ err too_many_dead_containers) ↔ (
        (length (web_pods_of items) ≡ 0)
        ⊎ (length (keep has_address (web_pods_of items)) * 2 < length (web_pods_of items))))
      × (((new : GoMap (List PodInfoForWebrouter)) × (webrouter_make old items
              ≡ ok (changed_from old new)))
          ↔ ((0 < length (web_pods_of items))
              × (length (web_pods_of items) ≤ length (keep has_address (web_pods_of items)) * 2)))
unfolding webrouter_make
webrouter_make_iff old items h =
    let ((ret, n), e, a) =
      Returns-eq-ok
        (for_items (λ _ pg s. web_item pg s) items
          ([], record { container_count = 0; alive_count = 0 }))
        _ (for_items-Returns items [] (record { container_count = 0; alive_count = 0 }) h) in
    let (dead, alive) = has_too_many_dead_iff (web_pods_of items) n a in
    rw (e, sym (keep-is_alive (web_pods_of items)))
      (elim (Bool-cases (has_too_many_dead n)) [
        | inl bad ↦ rw bad (
          ((λ _. dead bad), (λ _. refl)),
          ((λ w. let k = w.1 in cc), (λ (p, q). let h' = dead bad in absurd (omega arith))),
        )
        | inr good ↦
            let none_dead : ¬ (
                (length (web_pods_of items) ≡ 0)
                ⊎ (length (keep is_alive (web_pods_of items)) * 2 < length (web_pods_of items))) =
              λ p. let q = alive p in cc in
            rw good
              (((λ p. cc), (λ p. absurd (none_dead p))), ((λ _. ground arith), (λ _. (ret, refl))))
      ])
