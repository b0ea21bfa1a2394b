-- ===== src/Api/V2/Routers.antt =====
-- api/v2: webrouter_webprocs.go and streamrouter_ports.go, what the
-- routers in front of the applications are told. `ports_of` is the list of ports that json.Unmarshal
-- reads from an annotation, empty where it reads none.
pub mod Alive
pub mod Sorted
pub mod Streams
use lainlet.Base.{
  ℕ, ◌+◌, ◌-◌, ◌*◌, Bool, false, not, ◌&&◌, ◌||◌, Option, none, some, List, [], ◌∷◌, ◌++◌, map, ltb,
  leb, if◌then◌else◌, Text, Eq, ◌==◌, nat_eq, text_eq, Result, ok, err, ◌>>=◌, length, get_elem?,
  codes, split, ℕ_discrete,
}
use lainlet.Base.{GoMap, insert}
use lainlet.Spec
use lainlet.Spec.{ContainerSpec, Pod, PodGroup}
use lainlet.Watcher.Cacher.{Data}
use lainlet.Api.V2.Common.{for_items, zip_index, map_result, changed_from, deep_equal}

-- v2.ContainerForWebrouter and v2.PodInfoForWebrouter; a CoreInfoForWebrouter is its list of pods.
pub record ContainerForWebrouter : Type 0 where
  pub ip : Text
  pub expose : ℕ

pub record PodInfoForWebrouter : Type 0 where
  pub annotation : Text
  pub containers : List ContainerForWebrouter

unfoldable pub web-discrete : Discrete (List PodInfoForWebrouter)
unfolding ℕ_discrete
web-discrete = hlevel ℕ_discrete

instance abbrev pub web_eq : Eq (List PodInfoForWebrouter)
web_eq = record { dec = web-discrete }

-- containerCount and aliveCount
pub record Counts : Type 0 where
  pub container_count : ℕ
  pub alive_count : ℕ

-- len(pod.Containers) > 0 && len(pod.Containers[0].ContainerIp) > 0
unfoldable pub is_alive : Pod → Bool
is_alive pod = elim pod.containers [ [] ↦ false | c ∷ cs ↦ not (c.container_ip == []) ]

unfoldable pub count_pod : Counts → Pod → Counts
count_pod n pod = record {
  container_count = n.container_count + 1;
  alive_count = n.alive_count + (if is_alive pod then 1 else 0);
}

-- tooManyDeadContainersError
abbrev pub too_many_dead_containers : Text
too_many_dead_containers = codes "over half of the containers lost their IPs"

-- containerCount == 0 || aliveCount*2 < containerCount
unfoldable pub has_too_many_dead : Counts → Bool
has_too_many_dead n = n.container_count == 0 || ltb (n.alive_count * 2) n.container_count

-- len(parts) < 3 || parts[len(parts)-2] != "web", negated
unfoldable pub is_web : Text → Bool
is_web name =
    let parts = split name b'.' in
    not (ltb (length parts) 3) && (elim (get_elem? parts (length parts - 2)) [
      | some part ↦ part == codes "web"
      | none ↦ false
    ])

-- The loop over the pods of a web group, the counts and the answer; a pod with more containers than
-- the specification panics.
unfoldable pub web_pods : PodGroup → List Pod → Counts → Result (List PodInfoForWebrouter × Counts)
web_pods pg [] n = ok ([], n)
web_pods pg (pod ∷ pods) n = do
  containers ←
      zip_index (λ c s. record { ip = c.container_ip; expose = s.expose }) pod.containers
        pg.spec.pod.containers
  (infos, n') ← web_pods pg pods (count_pod n pod)
  ok (record { annotation = pg.spec.pod.annotation; containers = containers } ∷ infos, n')

-- One turn of the loop over the data.
unfoldable pub web_item :
    PodGroup
    → GoMap (List PodInfoForWebrouter) × Counts
    → Result (GoMap (List PodInfoForWebrouter) × Counts)
unfolding web_pods
web_item pg (ret, n) =
    if is_web pg.spec.name
    then web_pods pg pg.pods n >>= (λ (ci, n'). ok (insert pg.spec.name ci ret, n'))
    else ok (ret, n)

-- WebrouterInfo.Make
unfoldable pub webrouter_make :
    Option (GoMap (List PodInfoForWebrouter))
    → Data PodGroup
    → Result (GoMap (List PodInfoForWebrouter) × Bool)
unfolding web_item
webrouter_make old items = do
  (new, n) ←
      for_items (λ _ pg s. web_item pg s) items
        ([], record { container_count = 0; alive_count = 0 })
  if has_too_many_dead n then err too_many_dead_containers else ok (changed_from old new)

-- v2.Port
pub record Port : Type 0 where
  pub srcport : ℕ
  pub dstport : ℕ
  pub proto : Text

-- sort.Slice by a key in ℕ, on a slice
unfoldable pub insert_by {ℓ} : {A : Type ℓ} → (A → ℕ) → A → List A → List A
insert_by f x [] = x ∷ []
insert_by f x (y ∷ ys) =
    let rest = insert_by f x ys in if leb (f x) (f y) then x ∷ y ∷ ys else y ∷ rest

unfoldable pub sort_by {ℓ} : {A : Type ℓ} → (A → ℕ) → List A → List A
unfolding insert_by
sort_by f [] = []
sort_by f (x ∷ xs) = insert_by f x (sort_by f xs)

module _ (ports_of : Text → List Port) where
  -- The data of Ports.Make.
  unfoldable pub ports_data : Data PodGroup → Result (List ℕ)
  unfolding sort_by
  ports_data items = do
    ports ←
        for_items (λ _ pg ret. ok (ret ++ map (λ p. p.srcport) (ports_of pg.spec.pod.annotation)))
          items []
    ok (sort_by (λ p. p) ports)

  -- Ports.Make
  unfoldable pub ports_make : Option (List ℕ) → Data PodGroup → Result (List ℕ × Bool)
  ports_make old items = do
    new ← ports_data items
    ok (new, not (elim old [ none ↦ false | some ports ↦ ports == new ]))
