-- ===== src/Endpoints/Replies/Streams.antt =====
-- endpoints: streamrouter_ports.go, streamrouter_streamprocs.go and webrouter_webprocs.go, what the
-- routers are told. `ports_of` is the list of ports that json.Unmarshal reads from an annotation.
use lainlet.Base.{
  ℕ, ◌≡◌, refl, ◌≢◌, ◌⊎◌, inl, inr, Option, none, some, List, [], ◌∷◌, ◌++◌, map, arith,
  if◌then◌else◌, Text, ◌==◌, nat_eq, text_eq, Result, ok, err, panic, ◌>>=◌, length, All,
  ℕ_discrete,
}
use lainlet.Base.{GoMap, lookup, insert}
use lainlet.Base.{List-cases}
use lainlet.Spec.{Pod, PodGroup}
use lainlet.Watcher.Cacher.{Data}
use lainlet.Api.V2.Common.{for_items, zip_index}
use lainlet.Api.V2.Routers.{
  PodInfoForWebrouter, Counts, count_pod, has_too_many_dead, too_many_dead_containers, is_web, Port,
  sort_by,
}
use lainlet.Api.V2.Routers.Streams.{StreamUpstream, StreamProc, stream_services}
use lainlet.Endpoints.Replies.{int32}

-- WebrouterWebprocsEndpoint.make, the loop over the pods
unfoldable pub web_pb_pods :
    PodGroup → List Pod → Counts → Result (List PodInfoForWebrouter × Counts)
unfolding int32
web_pb_pods pg [] n = ok ([], n)
web_pb_pods pg (pod ∷ pods) n = do
  containers ←
      zip_index (λ c s. record { ip = c.container_ip; expose = int32 s.expose }) pod.containers
        pg.spec.pod.containers
  (infos, n') ← web_pb_pods pg pods (count_pod n pod)
  ok (record { annotation = pg.spec.pod.annotation; containers = containers } ∷ infos, n')

-- WebrouterWebprocsEndpoint.make, one turn of the loop over the data
unfoldable pub web_pb_item :
    PodGroup
    → GoMap (List PodInfoForWebrouter) × Counts
    → Result (GoMap (List PodInfoForWebrouter) × Counts)
unfolding web_pb_pods
web_pb_item pg (ret, n) =
    if is_web pg.spec.name
    then web_pb_pods pg pg.pods n >>= (λ (ci, n'). ok (insert pg.spec.name ci ret, n'))
    else ok (ret, n)

-- WebrouterWebprocsEndpoint.make
unfoldable pub web_reply : Data PodGroup → Result (GoMap (List PodInfoForWebrouter))
unfolding web_pb_item
web_reply items = do
  (new, n) ←
      for_items (λ _ pg s. web_pb_item pg s) items
        ([], record { container_count = 0; alive_count = 0 })
  if has_too_many_dead n then err too_many_dead_containers else ok new

-- StreamrouterStreamprocsEndpoint.make, the loop over the pods; a pod with no container panics.
unfoldable pub stream_pb_upstreams : List Pod → Counts → Result (List StreamUpstream × Counts)
unfolding int32
stream_pb_upstreams [] n = ok ([], n)
stream_pb_upstreams (pod ∷ pods) n = elim pod.containers [
  | [] ↦ panic
  | c ∷ cs ↦ do
    (upstreams, n') ← stream_pb_upstreams pods (count_pod n pod)
    ok (record { host = c.container_ip; instance_no = int32 pod.instance_no } ∷ upstreams, n')
]

-- The call sort.Slice(v, …) for each entry, where `v` is a pointer to a message and no slice: it
-- panics.
unfoldable pub sort_messages : GoMap (List StreamProc) → Result (GoMap (List StreamProc))
sort_messages [] = ok []
sort_messages (x ∷ m) = panic

abbrev no_pods : Counts
no_pods = record { container_count = 0; alive_count = 0 }

module _ (ports_of : Text → List Port) where
  -- StreamrouterPortsEndpoint.make
  unfoldable pub ports_reply : Data PodGroup → Result (List ℕ)
  unfolding sort_by
  ports_reply items = do
    ports ←
        for_items (λ _ pg ret. ok (ret ++ map (λ p. p.srcport) (ports_of pg.spec.pod.annotation)))
          items []
    ok (sort_by (λ p. p) ports)

  -- StreamrouterStreamprocsEndpoint.make, one turn of the loop; a map of pointers has nil under a new
  -- key, whose field is then read.
  unfoldable pub stream_pb_item :
      PodGroup → GoMap (List StreamProc) × Counts → Result (GoMap (List StreamProc) × Counts)
  unfolding stream_pb_upstreams stream_services
  stream_pb_item pg (ret, n) =
      let ports = ports_of pg.spec.pod.annotation in
      if length ports == 0
      then ok (ret, n)
      else stream_pb_upstreams pg.pods n >>= (λ (upstreams, n').
        let proc : StreamProc = record {
          name = pg.spec.name;
          upstreams = upstreams;
          services = stream_services ports;
        } in
        elim (lookup pg.spec.namespace ret) [
          | none ↦ panic
          | some procs ↦ ok (insert pg.spec.namespace (procs ++ proc ∷ []) ret, n')
        ])

  -- StreamrouterStreamprocsEndpoint.make
  unfoldable pub stream_reply : Data PodGroup → Result (GoMap (List StreamProc))
  unfolding stream_pb_item sort_messages
  stream_reply items = do
    (new, n) ← for_items (λ _ pg s. stream_pb_item pg s) items ([], no_pods)
    sorted ← sort_messages new
    if has_too_many_dead n then err too_many_dead_containers else ok sorted

  -- A pod group, and no nil, that names no port.
  abbrev pub HasNoPorts : Text × Option PodGroup → Type 0
  HasNoPorts (k, none) = ⊥
  HasNoPorts (k, some pg) = length (ports_of pg.spec.pod.annotation) ≡ 0

  stream_pb_item-none :
      (pg : PodGroup) (n : Counts)
      → length (ports_of pg.spec.pod.annotation) ≡ 0
      → stream_pb_item pg ([], n) ≡ ok ([], n)
  unfolding stream_pb_item ℕ_discrete
  stream_pb_item-none pg n h = rw h refl

  -- A loop over pods has no error, and panics or goes through.
  stream_pb_upstreams-cases :
      (pods : List Pod) (n : Counts)
      → (stream_pb_upstreams pods n ≡ panic)
        ⊎ ((s : List StreamUpstream × Counts) × (stream_pb_upstreams pods n ≡ ok s))
  unfolding stream_pb_upstreams
  stream_pb_upstreams-cases [] n = inr (([], n), refl)
  stream_pb_upstreams-cases (pod ∷ pods) n =
      elim (stream_pb_upstreams-cases pods (count_pod n pod)) [
        | inl stops ↦ inl (ground arith)
        | inr (s, goes) ↦ elim (List-cases pod.containers) [
          | inl none_there ↦ inl (rw none_there refl)
          | inr (c, cs, eq) ↦ inr (
            (record { host = c.container_ip; instance_no = int32 pod.instance_no } ∷ s.0, s.1),
            rw (eq, goes) refl,
          )
        ]
      ]

  stream_pb_item-some :
      (pg : PodGroup) (n : Counts)
      → length (ports_of pg.spec.pod.annotation) ≢ 0
      → stream_pb_item pg ([], n) ≡ panic
  unfolding stream_pb_item lookup
  stream_pb_item-some pg n h = elim (stream_pb_upstreams-cases pg.pods n) [
    | inl stops ↦ ground arith
    | inr (s, goes) ↦ ground arith
  ]

  items-cases :
      (items : Data PodGroup) (n : Counts)
      → (All HasNoPorts items
          × (for_items (λ _ pg s. stream_pb_item pg s) items ([], n) ≡ ok ([], n)))
        ⊎ ((¬ All HasNoPorts items)
            × (for_items (λ _ pg s. stream_pb_item pg s) items ([], n) ≡ panic))
  unfolding for_items
  items-cases [] n = inl (tt, refl)
  items-cases ((k, none) ∷ items) n = inr ((λ all. all.0), refl)
  items-cases ((k, some pg) ∷ items) n =
      elim (ℕ_discrete (length (ports_of pg.spec.pod.annotation)) 0) [
        | yes silent ↦ elim (items-cases items n) [
          | inl (all, goes) ↦ inl ((silent, all), rw (stream_pb_item-none pg n silent) goes)
          | inr (some_port, stops) ↦
              inr ((λ all. some_port all.1), rw (stream_pb_item-none pg n silent) stops)
        ]
        | no named ↦ inr ((λ all. named all.0), rw (stream_pb_item-some pg n named) refl)
      ]

  -- The stream router never gets an answer: where no entry is nil and no pod group names a port, it is
  -- told that too many containers are dead, and otherwise `make` panics.
  pub stream_reply-cases :
      (items : Data PodGroup)
      → (All HasNoPorts items × (stream_reply items ≡ err too_many_dead_containers))
        ⊎ ((¬ All HasNoPorts items) × (stream_reply items ≡ panic))
  unfolding stream_reply sort_messages has_too_many_dead
  stream_reply-cases items = elim (items-cases items no_pods) [
    | inl (all, goes) ↦ inl (all, rw goes (ground arith))
    | inr (some_port, stops) ↦ inr (some_port, rw stops refl)
  ]
