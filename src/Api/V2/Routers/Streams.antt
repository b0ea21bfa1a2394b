-- ===== src/Api/V2/Routers/Streams.antt =====
-- api/v2/streamrouter_streamprocs.go: the processes that the stream router forwards to. sort.Slice is
-- an insertion sort here, one of the orders in which it may leave equal keys.
use lainlet.Base.{
  ℕ, Bool, true, false, Option, none, some, List, [], ◌∷◌, ◌++◌, map, ltb, if◌then◌else◌, Text, Eq,
  ◌==◌, nat_eq, text_eq, Result, ok, err, panic, ◌>>=◌, length, ℕ_discrete,
}
use lainlet.Base.{GoMap, lookup, insert}
use lainlet.Spec.{Pod, PodGroup}
use lainlet.Watcher.Cacher.{Data}
use lainlet.Api.V2.Common.{for_items, changed_from}
use lainlet.Api.V2.Routers.{
  Counts, count_pod, too_many_dead_containers, has_too_many_dead, Port, sort_by,
}

-- v2.StreamUpstream, v2.StreamService and v2.StreamProc
pub record StreamUpstream : Type 0 where
  pub host : Text
  pub instance_no : ℕ

pub record StreamService : Type 0 where
  pub upstream_port : ℕ
  pub listen_port : ℕ
  pub send : Text
  pub expect : Text

pub record StreamProc : Type 0 where
  pub name : Text
  pub upstreams : List StreamUpstream
  pub services : List StreamService

-- The services of a stream process, one for each port.
unfoldable pub stream_services : List Port → List StreamService
stream_services ports =
    map (λ p. record { upstream_port = p.dstport; listen_port = p.srcport; send = []; expect = [] })
      ports

-- The loop over the pods of a stream process; a pod with no container panics.
unfoldable pub stream_upstreams : List Pod → Counts → Result (List StreamUpstream × Counts)
stream_upstreams [] n = ok ([], n)
stream_upstreams (pod ∷ pods) n = elim pod.containers [
  | [] ↦ panic
  | c ∷ cs ↦ do
    (upstreams, n') ← stream_upstreams pods (count_pod n pod)
    ok (record { host = c.container_ip; instance_no = pod.instance_no } ∷ upstreams, n')
]

unfoldable pub stream-discrete : Discrete (List StreamProc)
unfolding ℕ_discrete
stream-discrete = hlevel ℕ_discrete

instance abbrev pub stream_eq : Eq (List StreamProc)
stream_eq = record { dec = stream-discrete }

-- `<` on two strings
unfoldable pub is_less : Text → Text → Bool
is_less s [] = false
is_less [] (d ∷ t) = true
is_less (c ∷ s) (d ∷ t) = let rest = is_less s t in if c == d then rest else ltb c d

-- The upstreams and the services of a process in order.
unfoldable pub sort_parts : StreamProc → StreamProc
unfolding sort_by
sort_parts p = record p {
  upstreams = sort_by (λ u. u.instance_no) p.upstreams;
  services = sort_by (λ s. s.listen_port) p.services;
}

unfoldable pub insert_proc : StreamProc → List StreamProc → List StreamProc
unfolding is_less
insert_proc p [] = p ∷ []
insert_proc p (q ∷ qs) =
    let rest = insert_proc p qs in if is_less q.name p.name then q ∷ rest else p ∷ q ∷ qs

-- The sorting of the processes of one application.
unfoldable pub sort_procs : List StreamProc → List StreamProc
unfolding insert_proc sort_parts
sort_procs [] = []
sort_procs (p ∷ ps) = insert_proc (sort_parts p) (sort_procs ps)

module _ (ports_of : Text → List Port) where
  -- One turn of the loop of StreamRouterInfo.Make.
  unfoldable pub stream_item :
      PodGroup → GoMap (List StreamProc) × Counts → Result (GoMap (List StreamProc) × Counts)
  unfolding stream_services stream_upstreams
  stream_item pg (ret, n) =
      let ports = ports_of pg.spec.pod.annotation in
      if length ports == 0
      then ok (ret, n)
      else stream_upstreams pg.pods n >>= (λ (upstreams, n').
        let proc : StreamProc = record {
          name = pg.spec.name;
          upstreams = upstreams;
          services = stream_services ports;
        } in
        let procs : List StreamProc = elim (lookup pg.spec.namespace ret) [
          | some ps ↦ ps
          | none ↦ []
        ] in
        ok (insert pg.spec.namespace (procs ++ proc ∷ []) ret, n'))

  -- StreamRouterInfo.Make
  unfoldable pub stream_make :
      Option (GoMap (List StreamProc)) → Data PodGroup → Result (GoMap (List StreamProc) × Bool)
  unfolding stream_item
  stream_make old items = do
    (new, n) ←
        for_items (λ _ pg s. stream_item pg s) items
          ([], record { container_count = 0; alive_count = 0 })
    let sorted = map (λ x. (x.0, sort_procs x.1)) new
    if has_too_many_dead n then err too_many_dead_containers else ok (changed_from old sorted)
