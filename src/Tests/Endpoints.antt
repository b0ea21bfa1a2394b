-- ===== src/Tests/Endpoints.antt =====
-- Examples for endpoints/: the configuration service, and the stream router.
use lainlet.Api.V2.Pods.{ProcPod}
use lainlet.Base.{
  ◌≡◌, refl, ◌⊎◌, true, false, none, some, List, [], ◌∷◌, Text, nat_eq, text_eq, Text-discrete, err,
  panic, All, codes, ℕ_discrete, ok, arith,
}
use lainlet.Base.{GoMap, lookup, insert}
use lainlet.Spec.{PodGroup}
use lainlet.Auth.{Auth, is_super}
use lainlet.Store.{Action}
use lainlet.Watcher.Cacher.{Data}
use lainlet.Watcher.Sender.{Event}
use lainlet.Watcher.Loop
use lainlet.Watcher.Loop.{new_watcher}
use lainlet.Watcher.Container.{Info}
use lainlet.Api.Keys as Http
use lainlet.Api.V2.Common.{deep_equal, is_within, for_items, map_result}
use lainlet.Api.V2.Routers.{Port, too_many_dead_containers}
use lainlet.Endpoints.{Call, hears, asks, serve}
use lainlet.GrpcClient.{Stream, receiving, after_recv, go_on, receive, next_result}
use lainlet.GrpcClient.Turns
use lainlet.GrpcClient.Turns.{
  System, Reach, idle, opened, next, reads, receives, returns, delivered,
}
use lainlet.GrpcClient.Served.{replies_to, last_of, serve-Reach}
use lainlet.Endpoints.Keys as Grpc
use lainlet.Endpoints.SameKeys.{asking, from, same_keys}
use lainlet.Endpoints.Sharing.{
  IsNew, view_of, last_heard, IsAlone, serve_first_only, serve-view, IsMade,
}
use lainlet.Endpoints.Replies.{config_reply, podgroup_reply}
use lainlet.Endpoints.Replies.Streams.{HasNoPorts, stream_reply, stream_reply-cases}
use lainlet.Endpoints.Services.{
  config_endpoint, same_values_refl, config_reply-IsMap, podgroup_endpoint,
}
use lainlet.Endpoints.Services.Methods.{get_localspec}
use lainlet.Endpoints.Services.LocalIp.{get_localspec_unset}

-- Everything is allowed while auth is not active.
abbrev open_auth : Auth
open_auth = record {
  active = false;
  local_ip = codes "192.168.77.21";
  depends = new_watcher (codes "/lain/deployd/depends/pods") [];
  podgroup = new_watcher (codes "/lain/deployd/pod_groups") [];
  super_apps = new_watcher (codes "/lain/config/super_apps") tt;
}

abbrev caller : Text
caller = codes "172.20.0.2:4000"

same_keys_example :
    Grpc.config_key open_auth (codes "vips") (from caller)
    ≡ Http.config_key open_auth (asking caller (codes "target") (codes "vips"))
same_keys_example = (same_keys open_auth caller (codes "vips")).5

abbrev key : Text
key = codes "dns"

abbrev data_of : Text → Data Text
data_of value = (key, some value) ∷ []

abbrev event : Text → Event Text
event value = record { id = 2; action = Action.set; content = data_of value }

abbrev cache : GoMap (GoMap Text)
cache = (key, (key, codes "1") ∷ []) ∷ []

cache-IsNew : IsNew (config_endpoint open_auth) cache key (config_reply (data_of (codes "2")) [])
unfolding lookup Text-discrete config_endpoint deep_equal config_reply insert is_within
cache-IsNew = refl

serve_first_only_example :
    ((serve
        (config_endpoint open_auth)
        cache
        (hears 1 key (event (codes "2")) ∷ hears 2 key (event (codes "2")) ∷ [])).1
      ≡ (1, config_reply (data_of (codes "2")) []) ∷ [])
    × ((serve
          (config_endpoint open_auth)
          cache
          (asks key (data_of (codes "2")) ∷ hears 2 key (event (codes "2")) ∷ [])).1
        ≡ [])
unfolding config_endpoint deep_equal ℕ_discrete config_reply insert is_within lookup Text-discrete
serve_first_only_example =
    serve_first_only (config_endpoint open_auth) cache key (event (codes "2"))
      (config_reply (data_of (codes "2")) []) 1 2 refl refl refl refl cache-IsNew

abbrev reply : Data Text → GoMap Text
reply d = config_reply d []

config-reflexive : (d : Data Text) → (config_endpoint open_auth).same (reply d) (reply d) ≡ true
unfolding config_endpoint
config-reflexive d = same_values_refl (reply d) (config_reply-IsMap d [] tt)

abbrev calls : List (Call Text)
calls =
    hears 1 key (event (codes "2"))
    ∷ asks (codes "*") (data_of (codes "2"))
    ∷ hears 1 key (event (codes "2"))
    ∷ []

calls-IsAlone : All (IsAlone 1 key) calls
unfolding ℕ_discrete Text-discrete
calls-IsAlone = ((refl, refl), (refl, ((refl, refl), tt)))

calls-IsMade : All (IsMade (config_endpoint open_auth) reply) calls
unfolding config_endpoint
calls-IsMade = (refl, (refl, (refl, tt)))

-- The replies that the client of stream 1 takes with two calls of Next.
abbrev replies : List (GoMap Text)
replies = reply (data_of (codes "1")) ∷ reply (data_of (codes "2")) ∷ []

abbrev stream : Stream (GoMap Text)
stream = record { replies = replies; failure = none }

replies-sent :
    stream.replies
    ≡ reply (data_of (codes "1")) ∷ replies_to 1 (serve (config_endpoint open_auth) cache calls).1
unfolding serve config_endpoint deep_equal ℕ_discrete config_reply insert is_within lookup
    Text-discrete
replies-sent = refl

abbrev taken : System (GoMap Text)
taken = record {
  reader = record {
    phase = receiving;
    stream = record { replies = []; failure = none };
    error = none;
  };
  caller = idle;
  results =
      (some (reply (data_of (codes "1"))), none) ∷ (some (reply (data_of (codes "2"))), none) ∷ [];
}

two_taken : Reach stream taken
unfolding go_on after_recv receive next_result
two_taken =
    next
      (next
        (next
          (next
            (next (next (next (next opened reads) (Turns.calls refl)) (receives _ _ refl refl))
              reads)
            (returns _ refl))
          (Turns.calls refl))
        (receives _ _ refl refl))
      (returns _ refl)

serve-Reach_example :
    (config_endpoint open_auth).same
      (last_of (reply (data_of (codes "1"))) (delivered taken.results))
      (reply (last_heard key (data_of (codes "1")) calls))
    ≡ true
unfolding config_endpoint config_reply insert lookup Text-discrete ℕ_discrete
serve-Reach_example =
    serve-Reach (config_endpoint open_auth) reply config-reflexive refl calls cache 1 key
      (data_of (codes "1")) stream calls-IsAlone calls-IsMade refl replies-sent two_taken refl

-- One port for every annotation.
abbrev ports_of : Text → List Port
ports_of annotation = record { srcport = 8080; dstport = 80; proto = codes "tcp" } ∷ []

abbrev group : PodGroup
group = record {
  spec = record {
    name = codes "hello.worker.a";
    namespace = codes "hello";
    pod = record { containers = []; dependencies = []; annotation = [] };
  };
  pods = [];
}

abbrev groups : Data PodGroup
groups = (codes "hello", some group) ∷ []

stream_reply-cases_example :
    (All (HasNoPorts ports_of) groups
      × (stream_reply ports_of groups ≡ err too_many_dead_containers))
    ⊎ ((¬ All (HasNoPorts ports_of) groups) × (stream_reply ports_of groups ≡ panic))
stream_reply-cases_example = stream_reply-cases ports_of groups

abbrev containers : Loop.Watcher (Unit {0}) Info
containers = new_watcher (codes "/lain/deployd/pod_groups") tt

get_localspec_unset_example :
    get_localspec open_auth [] (λ k. Loop.get k containers) [] (from caller)
    ≡ ([], err (codes "empty key"))
unfolding is_super
get_localspec_unset_example = get_localspec_unset open_auth [] containers caller refl

-- The reply that the service of the pod groups makes of data without a nil.
abbrev pods_reply : Data PodGroup → List (List ProcPod)
pods_reply d = elim (podgroup_reply d) [ ok r ↦ r | err m ↦ [] | panic ↦ [] ]

pods-reflexive :
    (d : Data PodGroup) → (podgroup_endpoint open_auth).same (pods_reply d) (pods_reply d) ≡ true
unfolding podgroup_endpoint
pods-reflexive d = ground arith

abbrev hello : Text
hello = codes "hello/"

abbrev pods_event : Data PodGroup → Event PodGroup
pods_event d = record { id = 2; action = Action.update; content = d }

-- A stream that hears of its application while another one hears of a second application.
abbrev pods_calls : List (Call PodGroup)
pods_calls =
    hears 1 hello (pods_event groups)
    ∷ hears 2 (codes "hello-world/") (pods_event [])
    ∷ asks (codes "*") groups
    ∷ []

pods_calls-IsAlone : All (IsAlone 1 hello) pods_calls
unfolding ℕ_discrete Text-discrete
pods_calls-IsAlone = ((refl, refl), ((refl, refl), (refl, tt)))

pods_calls-IsMade : All (IsMade (podgroup_endpoint open_auth) pods_reply) pods_calls
unfolding podgroup_endpoint podgroup_reply for_items map_result
pods_calls-IsMade = (refl, (refl, (refl, tt)))

serve-view_example :
    (podgroup_endpoint open_auth).same
      (view_of 1
        (pods_reply [])
        (serve (podgroup_endpoint open_auth) ((hello, pods_reply []) ∷ []) pods_calls).1)
      (pods_reply (last_heard hello [] pods_calls))
    ≡ true
unfolding podgroup_endpoint lookup Text-discrete ℕ_discrete
serve-view_example =
    serve-view (podgroup_endpoint open_auth) pods_reply pods-reflexive refl pods_calls
      ((hello, pods_reply []) ∷ []) 1 hello [] (pods_reply []) pods_calls-IsAlone pods_calls-IsMade
      refl (pods-reflexive [])
