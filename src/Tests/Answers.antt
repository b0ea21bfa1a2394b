-- ===== src/Tests/Answers.antt =====
-- Examples for api/: the answers and the handlers.
use lainlet.Api.V2.Common.{changed_from}
use lainlet.Base.{ap, GoMap}
use lainlet.Base.{
  ◌≤◌, ℕ, Bool, ◌*◌, ◌<◌, ◌≡◌, refl, ◌↔◌, ◌⊎◌, true, false, not, none, some, List, [], ◌∷◌, map,
  arith, if◌then◌else◌, Text, ◌==◌, nat_eq, text_eq, Text-discrete, Result, ok, err, panic, Returns,
  length, take, keep, any, contains, codes, ℕ_discrete,
}
use lainlet.Spec.{Container, PodGroup}
use lainlet.Store.{Action}
use lainlet.Watcher.Cacher.{Data}
use lainlet.Watcher.Sender.{Event}
use lainlet.Watcher.Container.{Info}
use lainlet.Api.Keys.{Request}
use lainlet.Api.Server.{Api, End, watcher_names, handle_get, handle_watch}
use lainlet.Api.Server.Get.{handle_get_iff}
use lainlet.Api.Server.Watch.{view, handle_watch-view}
use lainlet.Api.V2.Routers.{
  Port, too_many_dead_containers, webrouter_make, ports_data, PodInfoForWebrouter, web_eq,
}
use lainlet.Api.V2.Routers.Alive.{has_address, web_pods_of, webrouter_make_iff}
use lainlet.Api.V2.Routers.Sorted.{IsSorted, count_of, srcports, ports_data_lem}
use lainlet.Api.V2.LocalSpec.{
  is_at, values, localspec_data, localspec_make, localspec_data_lem, localspec_make_panics, IsOnce,
}

abbrev container : Text → Container
container ip = record {
  id = codes "c1";
  runtime_env = [];
  node_name = codes "node1";
  node_ip = codes "192.168.77.21";
  container_ip = ip;
  container_port = 80;
}

-- A web group with a dead and a live pod.
abbrev group : PodGroup
group = record {
  spec = record {
    name = codes "hello.web.web";
    namespace = codes "hello";
    pod = record {
      containers =
          record {
            image = [];
            env = [];
            volumes = [];
            command = [];
            cpu_limit = 0;
            memory_limit = 0;
            expose = 80;
          }
          ∷ [];
      dependencies = [];
      annotation = codes "{}";
    };
  };
  pods =
      record { instance_no = 1; containers = container (codes "172.20.0.2") ∷ [] }
      ∷ record { instance_no = 2; containers = container [] ∷ [] }
      ∷ [];
}

abbrev groups : Data PodGroup
groups = (codes "hello/hello.web.web", some group) ∷ []

webrouter_make_iff_example :
    ((webrouter_make none groups ≡ err too_many_dead_containers) ↔ (
      (length (web_pods_of groups) ≡ 0)
      ⊎ (length (keep has_address (web_pods_of groups)) * 2 < length (web_pods_of groups))))
    × (((new : GoMap (List PodInfoForWebrouter)) × (webrouter_make none groups
            ≡ ok (changed_from none new)))
        ↔ ((0 < length (web_pods_of groups))
            × (length (web_pods_of groups) ≤ length (keep has_address (web_pods_of groups)) * 2)))
webrouter_make_iff_example = webrouter_make_iff none groups ((omega arith, (omega arith, tt)), tt)

abbrev two_ports : Text → List Port
two_ports annotation =
    record { srcport = 9000; dstport = 80; proto = [] }
    ∷ record { srcport = 22; dstport = 22; proto = [] }
    ∷ []

ports_data_lem_example : Returns (ports_data two_ports groups) (λ ports.
    IsSorted ports × ((n : ℕ) → count_of n ports ≡ count_of n (srcports two_ports groups)))
ports_data_lem_example = ports_data_lem two_ports groups (refl, tt)

abbrev info : Info
info = record {
  app_name = codes "hello";
  app_version = [];
  proc_name = codes "hello.web.web";
  node_name = [];
  node_ip = [];
  ip = [];
  port = 80;
  instance_no = 1;
}

localspec_data_lem_example :
    Returns (localspec_data ((codes "a/1", some info) ∷ (codes "a/2", some info) ∷ [])) (
      IsOnce (codes "hello/hello.web.web") (
        any
          (is_at (codes "hello/hello.web.web"))
          (values ((codes "a/1", some info) ∷ (codes "a/2", some info) ∷ []))))
localspec_data_lem_example =
    localspec_data_lem ((codes "a/1", some info) ∷ (codes "a/2", some info) ∷ [])
      (codes "hello/hello.web.web") refl

localspec_make_panics_example :
    localspec_make none ((codes "a/1", some info) ∷ (codes "a/2", none) ∷ []) ≡ panic
localspec_make_panics_example =
    localspec_make_panics none ((codes "a/1", some info) ∷ (codes "a/2", none) ∷ []) refl

-- An API that answers with the number of entries, as a text of that length.
abbrev sized : Api ℕ Text
sized = record {
  uri = codes "/size";
  watcher_name = codes "config";
  is_ban_watcher = false;
  key = λ r. if r.remote_addr == [] then err (codes "no address") else ok (codes "*");
  make = λ s items. ok (length items, not (s == length items));
  encode = λ s. ok (map (λ _. b'#') (take s (codes "########")));
}

abbrev request : Request
request = record { remote_addr = codes "127.0.0.1:80"; form = [] }

abbrev found_one : Text → Text → Result (Data Text)
found_one name key = ok ((codes "a", some []) ∷ [])

handle_get_iff_example :
    ((handle_get sized 0 found_one request ≡ ok (200, codes "#")) ↔ (
      (key : Text) × (sized.key request ≡ ok key)
      × (contains sized.watcher_name watcher_names ≡ true)
      × (items : Data Text) × (found_one sized.watcher_name key ≡ ok items)
      × (new : ℕ) × (changed : Bool) × (sized.make 0 items ≡ ok (new, changed))
      × (sized.encode new ≡ ok (codes "#"))))
    × ((handle_get sized 0 found_one request ≡ ok (400, codes "#"))
        ↔ (sized.key request ≡ err (codes "#")))
handle_get_iff_example = handle_get_iff sized 0 found_one request (codes "#")

abbrev sizes : List (Event Text)
sizes =
    record { id = 2; action = Action.set; content = (codes "b", some []) ∷ [] }
    ∷ record { id = 3; action = Action.set; content = [] }
    ∷ []

handle_watch-view_example :
    (view [] (handle_watch sized 0 found_one request (ok sizes)).0 ≡ [])
    × ((handle_watch sized 0 found_one request (ok sizes)).1 ≡ End.returned)
unfolding Text-discrete ℕ_discrete
handle_watch-view_example =
    handle_watch-view sized (λ items. length items)
      (λ s. map (λ _. b'#') (take s (codes "########"))) (λ s t. s == t)
      (λ s t h. ap (λ n. map (λ _. b'#') (take n (codes "########"))) (ground arith))
      (λ d. Unit {0}) (λ s d good. refl) (λ s. refl) 0 found_one request (codes "*")
      ((codes "a", some []) ∷ []) sizes refl refl refl refl tt (refl, (refl, tt)) (tt, (tt, tt))
