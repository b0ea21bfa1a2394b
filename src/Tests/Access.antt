-- ===== src/Tests/Access.antt =====
-- Examples for auth/ and for the keys of api/v2: an application at one address, and one super
-- application.
use lainlet.Api.Keys.Prefixes.{IsName, head_part}
use mathlib.Core.List.{Memᴰ}
use lainlet.Base.{
  ◌≡◌, refl, ◌↔◌, ◌⊎◌, inl, true, false, ◌||◌, Option, some, [], ◌∷◌, ◌++◌, if◌then◌else◌, Text,
  nat_eq, text_eq, Text-discrete, is_some, ok, err, Returns, length, contains, codes,
  last_index_byte, ℕ_discrete, none, split,
}
use lainlet.Base.{lookup}
use lainlet.Spec.{PodGroup}
use lainlet.Store.{KvPair, Action, Event, slash}
use lainlet.Watcher.Cacher.{Data, Cacher, new_cacher, get}
use lainlet.Watcher.Sender.{new_sender}
use lainlet.Watcher.Sender.Reachable.{new_sender-IsSound}
use lainlet.Watcher.Loop.{new_watcher, on_event}
use lainlet.Auth.{ContainerInfo, Auth, is_super_app, is_local, pass, is_super}
use lainlet.Auth.Super.{cached, starting_with, is_super_app_iff}
use lainlet.Auth.Pass.{IsHost, HasNoNil, may_see, pass_lem}
use lainlet.Auth.Convert.{podgroup_converter}
use lainlet.Auth.Convert.Owners.{pod_ips, app_of, podgroup_update}
use lainlet.Api.Keys.{Request, get_string, star, no_permission, config_key, app_key, secret_keys}
use lainlet.Api.Keys.Rights.{target_of, config_key_leak, app_key_named, IsOpen, config_key_iff}

abbrev console : Data Text
console = (codes "console", some []) ∷ []

abbrev hello : ContainerInfo
hello = record { app_name = codes "hello"; proc = codes "hello.web.web"; container_id = codes "c1" }

abbrev host : Text
host = codes "172.20.0.2"

abbrev port : Text
port = codes "4000"

-- The state of the package with these.
abbrev auth : Auth
auth = record {
  active = true;
  local_ip = codes "192.168.77.21";
  depends = new_watcher (codes "/lain/deployd/depends/pods") [];
  podgroup = record (new_watcher (codes "/lain/deployd/pod_groups") []) {
    sender = new_sender (some ((host, some hello) ∷ []));
  };
  super_apps = record (new_watcher (codes "/lain/config/super_apps") tt) {
    sender = new_sender (some console);
  };
}

is_super_app_iff_example : (is_super_app auth (codes "con") ≡ true) ↔ (
    (is_some (lookup (codes "con") (cached auth.super_apps)) ≡ true)
    ⊎ (length (starting_with (codes "con") auth) ≡ 1))
is_super_app_iff_example = is_super_app_iff auth (codes "con") refl ((λ e. cc), (λ e. cc))

host-IsHost : IsHost host
unfolding last_index_byte ℕ_discrete
host-IsHost = (((λ e. cc), (λ e. cc)), refl)

host-HasNoNil : HasNoNil auth host
unfolding new_watcher new_sender new_cacher lookup Text-discrete ℕ_discrete
host-HasNoNil = ((λ e. cc), (λ e. cc))

port-digits : contains b':' port ≡ false
unfolding ℕ_discrete
port-digits = refl

pass_lem_example :
    pass auth (host ++ b':' ∷ port) (codes "hello")
    ≡ ok (is_local auth host || may_see auth host (codes "hello"))
pass_lem_example =
    pass_lem auth host port (codes "hello") refl port-digits host-IsHost host-HasNoNil

abbrev request : Request
request = record { remote_addr = host ++ b':' ∷ port; form = (codes "appname", codes "hello") ∷ [] }

request-asked : get_string request (codes "appname") star ≡ codes "hello"
unfolding get_string lookup Text-discrete ℕ_discrete
request-asked = refl

hello-IsName : IsName (codes "hello")
unfolding ℕ_discrete
hello-IsName = ((λ e. cc), refl)

-- An entry of the application, and one of another application whose name starts alike.
abbrev groups : Cacher Text
groups = record {
  entries =
      (codes "hello/hello.web.web", some (codes "one"))
      ∷ (codes "hello-world/hello-world.web.web", some (codes "two"))
      ∷ [];
}

groups-NoSlash : lookup (codes "hello" ++ slash ∷ []) groups.entries ≡ none
unfolding lookup Text-discrete ℕ_discrete
groups-NoSlash = refl

app_key_named_example :
    (app_key auth request ≡ (
      if is_local auth host || may_see auth host (codes "hello")
      then ok (codes "hello" ++ slash ∷ [])
      else err no_permission))
    × ((j : Text) (v : Option Text)
        → (lookup j (get groups (codes "hello" ++ slash ∷ [])) ≡ some v) ↔ (
            (lookup j groups.entries ≡ some v)
            × (head_part (split j slash) ≡ some (codes "hello"))))
app_key_named_example =
    app_key_named auth request host port (codes "hello") groups refl refl port-digits host-IsHost
      host-HasNoNil request-asked (λ e. cc) hello-IsName groups-NoSlash

abbrev ssl_request : Request
ssl_request = record { remote_addr = host ++ b':' ∷ port; form = (codes "target", codes "s") ∷ [] }

abbrev ssl_cache : Cacher Text
ssl_cache = record { entries = (codes "ssl", some (codes "key")) ∷ [] }

ssl-secret : Memᴰ (codes "ssl") secret_keys
ssl-secret =
    Memᴰ.tail
      (Memᴰ.tail (Memᴰ.tail (Memᴰ.tail (Memᴰ.tail (Memᴰ.tail (Memᴰ.tail (Memᴰ.head refl)))))))

config_key_leak_example :
    (config_key auth ssl_request ≡ ok (target_of ssl_request))
    × (lookup (codes "ssl") (get ssl_cache (target_of ssl_request))
        ≡ lookup (codes "ssl") ssl_cache.entries)
unfolding get_string lookup Text-discrete ℕ_discrete
config_key_leak_example =
    config_key_leak auth ssl_request ssl_cache (codes "ssl") ssl-secret (λ e. cc) refl refl

config_key_iff_example : (config_key auth ssl_request ≡ ok (codes "s")) ↔ (
    (codes "s" ≡ target_of ssl_request)
    × (IsOpen (target_of ssl_request) ⊎ (is_super auth ssl_request.remote_addr ≡ ok true)))
config_key_iff_example = config_key_iff auth ssl_request (codes "s")

abbrev group : PodGroup
group = record {
  spec = record {
    name = codes "hello.web.web";
    namespace = codes "hello";
    pod = record { containers = []; dependencies = []; annotation = [] };
  };
  pods =
      record {
        instance_no = 1;
        containers =
            record {
              id = codes "c2";
              runtime_env = [];
              node_name = [];
              node_ip = [];
              container_ip = codes "172.20.0.3";
              container_port = 80;
            }
            ∷ [];
      }
      ∷ [];
}

abbrev kv : KvPair
kv = record {
  key = codes "/lain/deployd/pod_groups/hello/hello.web.web";
  value = codes "{}";
  last_index = 9;
}

abbrev moved : Event
moved = record { action = Action.set; key = kv.key; modified_index = 9; pairs = kv ∷ [] }

abbrev decode : Text → Option PodGroup
decode value = some group

podgroup_update_example :
    Returns (on_event (podgroup_converter decode) (λ _. false) 1 moved auth.podgroup) (λ w'.
      (ip : Text)
      → (contains ip (pod_ips group.pods) ≡ true
          → app_of (lookup ip w'.sender.cacher.entries) ≡ some (codes "hello"))
        × (contains ip (pod_ips group.pods) ≡ false
            → lookup ip w'.sender.cacher.entries ≡ lookup ip (cached auth.podgroup)))
podgroup_update_example =
    podgroup_update decode (λ _. false) 1 moved auth.podgroup kv group (inl refl) refl refl
      (new_sender-IsSound (some ((host, some hello) ∷ [])))
