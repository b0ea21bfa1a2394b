-- ===== src/Endpoints/Services.antt =====
-- endpoints/*.go: the services, each with the key, the reply and the comparison that it gives to the
-- generated `Get` and `Watch`. `get` is the Get of the watcher that the service is made over.
pub mod Methods
pub mod LocalIp
use lainlet.Base.{
  ℕ, Bool, true, false, Option, none, some, List, [], Text, Eq, ◌==◌, nat_eq, text_eq,
  Text-discrete, ok, ℕ_discrete,
}
use lainlet.Base.{GoMap, IsMap, insert-IsMap}
use lainlet.Base.{
  ℕ, ◌≡◌, refl, Bool, true, false, Option, none, some, List, [], ◌∷◌, Text, Eq, ◌==◌, nat_eq,
  text_eq, Text-discrete, ok, ℕ_discrete,
}
use lainlet.Auth.{Auth}
use lainlet.Spec.{PodGroup, Depends}
use lainlet.Watcher.Cacher.{Data}
use lainlet.Watcher.Container.{Info}
use lainlet.Watcher.Sender.{Event}
use lainlet.Api.V2.Common.{same_map, deep_equal, deep_equal_iff}
use lainlet.Api.V2.Simple.{depends_item_eq, DependsItem, PodInfoForBackupctl}
use lainlet.Api.V2.Pods.{
  pod_infos_eq, proxy_eq, proc_pods_eq, rebellion_eq, PodInfo, ContainerForProxy, ProcPod,
  PodInfoForRebellion,
}
use lainlet.Api.V2.Routers.{web_eq, PodInfoForWebrouter, Port}
use lainlet.Api.V2.Routers.Streams.{StreamProc, stream_eq}
use lainlet.Endpoints.{Endpoint, Peer, Served, get_reply, watch_replies, first_reply, make_reply}
use lainlet.Endpoints.Keys
use lainlet.Endpoints.Replies.{
  apps_reply, backupctl_reply, config_reply, containers_reply, coreinfo_reply, depends_reply,
  localspec_reply, NodeValue, PbValue, sval, mval, nodes_reply, podgroup_reply, proxy_reply,
  rebellion_reply,
}
use lainlet.Endpoints.Replies.Streams.{web_reply, ports_reply, stream_reply}

-- reflect.DeepEqual on maps of values that can be compared
abbrev pub same_values : {V : Type 0} ⦃e : Eq V⦄ → GoMap V → GoMap V → Bool
same_values m n = deep_equal (some m) n

unfoldable pub backupctl-discrete : Discrete (List PodInfoForBackupctl)
unfolding ℕ_discrete
backupctl-discrete = hlevel ℕ_discrete

instance abbrev pub backupctl_eq : Eq (List PodInfoForBackupctl)
backupctl_eq = record { dec = backupctl-discrete }

unfoldable pub paths-discrete : Discrete (List Text)
unfolding Text-discrete
paths-discrete = hlevel Text-discrete

instance abbrev pub paths_eq : Eq (List Text)
paths_eq = record { dec = paths-discrete }

-- reflect.DeepEqual on two values of a node
unfoldable pub same_value : Option PbValue → Option PbValue → Bool
same_value none none = true
same_value (some (sval s)) (some (sval t)) = s == t
same_value (some (mval m)) (some (mval n)) = same_values m n
same_value _ _ = false

module _ (a : Auth) where
  -- AppsEndpoint
  unfoldable pub apps_endpoint : Endpoint PodGroup (GoMap Text)
  apps_endpoint = record {
    get_key = Keys.apps_key a;
    render = apps_reply;
    same = same_values;
    is_cached = true;
  }

  -- BackupctlEndpoint
  unfoldable pub backupctl_endpoint : Endpoint PodGroup (GoMap (List PodInfoForBackupctl))
  backupctl_endpoint = record {
    get_key = Keys.backupctl_key a;
    render = backupctl_reply;
    same = same_values;
    is_cached = true;
  }

  -- ConfigEndpoint
  unfoldable pub config_endpoint : Endpoint Text (GoMap Text)
  config_endpoint = record {
    get_key = Keys.config_key a;
    render = (λ items. ok (config_reply items []));
    same = same_values;
    is_cached = true;
  }

  -- ContainersEndpoint; its `make` compares nothing and says that every reply is a new one.
  unfoldable pub containers_endpoint : Endpoint Info (GoMap Info)
  containers_endpoint = record {
    get_key = Keys.containers_key a;
    render = (λ items. ok (containers_reply items []));
    same = (λ _ _. false);
    is_cached = false;
  }

  -- CoreinfoEndpoint
  unfoldable pub coreinfo_endpoint : Endpoint PodGroup (GoMap (List PodInfo))
  coreinfo_endpoint = record {
    get_key = Keys.coreinfo_key a;
    render = coreinfo_reply;
    same = same_values;
    is_cached = true;
  }

  -- DependsEndpoint
  unfoldable pub depends_endpoint : Endpoint Depends (GoMap (GoMap (GoMap DependsItem)))
  depends_endpoint = record {
    get_key = Keys.depends_key a;
    render = depends_reply;
    same = same_map (same_map same_values);
    is_cached = true;
  }

  -- NodesEndpoint
  unfoldable pub nodes_endpoint : Endpoint (GoMap NodeValue) (GoMap (GoMap (Option PbValue)))
  nodes_endpoint = record {
    get_key = Keys.nodes_key a;
    render = nodes_reply;
    same = same_map (same_map same_value);
    is_cached = true;
  }

  -- PodgroupEndpoint
  unfoldable pub podgroup_endpoint : Endpoint PodGroup (List (List ProcPod))
  podgroup_endpoint = record {
    get_key = Keys.podgroup_key a;
    render = podgroup_reply;
    same = (λ x y. x == y);
    is_cached = true;
  }

  -- ProxyEndpoint
  unfoldable pub proxy_endpoint : Endpoint PodGroup (GoMap (List ContainerForProxy))
  proxy_endpoint = record {
    get_key = Keys.proxy_key a;
    render = proxy_reply;
    same = same_values;
    is_cached = true;
  }

  -- WebrouterWebprocsEndpoint
  unfoldable pub web_endpoint : Endpoint PodGroup (GoMap (List PodInfoForWebrouter))
  web_endpoint = record {
    get_key = Keys.web_key a;
    render = web_reply;
    same = same_values;
    is_cached = true;
  }

  -- RebellionLocalprocsEndpoint
  unfoldable pub rebellion_endpoint : Text → Endpoint PodGroup (GoMap (List PodInfoForRebellion))
  rebellion_endpoint host_name = record {
    get_key = Keys.rebellion_key a;
    render = rebellion_reply host_name;
    same = same_values;
    is_cached = true;
  }

  -- LocalspecEndpoint; NewLocalspecEndpoint leaves `localIp` empty. It has no Watch.
  unfoldable pub localspec_endpoint : Endpoint Info (List Text)
  localspec_endpoint = record {
    get_key = λ field peer. Keys.localspec_key a field peer [];
    render = localspec_reply;
    same = λ x y. x == y;
    is_cached = true;
  }

  -- StreamrouterPortsEndpoint
  unfoldable pub ports_endpoint : (Text → List Port) → Endpoint PodGroup (List ℕ)
  ports_endpoint ports_of = record {
    get_key = Keys.ports_key a;
    render = ports_reply ports_of;
    same = λ x y. x == y;
    is_cached = true;
  }

  -- StreamrouterStreamprocsEndpoint
  unfoldable pub stream_endpoint : (Text → List Port) → Endpoint PodGroup (GoMap (List StreamProc))
  stream_endpoint ports_of = record {
    get_key = Keys.stream_key a;
    render = stream_reply ports_of;
    same = same_values;
    is_cached = true;
  }

module _ {V : Type 0} ⦃e : Eq V⦄ where
  pub same_values_refl : (m : GoMap V) → IsMap m → same_values m m ≡ true
  same_values_refl m h = (deep_equal_iff m m h h).1 (λ j. refl)

pub config_reply-IsMap : (d : Data Text) (ret : GoMap Text) → IsMap ret → IsMap (config_reply d ret)
unfolding config_reply
config_reply-IsMap [] ret h = h
config_reply-IsMap ((k, v) ∷ d) ret h = config_reply-IsMap d _ (insert-IsMap k _ ret h)
