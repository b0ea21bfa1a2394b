-- ===== src/Endpoints/Services/Methods.antt =====
-- endpoints/*.go: the methods Get and Watch of the services, which are generated from one template.
use lainlet.Base.{ℕ, Option, List, Text, nat_eq, text_eq, Result}
use lainlet.Base.{GoMap}
use lainlet.Auth.{Auth}
use lainlet.Spec.{PodGroup, Depends}
use lainlet.Watcher.Cacher.{Data}
use lainlet.Watcher.Container.{Info}
use lainlet.Watcher.Sender.{Event}
use lainlet.Api.V2.Simple.{DependsItem, PodInfoForBackupctl}
use lainlet.Api.V2.Pods.{
  pod_infos_eq, proxy_eq, proc_pods_eq, rebellion_eq, PodInfo, ContainerForProxy, ProcPod,
  PodInfoForRebellion,
}
use lainlet.Api.V2.Routers.{web_eq, PodInfoForWebrouter, Port}
use lainlet.Api.V2.Routers.Streams.{StreamProc, stream_eq}
use lainlet.Endpoints.{Peer, Served, get_reply, watch_replies}
use lainlet.Endpoints.Replies.{NodeValue, PbValue}
use lainlet.Endpoints.Services.{
  apps_endpoint, backupctl_endpoint, config_endpoint, containers_endpoint, coreinfo_endpoint,
  depends_endpoint, nodes_endpoint, podgroup_endpoint, proxy_endpoint, web_endpoint,
  rebellion_endpoint, localspec_endpoint, ports_endpoint, stream_endpoint,
}

-- What `Get` and `Watch` are given besides the endpoint, and their results.
abbrev Getter : (V R : Type 0) → Type 0
Getter V R = GoMap R → (Text → Result (Data V)) → Text → Peer → GoMap R × Result R

abbrev Streamer : (V R : Type 0) → Type 0
Streamer V R =
    GoMap R
    → (Text → Result (Data V))
    → Text
    → Peer
    → Option Text
    → Result (List (Event V × Option Text))
    → Served R

module _ (a : Auth) where
  -- AppsEndpoint.Get
  unfoldable get_apps : Getter PodGroup (GoMap Text)
  unfolding apps_endpoint get_reply
  get_apps = get_reply (apps_endpoint a)

  -- AppsEndpoint.Watch
  unfoldable watch_apps : Streamer PodGroup (GoMap Text)
  unfolding apps_endpoint watch_replies
  watch_apps = watch_replies (apps_endpoint a)

  -- BackupctlEndpoint.Get
  unfoldable get_backupctl : Getter PodGroup (GoMap (List PodInfoForBackupctl))
  unfolding backupctl_endpoint get_reply
  get_backupctl = get_reply (backupctl_endpoint a)

  -- BackupctlEndpoint.Watch
  unfoldable watch_backupctl : Streamer PodGroup (GoMap (List PodInfoForBackupctl))
  unfolding backupctl_endpoint watch_replies
  watch_backupctl = watch_replies (backupctl_endpoint a)

  -- ConfigEndpoint.Get
  unfoldable get_config : Getter Text (GoMap Text)
  unfolding config_endpoint get_reply
  get_config = get_reply (config_endpoint a)

  -- ConfigEndpoint.Watch
  unfoldable watch_config : Streamer Text (GoMap Text)
  unfolding config_endpoint watch_replies
  watch_config = watch_replies (config_endpoint a)

  -- ContainersEndpoint.Get
  unfoldable get_containers : Getter Info (GoMap Info)
  unfolding containers_endpoint get_reply
  get_containers = get_reply (containers_endpoint a)

  -- ContainersEndpoint.Watch
  unfoldable watch_containers : Streamer Info (GoMap Info)
  unfolding containers_endpoint watch_replies
  watch_containers = watch_replies (containers_endpoint a)

  -- CoreinfoEndpoint.Get
  unfoldable get_coreinfo : Getter PodGroup (GoMap (List PodInfo))
  unfolding coreinfo_endpoint get_reply
  get_coreinfo = get_reply (coreinfo_endpoint a)

  -- CoreinfoEndpoint.Watch
  unfoldable watch_coreinfo : Streamer PodGroup (GoMap (List PodInfo))
  unfolding coreinfo_endpoint watch_replies
  watch_coreinfo = watch_replies (coreinfo_endpoint a)

  -- DependsEndpoint.Get
  unfoldable get_depends : Getter Depends (GoMap (GoMap (GoMap DependsItem)))
  unfolding depends_endpoint get_reply
  get_depends = get_reply (depends_endpoint a)

  -- DependsEndpoint.Watch
  unfoldable watch_depends : Streamer Depends (GoMap (GoMap (GoMap DependsItem)))
  unfolding depends_endpoint watch_replies
  watch_depends = watch_replies (depends_endpoint a)

  -- NodesEndpoint.Get
  unfoldable get_nodes : Getter (GoMap NodeValue) (GoMap (GoMap (Option PbValue)))
  unfolding nodes_endpoint get_reply
  get_nodes = get_reply (nodes_endpoint a)

  -- NodesEndpoint.Watch
  unfoldable watch_nodes : Streamer (GoMap NodeValue) (GoMap (GoMap (Option PbValue)))
  unfolding nodes_endpoint watch_replies
  watch_nodes = watch_replies (nodes_endpoint a)

  -- PodgroupEndpoint.Get
  unfoldable get_podgroup : Getter PodGroup (List (List ProcPod))
  unfolding podgroup_endpoint get_reply
  get_podgroup = get_reply (podgroup_endpoint a)

  -- PodgroupEndpoint.Watch
  unfoldable watch_podgroup : Streamer PodGroup (List (List ProcPod))
  unfolding podgroup_endpoint watch_replies
  watch_podgroup = watch_replies (podgroup_endpoint a)

  -- ProxyEndpoint.Get
  unfoldable get_proxy : Getter PodGroup (GoMap (List ContainerForProxy))
  unfolding proxy_endpoint get_reply
  get_proxy = get_reply (proxy_endpoint a)

  -- ProxyEndpoint.Watch
  unfoldable watch_proxy : Streamer PodGroup (GoMap (List ContainerForProxy))
  unfolding proxy_endpoint watch_replies
  watch_proxy = watch_replies (proxy_endpoint a)

  -- WebrouterWebprocsEndpoint.Get
  unfoldable get_web : Getter PodGroup (GoMap (List PodInfoForWebrouter))
  unfolding web_endpoint get_reply
  get_web = get_reply (web_endpoint a)

  -- WebrouterWebprocsEndpoint.Watch
  unfoldable watch_web : Streamer PodGroup (GoMap (List PodInfoForWebrouter))
  unfolding web_endpoint watch_replies
  watch_web = watch_replies (web_endpoint a)

  -- RebellionLocalprocsEndpoint.Get
  unfoldable get_rebellion :
      Text
      → GoMap (GoMap (List PodInfoForRebellion))
      → (Text → Result (Data PodGroup))
      → Text
      → Peer
      → GoMap (GoMap (List PodInfoForRebellion)) × Result (GoMap (List PodInfoForRebellion))
  unfolding rebellion_endpoint get_reply
  get_rebellion host_name = get_reply (rebellion_endpoint a host_name)

  -- RebellionLocalprocsEndpoint.Watch
  unfoldable watch_rebellion :
      Text
      → GoMap (GoMap (List PodInfoForRebellion))
      → (Text → Result (Data PodGroup))
      → Text
      → Peer
      → Option Text
      → Result (List (Event PodGroup × Option Text))
      → Served (GoMap (List PodInfoForRebellion))
  unfolding rebellion_endpoint watch_replies
  watch_rebellion host_name = watch_replies (rebellion_endpoint a host_name)

  -- StreamrouterPortsEndpoint.Get
  unfoldable get_ports :
      (Text → List Port)
      → GoMap (List ℕ)
      → (Text → Result (Data PodGroup))
      → Text
      → Peer
      → GoMap (List ℕ) × Result (List ℕ)
  unfolding ports_endpoint get_reply
  get_ports ports_of = get_reply (ports_endpoint a ports_of)

  -- StreamrouterPortsEndpoint.Watch
  unfoldable watch_ports :
      (Text → List Port)
      → GoMap (List ℕ)
      → (Text → Result (Data PodGroup))
      → Text
      → Peer
      → Option Text
      → Result (List (Event PodGroup × Option Text))
      → Served (List ℕ)
  unfolding ports_endpoint watch_replies
  watch_ports ports_of = watch_replies (ports_endpoint a ports_of)

  -- StreamrouterStreamprocsEndpoint.Get
  unfoldable get_stream :
      (Text → List Port)
      → GoMap (GoMap (List StreamProc))
      → (Text → Result (Data PodGroup))
      → Text
      → Peer
      → GoMap (GoMap (List StreamProc)) × Result (GoMap (List StreamProc))
  unfolding stream_endpoint get_reply
  get_stream ports_of = get_reply (stream_endpoint a ports_of)

  -- StreamrouterStreamprocsEndpoint.Watch
  unfoldable watch_stream :
      (Text → List Port)
      → GoMap (GoMap (List StreamProc))
      → (Text → Result (Data PodGroup))
      → Text
      → Peer
      → Option Text
      → Result (List (Event PodGroup × Option Text))
      → Served (GoMap (List StreamProc))
  unfolding stream_endpoint watch_replies
  watch_stream ports_of = watch_replies (stream_endpoint a ports_of)

  -- LocalspecEndpoint.Get
  unfoldable pub get_localspec : Getter Info (List Text)
  unfolding localspec_endpoint get_reply
  get_localspec = get_reply (localspec_endpoint a)
