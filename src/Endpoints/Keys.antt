-- ===== src/Endpoints/Keys.antt =====
-- endpoints/*.go: the `getKey` methods. `field` is the one field of the request.
use lainlet.Base.{
  Bool, true, ◌||◌, none, some, [], ◌∷◌, ◌++◌, if◌then◌else◌, Text, ◌==◌, nat_eq, text_eq, Result,
  ok, err, panic, ◌>>=◌, codes, List, any, has_prefix,
}
use lainlet.Auth.{Auth, is_super, pass, app_name}
use lainlet.Store.{slash}
use lainlet.Api.Keys.{get_last?, star, super_required, no_permission, unknown_app}
use lainlet.Endpoints.{Peer, get_remote_addr}

-- fixPrefix, of this package
unfoldable pub fix_prefix : Text → Text
fix_prefix s = elim (get_last? s) [ none ↦ s | some c ↦ if c == slash then s else s ++ slash ∷ [] ]

-- secretKeys, of this package
abbrev pub secret_keys : List Text
secret_keys =
    codes "*"
    ∷ codes "swarm_manager_ip"
    ∷ codes "super_apps"
    ∷ codes "dnsmasq_servers"
    ∷ codes "calico_default_rule"
    ∷ codes "calico_network"
    ∷ codes "dnsmasq_addresses"
    ∷ codes "ssl"
    ∷ codes "vips"
    ∷ codes "tinydns_fqdns"
    ∷ codes "bootstrap_node_ip"
    ∷ codes "dns_port"
    ∷ codes "vip"
    ∷ codes "etcd_cluster_token"
    ∷ codes "system_volumes"
    ∷ codes "rsyncd_secrets"
    ∷ codes "dns_ip"
    ∷ codes "node_network"
    ∷ []

-- isSecret, of this package
unfoldable pub is_secret : Text → Bool
is_secret key = any (λ sk. has_prefix key sk) secret_keys

module _ (a : Auth) (field : Text) (peer : Peer) where
  -- The key for super applications only.
  unfoldable pub super_key : Text → Result Text
  super_key key =
      get_remote_addr peer
      >>= (λ addr. is_super a addr >>= (λ allowed. if allowed then ok key else err super_required))

  -- The field of the request, or a default.
  abbrev pub field_or : Text → Text
  field_or value = if field == [] then value else field

  abbrev pub closed_or_star : Text → Text
  closed_or_star name = if name == star then name else fix_prefix name

  -- AppsEndpoint.getKey
  unfoldable pub apps_key : Result Text
  apps_key = super_key star

  -- BackupctlEndpoint.getKey
  unfoldable pub backupctl_key : Result Text
  backupctl_key = super_key (closed_or_star (field_or star))

  -- ContainersEndpoint.getKey
  unfoldable pub containers_key : Result Text
  containers_key = super_key (closed_or_star (field_or star))

  -- DependsEndpoint.getKey
  unfoldable pub depends_key : Result Text
  depends_key = super_key (field_or star)

  -- NodesEndpoint.getKey
  unfoldable pub nodes_key : Result Text
  nodes_key =
      let key = field_or star in
      let closed : Bool = elim (get_last? key) [ some c ↦ c == b':' | none ↦ true ] in
      super_key (if key == star || closed then key else key ++ b':' ∷ [])

  -- LocalspecEndpoint.getKey; `local_ip` is the field of the endpoint.
  unfoldable pub localspec_key : Text → Result Text
  localspec_key local_ip = super_key (fix_prefix (field_or local_ip))

  -- ConfigEndpoint.getKey
  unfoldable pub config_key : Result Text
  config_key = get_remote_addr peer >>= (λ addr.
      if is_secret (field_or star)
      then is_super a addr
        >>= (λ allowed. if allowed then ok (field_or star) else err super_required)
      else ok (field_or star))

  -- What the methods do when `Pass` has answered.
  unfoldable pub own_app : Text → Text → Bool → Result Text
  own_app addr name allowed =
      if allowed
      then ok (closed_or_star name)
      else if name == star
      then elim (app_name a addr) [
        | ok own ↦ ok (fix_prefix own)
        | err e ↦ err unknown_app
        | panic ↦ panic
      ]
      else err no_permission

  -- CoreinfoEndpoint.getKey
  unfoldable pub coreinfo_key : Result Text
  unfolding own_app
  coreinfo_key = get_remote_addr peer >>= (λ addr.
      pass a addr (field_or star) >>= (λ allowed. own_app addr (field_or star) allowed))

  -- The other methods with the same body: ProxyEndpoint.getKey, RebellionLocalprocsEndpoint.getKey,
  -- StreamrouterPortsEndpoint.getKey, StreamrouterStreamprocsEndpoint.getKey and
  -- WebrouterWebprocsEndpoint.getKey
  abbrev pub proxy_key : Result Text
  proxy_key = coreinfo_key

  abbrev pub rebellion_key : Result Text
  rebellion_key = coreinfo_key

  abbrev pub ports_key : Result Text
  ports_key = coreinfo_key

  abbrev pub stream_key : Result Text
  stream_key = coreinfo_key

  abbrev pub web_key : Result Text
  web_key = coreinfo_key

  -- PodgroupEndpoint.getKey
  unfoldable pub podgroup_key : Result Text
  podgroup_key = get_remote_addr peer >>= (λ addr.
      if field == []
      then err (codes "appname reequired")
      else pass a addr field
        >>= (λ allowed. if allowed then ok (closed_or_star field) else err no_permission))

  -- AppnameEndpoint.Get
  unfoldable pub get_appname : Result (Text × Text)
  get_appname = get_remote_addr peer >>= (λ addr. is_super a addr >>= (λ allowed.
      if allowed
      then app_name a (if field == [] then addr else field) >>= (λ name. ok (codes "appname", name))
      else err super_required))
