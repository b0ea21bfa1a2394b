-- ===== src/Api/Keys.antt =====
-- api/v2/*.go: the `Key` methods, which check the caller's rights and name the data that the request
-- asks the watcher for. A request is its remote address and its form values.
pub mod Prefixes
pub mod Rights
use lainlet.Base.{
  ℕ, Bool, true, false, not, ◌||◌, Option, none, some, List, [], ◌∷◌, ◌++◌, if◌then◌else◌, Text,
  ◌==◌, nat_eq, text_eq, Result, ok, err, panic, ◌>>=◌, any, codes, has_prefix,
}
use lainlet.Base.{GoMap, lookup}
use lainlet.Store.{slash}
use lainlet.Auth.{Auth, is_super, pass, app_name}

-- http.Request, the parts that the methods read; a form value that is not given is empty.
pub record Request : Type 0 where
  pub remote_addr : Text
  pub form : GoMap Text

-- r.FormValue(name)
abbrev pub form_value : Request → Text → Text
form_value r name = elim (lookup name r.form) [ some v ↦ v | none ↦ [] ]

-- GetString
unfoldable pub get_string : Request → Text → Text → Text
get_string r name value = let v = form_value r name in if v == [] then value else v

-- GetBool
unfoldable pub get_bool : Request → Text → Bool → Bool
get_bool r name value =
    let v = form_value r name in not (v == [] || v == codes "0" || v == codes "false")

-- The last byte of a text.
abbrev pub get_last? : Text → Option ℕ
get_last? [] = none
get_last? (c ∷ []) = some c
get_last? (c ∷ d ∷ s) = get_last? (d ∷ s)

-- fixPrefix
unfoldable pub fix_prefix : Text → Text
fix_prefix s = elim (get_last? s) [ none ↦ s | some c ↦ if c == slash then s else s ++ slash ∷ [] ]

abbrev pub star : Text
star = b'*' ∷ []

-- secretKeys
abbrev pub secret_keys : List Text
secret_keys =
    star
    ∷ codes "swarm_manager_ip"
    ∷ codes "super_apps"
    ∷ codes "dnsmasq_servers"
    ∷ codes "calico_default_rule"
    ∷ codes "calico_network"
    ∷ codes "dnsmasq_addresses"
    ∷ codes "ssl"
    ∷ codes "vips"
    ∷ codes "tinydns_fqdns"
    ∷ codes "bootstrap_node_ip"
    ∷ codes "dns_port"
    ∷ codes "vip"
    ∷ codes "etcd_cluster_token"
    ∷ codes "system_volumes"
    ∷ codes "rsyncd_secrets"
    ∷ codes "dns_ip"
    ∷ codes "node_network"
    ∷ []

-- isSecret
unfoldable pub is_secret : Text → Bool
is_secret key = any (λ sk. has_prefix key sk) secret_keys

abbrev pub super_required : Text
super_required = codes "authorize failed, super required"

abbrev pub no_permission : Text
no_permission = codes "authorize failed, no permission"

abbrev pub unknown_app : Text
unknown_app = codes "authorize failed, can not confirm the app by request ip"

module _ (a : Auth) (r : Request) where
  -- if !auth.IsSuper(r.RemoteAddr) { return "", … }, before what follows
  unfoldable pub super_only : Text → Result Text
  super_only key = do
    allowed ← is_super a r.remote_addr
    if allowed then ok key else err super_required

  -- GeneralConfig.Key
  unfoldable pub config_key : Result Text
  config_key =
      let target = get_string r (codes "target") star in
      if is_secret target then super_only target else ok target

  -- AppsData.Key
  unfoldable pub apps_key : Result Text
  apps_key = super_only star

  -- CoreInfoForBackupctl.Key
  unfoldable pub backupctl_key : Result Text
  backupctl_key =
      let name = get_string r (codes "appname") star in
      super_only (if name == star then name else fix_prefix name)

  -- GeneralContainers.Key
  unfoldable pub containers_key : Result Text
  containers_key =
      let target = get_string r (codes "nodename") star in
      super_only (if target == star then target else fix_prefix target)

  -- Depends.Key
  unfoldable pub depends_key : Result Text
  depends_key = super_only (get_string r (codes "target") star)

  -- LocalSpec.Key
  unfoldable pub localspec_key : Text → Result Text
  localspec_key local_ip = super_only (fix_prefix (get_string r (codes "nodeip") local_ip))

  -- GeneralNodes.Key
  unfoldable pub nodes_key : Result Text
  nodes_key =
      let target = get_string r (codes "name") star in
      let closed : Bool = elim (get_last? target) [ some c ↦ c == b':' | none ↦ true ] in
      super_only (if target == star || closed then target else target ++ b':' ∷ [])

  -- What the methods do with the application's name when `Pass` has answered: without rights and
  -- without a name, the name of the caller's own application.
  unfoldable pub own_app : Text → Bool → Result Text
  own_app name allowed =
      if allowed
      then ok (if name == star then name else fix_prefix name)
      else if name == star
      then elim (app_name a r.remote_addr) [
        | ok own ↦ ok (fix_prefix own)
        | err e ↦ err unknown_app
        | panic ↦ panic
      ]
      else err no_permission

  -- GeneralCoreInfo.Key
  unfoldable pub app_key : Result Text
  unfolding own_app
  app_key =
      let name = get_string r (codes "appname") star in
      pass a r.remote_addr name >>= λ allowed. own_app name allowed

  -- The other methods with the same body: ProxyData.Key, RebellionAPIProvider.Key, Ports.Key,
  -- StreamRouterInfo.Key and WebrouterInfo.Key
  abbrev pub proxy_key : Result Text
  proxy_key = app_key

  abbrev pub rebellion_key : Result Text
  rebellion_key = app_key

  abbrev pub ports_key : Result Text
  ports_key = app_key

  abbrev pub stream_key : Result Text
  stream_key = app_key

  abbrev pub web_key : Result Text
  web_key = app_key

  -- GeneralPodGroup.Key
  unfoldable pub podgroup_key : Result Text
  podgroup_key =
      let name = get_string r (codes "appname") [] in
      if name == []
      then err (codes "appname required")
      else pass a r.remote_addr name >>= λ allowed.
          if allowed then ok (if name == star then name else fix_prefix name) else err no_permission

  -- GetAppNameAPI: the status code and the body; `marshal` is json.Marshal of the one-key map.
  unfoldable pub get_app_name : (Text → Result Text) → Result (ℕ × Text)
  get_app_name marshal = is_super a r.remote_addr >>= λ allowed.
      if allowed
      then elim (app_name a (get_string r (codes "ip") r.remote_addr) >>= marshal) [
        | ok content ↦ ok (200, content)
        | err e ↦ ok (500, e)
        | panic ↦ panic
      ]
      else ok (400, super_required)
