-- ===== src/Endpoints/SameKeys.antt =====
-- endpoints/*.go and api/v2/*.go: the gRPC services and the HTTP interface grant the same keys.
use lainlet.Base.{
  ◌≡◌, refl, some, [], ◌∷◌, arith, if◌then◌else◌, Text, ◌==◌, nat_eq, text_eq, codes, err,
}
use lainlet.Base.{lookup}
use lainlet.Auth.{Auth}
use lainlet.Api.Keys as Http
use lainlet.Api.Keys.{Request, get_string, form_value, star, super_only}
use lainlet.Endpoints.{Peer, get_remote_addr}
use lainlet.Endpoints.Keys as Grpc

-- The HTTP request of a caller with one form value.
abbrev pub asking : Text → Text → Text → Request
asking addr name field = record { remote_addr = addr; form = (name, field) ∷ [] }

-- A caller whose address is known.
abbrev pub from : Text → Peer
from addr = some (some addr)

form_value-asking : (addr name field : Text) → form_value (asking addr name field) name ≡ field
unfolding lookup
form_value-asking addr name field = ground arith

get_string-asking :
    (addr name field value : Text)
    → get_string (asking addr name field) name value ≡ (if field == [] then value else field)
unfolding get_string
get_string-asking addr name field value = rw form_value-asking

module _ (a : Auth) (addr field : Text) where
  -- For a caller whose address is known and a request with one field, which is empty if it is not
  -- given: the services of apps, backupctl, containers, depends, nodes, config, coreinfo and localspec
  -- grant the key, or refuse with the message, that the HTTP interface does, where the two have the
  -- same default; and so does that of the pod groups for a request that names an application, while
  -- one that names none is refused by both, with messages that differ.
  pub same_keys :
      (Grpc.apps_key a field (from addr) ≡ Http.apps_key a (asking addr [] field))
      × (Grpc.backupctl_key a field (from addr)
          ≡ Http.backupctl_key a (asking addr (codes "appname") field))
      × (Grpc.containers_key a field (from addr)
          ≡ Http.containers_key a (asking addr (codes "nodename") field))
      × (Grpc.depends_key a field (from addr)
          ≡ Http.depends_key a (asking addr (codes "target") field))
      × (Grpc.nodes_key a field (from addr) ≡ Http.nodes_key a (asking addr (codes "name") field))
      × (Grpc.config_key a field (from addr)
          ≡ Http.config_key a (asking addr (codes "target") field))
      × (Grpc.coreinfo_key a field (from addr)
          ≡ Http.app_key a (asking addr (codes "appname") field))
      × ((local_ip : Text)
          → Grpc.localspec_key a field (from addr) local_ip
            ≡ Http.localspec_key a (asking addr (codes "nodeip") field) local_ip)
      × (Grpc.podgroup_key a field (from addr) ≡ (
          if field == []
          then err (codes "appname reequired")
          else Http.podgroup_key a (asking addr (codes "appname") field)))
      × (Http.podgroup_key a (asking addr (codes "appname") field) ≡ (
          if field == []
          then err (codes "appname required")
          else Grpc.podgroup_key a field (from addr)))
  unfolding Grpc.apps_key Grpc.backupctl_key Grpc.containers_key Grpc.depends_key Grpc.nodes_key
      Grpc.config_key Grpc.coreinfo_key Grpc.localspec_key Grpc.super_key Grpc.own_app
      Grpc.podgroup_key Http.podgroup_key Http.fix_prefix Grpc.fix_prefix Http.is_secret
      Grpc.is_secret get_remote_addr Http.apps_key Http.backupctl_key Http.containers_key
      Http.depends_key Http.nodes_key Http.config_key Http.app_key Http.own_app Http.localspec_key
      super_only
  same_keys = (
    refl,
    rw get_string-asking refl,
    rw get_string-asking refl,
    rw get_string-asking refl,
    rw get_string-asking refl,
    rw get_string-asking refl,
    rw get_string-asking refl,
    (λ local_ip. rw get_string-asking refl),
    rw get_string-asking (ground arith),
    rw get_string-asking (ground arith),
  )
