-- ===== src/Auth/Pass.antt =====
-- auth/auth.go: whom `Pass` lets through, told from what the caches hold.
use lainlet.Base.{
  ℕ, ◌≡◌, refl, ap, ◌∙◌, ◌≢◌, Bool, true, false, ◌||◌, Option, none, some, List, [], ◌∷◌, ◌++◌,
  arith, Text, ◌==◌, nat_eq, text_eq, ok, err, length, take, contains, codes, last_index_byte,
}
use lainlet.Base.{lookup}
use lainlet.Auth.{
  Auth, is_super_app, strip_port, is_local, typed, first_service, app_name_at, app_name, serves,
  pass_at, pass,
}
use lainlet.Auth.Super.{cached, IsPlainKey, get-plain, lookup-get_self}

last_index_byte-eq-none : (s : Text) (c : ℕ) → contains c s ≡ false → last_index_byte s c ≡ none
unfolding last_index_byte
last_index_byte-eq-none [] c h = refl
last_index_byte-eq-none (x ∷ s) c h = ground (arith, last_index_byte-eq-none s c)

last_index_byte-append :
    (s t : Text) (c : ℕ)
    → last_index_byte t c ≡ none
    → last_index_byte (s ++ c ∷ t) c ≡ some (length s)
unfolding last_index_byte
last_index_byte-append [] t c h = ground arith
last_index_byte-append (x ∷ s) t c h = ground (arith, last_index_byte-append s t c)

take-length-append : (s t : Text) → take (length s) (s ++ t) ≡ s
take-length-append [] t = refl
take-length-append (x ∷ s) t = ap (λ r. x ∷ r) (take-length-append s t)

-- The host of an address with a port.
pub strip_port_lem :
    (host port : Text) → contains b':' port ≡ false → strip_port (host ++ b':' ∷ port) ≡ host
unfolding strip_port
strip_port_lem host port h =
    let e = last_index_byte-append host port b':' (last_index_byte-eq-none port b':' h) in
    ground (arith, take-length-append host (b':' ∷ port))

-- An address as the caches have it: a key that can be looked up, with no colon.
abbrev pub IsHost : Text → Type 0
IsHost ip = IsPlainKey ip × (last_index_byte ip b':' ≡ none)

-- No nil under the address in either cache.
abbrev pub HasNoNil : Auth → Text → Type 0
HasNoNil a ip =
    (lookup ip (cached a.podgroup) ≢ some none) × (lookup ip (cached a.depends) ≢ some none)

-- The services that depend on a container at the address.
abbrev pub services_at : Auth → Text → List Text
services_at a ip = elim (lookup ip (cached a.depends)) [ some (some services) ↦ services | _ ↦ [] ]

abbrev pub first : List Text → Option Text
first [] = none
first (s ∷ ss) = some s

-- The application behind an address: that of the container there, or else the first service.
abbrev pub owner_at : Auth → Text → Option Text
owner_at a ip = elim (lookup ip (cached a.podgroup)) [
  | some (some ci) ↦ some ci.app_name
  | _ ↦ first (services_at a ip)
]

-- What an application may see from an address.
abbrev pub may_see : Auth → Text → Text → Bool
may_see a ip appname = elim (owner_at a ip) [
  | none ↦ false
  | some app ↦ app == appname || (is_super_app a app || contains appname (services_at a ip))
]

module _ (a : Auth) (ip : Text) (host : IsHost ip) (no_nil : HasNoNil a ip) where
  app_name_at-owner_at :
      app_name_at a ip
      ≡ (elim (owner_at a ip) [ some app ↦ ok app | none ↦ err (codes "unkown address " ++ ip) ])
  unfolding app_name_at first_service typed
  app_name_at-owner_at =
      let p = get-plain ip a.podgroup host.0 in
      let d = get-plain ip a.depends host.0 in
      let p' = lookup-get_self a.podgroup.sender.cacher ip in
      let d' = lookup-get_self a.depends.sender.cacher ip in ground arith

  strip_port_host : strip_port ip ≡ ip
  unfolding strip_port
  strip_port_host = ground arith

  serves-services_at :
      (appname : Text) → serves a ip appname ≡ ok (contains appname (services_at a ip))
  unfolding serves typed
  serves-services_at appname =
      let d = get-plain ip a.depends host.0 in
      let d' = lookup-get_self a.depends.sender.cacher ip in ground arith

  pass_at-may_see :
      (appname : Text) → pass_at a ip appname ≡ ok (is_local a ip || may_see a ip appname)
  unfolding pass_at app_name
  pass_at-may_see appname =
      let p = get-plain ip a.podgroup host.0 in
      let n = ap (app_name_at a) strip_port_host ∙ app_name_at-owner_at in
      ground (arith, serves-services_at appname)

pass-pass_at :
    (a : Auth) (remote_ip appname : Text)
    → a.active ≡ true
    → pass a remote_ip appname ≡ pass_at a (strip_port remote_ip) appname
unfolding pass
pass-pass_at a remote_ip appname act = ground arith

-- While auth is active, for a caller `host:port` where the port has no colon, the host is neither
-- empty nor the wildcard, has no colon, and leads to no nil in the caches: the caller may see an
-- application exactly if the host is local, or the application behind the host is the very one, is a
-- super application, or has it among the services that the host's containers are asked for. `Pass`
-- never panics there.
pub pass_lem :
    (a : Auth) (host port appname : Text)
    → a.active ≡ true
    → contains b':' port ≡ false
    → IsHost host
    → HasNoNil a host
    → pass a (host ++ b':' ∷ port) appname ≡ ok (is_local a host || may_see a host appname)
pass_lem a host port appname act digits h k =
    pass-pass_at a (host ++ b':' ∷ port) appname act
    ∙ ap (λ ip. pass_at a ip appname) (strip_port_lem host port digits)
    ∙ pass_at-may_see a host h k appname
