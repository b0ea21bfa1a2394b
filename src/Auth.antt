-- ===== src/Auth.antt =====
-- auth/auth.go: who may ask for what. The package keeps three watchers of its own; a map from the
-- store is their cache. `unmarshal_…` is json.Unmarshal, `none` its error.
pub mod Convert
pub mod Super
pub mod Pass
use lainlet.Base.{
  Bool, true, false, not, ◌||◌, Option, none, some, List, [], ◌∷◌, ◌++◌, if◌then◌else◌, Text, ◌==◌,
  nat_eq, text_eq, Result, ok, err, panic, ◌>>=◌, length, take, contains, codes, last_index_byte,
}
use lainlet.Base.{GoMap, lookup}
use lainlet.Watcher.Cacher.{Data}
use lainlet.Watcher.Loop
use lainlet.Watcher.Loop.{Watcher}

-- containerInfo
pub record ContainerInfo : Type 0 where
  pub app_name : Text
  pub proc : Text
  pub container_id : Text

-- dependsInvertTable and podgroupInvertTable
abbrev pub Table : Type 0
Table = GoMap Text

-- The variables of the package.
pub record Auth : Type 0 where
  pub active : Bool
  pub local_ip : Text
  pub depends : Watcher Table (List Text)
  pub podgroup : Watcher Table ContainerInfo
  pub super_apps : Watcher (Unit {0}) Text

-- The map that `Get` returns, nil and so empty beside an error.
abbrev pub data_or_nil : {V : Type 0} → Result (Data V) → Data V
data_or_nil (ok m) = m
data_or_nil (err e) = []
data_or_nil panic = []

-- isSuperApp
unfoldable pub is_super_app : Auth → Text → Bool
is_super_app a appname =
    if not a.active then true else length (data_or_nil (Loop.get appname a.super_apps)) == 1

-- The address without what follows its last colon.
unfoldable pub strip_port : Text → Text
strip_port remote_ip = elim (last_index_byte remote_ip b':') [
  | some index ↦ take index remote_ip
  | none ↦ remote_ip
]

-- An address of the host itself.
unfoldable pub is_local : Auth → Text → Bool
is_local a ip = ip == codes "127.0.0.1" || ip == a.local_ip || ip == codes "[::1]"

-- v, ok := m[k] and v.(T): a nil value panics.
unfoldable pub typed : {V : Type 0} → Option (Option V) → Result (Option V)
typed none = ok none
typed (some none) = panic
typed (some (some v)) = ok (some v)

-- IsSuper behind the stripping of the port
unfoldable pub is_super_at : Auth → Text → Result Bool
is_super_at a ip = if is_local a ip then ok true else elim (Loop.get ip a.podgroup) [
  | panic ↦ panic
  | err e ↦ ok false
  | ok info ↦ typed (lookup ip info) >>= λ found. elim found [
    | none ↦ ok false
    | some ci ↦ ok (is_super_app a ci.app_name)
  ]
]

-- IsSuper
unfoldable pub is_super : Auth → Text → Result Bool
unfolding is_super_at
is_super a remote_ip = if not a.active then ok true else is_super_at a (strip_port remote_ip)

-- The first of the service names of an address, if there are any.
unfoldable pub first_service : Option (List Text) → Text → Result Text
first_service (some (s ∷ ss)) ip = ok s
first_service _ ip = err (codes "unkown address " ++ ip)

-- AppName behind the stripping of the port
unfoldable pub app_name_at : Auth → Text → Result Text
unfolding first_service
app_name_at a ip = do
  podgroup_data ← Loop.get ip a.podgroup
  app_info ← typed (lookup ip podgroup_data)
  elim app_info [
    | some ci ↦ ok ci.app_name
    | none ↦ do
      depends_data ← Loop.get ip a.depends
      services ← typed (lookup ip depends_data)
      first_service services ip
  ]

-- AppName
unfoldable pub app_name : Auth → Text → Result Text
unfolding app_name_at
app_name a remote_ip = app_name_at a (strip_port remote_ip)

-- The last test of `Pass`: the application is among the services of the address.
unfoldable pub serves : Auth → Text → Text → Result Bool
serves a ip appname = elim (Loop.get ip a.depends) [
  | panic ↦ panic
  | err e ↦ ok false
  | ok apps ↦ typed (lookup ip apps) >>= λ found. elim found [
    | none ↦ ok false
    | some services ↦ ok (contains appname services)
  ]
]

-- Pass behind the stripping of the port
unfoldable pub pass_at : Auth → Text → Text → Result Bool
unfolding serves
pass_at a ip appname = if is_local a ip then ok true else elim (Loop.get ip a.podgroup) [
  | panic ↦ panic
  | err e ↦ ok false
  | ok info ↦ elim (app_name a ip) [
    | panic ↦ panic
    | err e ↦ ok false
    | ok remote_app ↦
        if remote_app == appname || is_super_app a remote_app then ok true else serves a ip appname
  ]
]

-- Pass
unfoldable pub pass : Auth → Text → Text → Result Bool
unfolding pass_at
pass a remote_ip appname =
    if not a.active then ok true else pass_at a (strip_port remote_ip) appname
