-- ===== src/Main/Watchers.antt =====
-- main.go, initWatchers, with the New of the five packages under watcher/.
use lainlet.Base.{ℕ, none, [], ◌∷◌, Text, nat_eq, text_eq, Result, ok, ◌>>=◌, codes}
use lainlet.Base.{GoMap}
use lainlet.Spec.{PodGroup, Depends}
use lainlet.Watcher.Loop.{Watcher, Status, new_watcher}
use lainlet.Watcher.Loop
use lainlet.Watcher.Config.{config_key}
use lainlet.Watcher.Podgroup.{podgroup_key}
use lainlet.Watcher.Depends.{depends_key}
use lainlet.Watcher.Nodes.{nodes_key}
use lainlet.Watcher.Container.{container_key, Table, Info}
use lainlet.Endpoints.Replies.{NodeValue}

-- The packages of watchers.
pub data WatcherKind : Type 0 where
  config podgroup depends container nodes : WatcherKind

-- What the watcher's convert makes of a key, the type that the users of its data assert.
abbrev pub Value : WatcherKind → Type 0
Value WatcherKind.config = Text
Value WatcherKind.podgroup = PodGroup
Value WatcherKind.depends = Depends
Value WatcherKind.container = Info
Value WatcherKind.nodes = GoMap NodeValue

-- The table that convert writes.
abbrev pub TableOf : WatcherKind → Type 0
TableOf WatcherKind.container = Table
TableOf _ = Unit {0}

abbrev pub WatcherOf : WatcherKind → Type 0
WatcherOf kind = Watcher (TableOf kind) (Value kind)

-- watcher.Watcher, the interface: a watcher of one of the packages
abbrev pub AnyWatcher : Type 0
AnyWatcher = (kind : WatcherKind) × WatcherOf kind

-- The New of the packages
unfoldable pub new_of : (kind : WatcherKind) → Result (WatcherOf kind)
new_of WatcherKind.config = ok (new_watcher config_key tt)
new_of WatcherKind.podgroup = ok (new_watcher podgroup_key tt)
new_of WatcherKind.depends = ok (new_watcher depends_key tt)
new_of WatcherKind.container = ok (new_watcher container_key [])
new_of WatcherKind.nodes = ok (new_watcher nodes_key tt)

-- initWatchers, over the New of the packages
unfoldable pub init_watchers :
    ((kind : WatcherKind) → Result (WatcherOf kind)) → Result (GoMap AnyWatcher)
init_watchers new = new WatcherKind.config >>= (λ config_watcher.
    new WatcherKind.container >>= (λ container_watcher.
      new WatcherKind.podgroup >>= (λ podgroup_watcher.
        new WatcherKind.depends >>= (λ depends_watcher. new WatcherKind.nodes >>= (λ nodes_watcher.
          ok (
            (codes "configwatcher", (WatcherKind.config, config_watcher))
            ∷ (codes "containerwatcher", (WatcherKind.container, container_watcher))
            ∷ (codes "podgroupwatcher", (WatcherKind.podgroup, podgroup_watcher))
            ∷ (codes "dependswatcher", (WatcherKind.depends, depends_watcher))
            ∷ (codes "nodeswatcher", (WatcherKind.nodes, nodes_watcher))
            ∷ []))))))

-- Status of a watcher of the map; `now` is what the goroutine of the watcher has made of it. That of
-- watcher/container is a copy which New took when it started the goroutine: it shares the sender with
-- the goroutine's, but keeps its own status, and the goroutine writes the other.
unfoldable pub any_status : AnyWatcher → Status × ℕ × ℕ
any_status (WatcherKind.container, now) =
    let (kept, receivers, total) = Loop.status now in
    (record { update_time = 0; last_event = none }, receivers, total)
any_status (_, now) = Loop.status now
