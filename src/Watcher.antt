-- ===== src/Watcher.antt =====
-- watcher/: the cache, the sender that broadcasts changes, the loop that follows the store, and the
-- watchers of the program with their conversions.
pub mod Cacher
pub mod Sender
pub mod Loop
pub mod Paths
pub mod Config
pub mod Podgroup
pub mod Depends
pub mod Nodes
pub mod Container
