-- ===== src/Api/V2.antt =====
-- api/v2/*.go: the `Make` methods, which build an answer from the watcher's data and tell whether it
-- differs from the last one. Go's `int` fields are natural numbers here.
pub mod Common
pub mod Simple
pub mod Pods
pub mod Routers
pub mod LocalSpec
pub mod Apis
