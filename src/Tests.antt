-- ===== src/Tests.antt =====
-- Tests of the definitions and examples of the theorems, at concrete inputs.
mod Watchers
mod Following
mod Access
mod Answers
mod Stores
mod Endpoints
mod Runs
mod Wire
mod Streams
mod Changes
mod Main
