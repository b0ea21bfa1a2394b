-- ===== src/Main.antt =====
-- main.go and server/server.go: the process, with what it starts. `Watchers` is the map of watchers,
-- `Apis` what main registers, `Grpc` the server of the gRPC services, `Start` the run of main.
pub mod Watchers
pub mod Apis
pub mod Grpc
pub mod Start
pub mod Version
pub mod Wiring
