-- ===== src/Api.antt =====
-- api/: the HTTP interface. `Keys` is what a request asks for, `V2` the shape of the answers, `Server`
-- the handlers, `EventSource` the server's end of an event stream, `Middleware` what comes before a
-- handler, `Serve` a request through all of these.
pub mod Keys
pub mod Server
pub mod EventSource
pub mod Middleware
pub mod Serve
pub mod V2
