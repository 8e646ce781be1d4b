-- ===== src/Api.antt =====
-- `hmasync_controller/apiclient.py`. `Response` has the outcome of a call and the parsing of a
-- response, `Client` the session and the sending of requests, `Endpoints` the wire calls; the
-- other children have the theorems.
pub mod Response
pub mod Client
pub mod Endpoints
pub mod Clean
pub mod Session
pub mod Guarded
mod Examples
