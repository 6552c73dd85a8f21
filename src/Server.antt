-- ===== src/Server.antt =====
-- internal/server: the gatekeeper, the status endpoint and the admin API, on top of the controller and
-- the signer. `Http` has the requests and responses, `Cookies` the tickets and admin sessions, and the
-- handlers follow; the other modules prove.
pub mod Http
pub mod Cookies
pub mod Gatekeeper
pub mod Admin
pub mod Routes
pub mod New
pub mod Sessions
pub mod Guarded
pub mod Tended
pub mod Forwarded
pub mod Surface
mod Tests
