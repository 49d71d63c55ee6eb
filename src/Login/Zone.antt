-- ===== src/Login/Zone.antt =====
-- server/login/zone.go: the zones that the login server knows, with their gateways and worlds.
-- What Consul answers, the decoding of a service's tag, the time and random numbers are arguments.
mod Status
mod Manager
mod Recommend
mod Query
pub mod Load
pub mod Empty
pub mod Limits
mod Tests
unfoldable pub use Status.*
unfoldable pub use Manager.*
unfoldable pub use Recommend.*
unfoldable pub use Query.*
