-- ===== src/Gateway.antt =====
-- server/gateway: the gateway server, between clients and worlds.
pub mod Network
pub mod State
pub mod Clients
pub mod Messages
pub mod Server
pub mod Handlers
pub mod Worlds
pub mod Requests
pub mod Bound
pub mod Counted
pub mod Cache
pub mod Drop
pub mod Admission
pub mod Limits
pub mod Entry
pub mod Choice
pub mod Listing
pub mod Handover
mod Samples
mod Tests
mod WorldTests
mod AdmissionTests
