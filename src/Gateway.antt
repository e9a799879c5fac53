-- ===== src/Gateway.antt =====
-- lib/gatewayclient: the client of the gateway's control plane.
pub mod Load
pub mod Status
pub mod Session
pub mod Client
mod Tests
