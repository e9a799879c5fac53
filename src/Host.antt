-- ===== src/Host.antt =====
-- module.go: the host of the modules.
pub mod Address
pub mod Prefixes
pub mod Compose
pub mod Serve
mod Tests
