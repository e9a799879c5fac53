-- ===== src/Rest.antt =====
-- lib/rest: what every package of the API repeats over the database: idempotency keys, and the
-- conditional and writable resources.
pub mod Idempotency
pub mod Row
pub mod Handler
pub mod Writable
pub mod Access
pub mod Read
pub mod Many
pub mod Sample
mod Tests
