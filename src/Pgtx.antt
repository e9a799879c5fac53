-- ===== src/Pgtx.antt =====
-- lib/pgtx: one HTTP request as one database transaction. The children are the parts of the
-- package: what the database offers, the text of a call, the refusals, and the two request roads.
pub mod Features
pub mod Call
pub mod Explain
pub mod Direct
pub mod Daemon
pub mod Doer
mod Tests
