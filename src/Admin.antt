-- ===== src/Admin.antt =====
-- admin: the users of the platform, over a transaction.
pub mod Users
