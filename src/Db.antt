-- ===== src/Db.antt =====
-- internal/db/postgres.go. PostgreSQL is read as its documentation says what the statements do: a
-- statement that the server cannot answer, or that breaks a constraint of its table, fails and changes
-- nothing.
pub mod Accounts
pub mod Settings
pub mod Refreshing
mod Examples
