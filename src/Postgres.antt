-- ===== src/Postgres.antt =====
-- internal/infrastructure/postgres: the rows of the tables, the database server as an interface, and
-- the repository's statements over it.
pub mod Row
pub mod Server
pub mod Clauses
pub mod Notifications
pub mod Listing
pub mod Transactions
pub mod Updates
