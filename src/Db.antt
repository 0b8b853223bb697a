-- ===== src/Db.antt =====
-- db/mod.rs: the queries, a module for each table. A query is one statement of `Exec.run_query`;
-- the ids and times that a statement is given are asked for in the order of the source.
-- SQLite refuses an `INSERT` with a used PRIMARY KEY, and one whose REFERENCES column names no row.
pub mod Users
pub mod Devices
pub mod Relationships
pub mod Exchanges
pub mod Tokens
pub mod Invariant
pub mod Statements
pub mod Stable
pub mod Keeps
pub mod Purge
