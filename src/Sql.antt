-- ===== src/Sql.antt =====
-- PostgreSQL as the repositories under apps/api/internal use it: tables as lists of rows, the rows
-- of the four schemas, and sessions that send one statement after another.
pub mod Table
pub mod Rows
pub mod Session
pub mod Jobs
pub mod StreamTable
