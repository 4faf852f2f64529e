-- ===== src/Db.antt =====
-- The shared database, pkg/db/sql_db.go. Each SQL statement is one step on its table.
pub mod Roles
pub mod Rows
pub mod Pages
pub mod Lists
