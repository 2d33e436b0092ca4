-- ===== src/Orm.antt =====
-- orm/: the statements and operations of the table repository, and the schema of struct types.
pub mod Value
pub mod Expr
pub mod Template
pub mod Where
pub mod Query
pub mod Records
pub mod Table
pub mod Schema
mod Tests
