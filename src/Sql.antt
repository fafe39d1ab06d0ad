-- ===== src/Sql.antt =====
-- dwho/classes/objects.py: `DWhoObjectSQLBase`. `Words` holds the texts that the statements are
-- made of, `Clauses` the `_prepare_*` helpers, `Statements` the texts of the queries, and
-- `Queries` the methods, over a database cursor that is a parameter.
pub mod Words
pub mod Clauses
pub mod Statements
pub mod Queries
pub mod Writes
pub mod Placeholders
pub mod Balance
pub mod Like
pub mod Filters
pub mod Binding
