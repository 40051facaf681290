-- ===== src/Query.antt =====
-- query/: what turns user input into SQL.
pub mod Dsl
pub mod Fts
pub mod Ast
pub mod Walk
pub mod Rewrite
pub mod Validate
pub mod Execute
