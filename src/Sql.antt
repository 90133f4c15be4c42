-- ===== src/Sql.antt =====
-- server/conn.go and server/sqlcore/query.go: the server's reading of SQL text, by which it decides
-- what a statement is and whether it returns rows. A text is a list of ASCII bytes, and a position
-- `i` in it is a cursor: the bytes before it, nearest first, and the bytes from it on.
pub mod Cursor
pub mod Cte
pub mod Classify
pub mod Progress
pub mod Tokens
pub mod Rounds
pub mod Scans
pub mod Skips
pub mod Outer
pub mod Total
pub mod Strips
pub mod Returns
mod Runs
mod Examples
