-- ===== src/Wire.antt =====
-- server/wire/protocol.go: the framing of PostgreSQL messages. A reader is the finite stream of
-- bytes that it still delivers; an int32 is its bit pattern, a number below 2 ^ 32.
pub mod Read
pub mod Startup
pub mod Write
pub mod Framing
pub mod Params
pub mod Replies
mod Examples
