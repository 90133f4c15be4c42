-- ===== src/Startup.antt =====
-- The options of the startup message: server/startup_options.go.
pub mod Options
pub mod Rendered
pub mod Literal
pub mod Examples
