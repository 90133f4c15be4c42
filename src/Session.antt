-- ===== src/Session.antt =====
-- controlplane/session_mgr.go: the connection slots and the session tables of one SessionManager.
-- A waiter is the number of its allocation, which stands for its pointer. Each operation is what
-- the code does while it holds `sm.mu`, so a run is a sequence of operations.
pub mod Slots
pub mod Tables
pub mod Queue
pub mod Histories
pub mod Shutdown
pub mod Registry
mod Examples
