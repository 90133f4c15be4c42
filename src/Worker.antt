-- ===== src/Worker.antt =====
-- controlplane/worker_state.go: the lifecycle of a worker that sessions of any org may share.
pub mod Lifecycle
pub mod Transition
pub mod Reach
mod Examples
