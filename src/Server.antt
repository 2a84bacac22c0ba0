-- ===== src/Server.antt =====
-- `server` of services/containerd-runtime/main.go: the HTTP API in front of the runtime.
pub mod Limits
pub mod Replies
pub mod Locks
pub mod Handler
pub mod Serve
pub mod Counting
