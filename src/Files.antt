-- ===== src/Files.antt =====
-- The file operations of services/containerd-runtime/files.go.
pub mod Name
pub mod Host
pub mod Access
pub mod Open
pub mod Write
