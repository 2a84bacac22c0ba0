-- ===== src/Quota.antt =====
-- services/containerd-runtime/quota.go: the disk quota of a sandbox, an XFS project quota on the
-- directory of its snapshot.
pub mod Path
pub mod Kernel
pub mod Device
pub mod Enforce
pub mod Journal
