-- ===== src/Network.antt =====
-- Sandbox networks: services/containerd-runtime/network.go.
pub mod Address
pub mod Host
pub mod Remove
pub mod Firewall
pub mod Setup
pub mod Reconcile
