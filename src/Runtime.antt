-- ===== src/Runtime.antt =====
-- The sandbox lifecycle: `Runtime` of services/containerd-runtime/runtime.go.
pub mod Types
pub mod Spec
pub mod Engine
pub mod Container
pub mod Task
pub mod Create
pub mod Lifecycle
pub mod Inventory
