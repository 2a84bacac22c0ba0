-- ===== src/Logs.antt =====
-- Bounded log capture: `limitedBuffer` of services/containerd-runtime/runtime.go and `captureLog`
-- of services/containerd-runtime/logger.go.
pub mod Buffer
pub mod Capture
pub mod Run
