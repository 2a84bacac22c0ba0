-- ===== src/Tests.antt =====
-- Concrete hosts, and the theorems applied to them.
mod Samples
mod Applied
mod Requests
mod Disks
mod Quotas
mod Records
mod Cellar
mod Shims
mod Tracking
mod Rules
mod Sites
mod Swept
mod Runs
mod Places
mod Guards
mod Ledgers
mod Nets
