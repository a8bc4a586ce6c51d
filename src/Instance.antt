-- ===== src/Instance.antt =====
-- A directive instance: directive/controller/instance.go and the files beside it.
pub mod State
pub mod Callbacks
pub mod Notify
pub mod Capacity
pub mod Values
pub mod Lifecycle
pub mod Handlers
pub mod Api
pub mod Invariant
pub mod Halting
pub mod Disposal
pub mod Runs
mod Tests
