-- ===== src/Device.antt =====
-- device.py: the device behind its event bus, and the commands that run for it.
pub mod State
pub mod Handlers
pub mod Lifecycle
pub mod Limit
