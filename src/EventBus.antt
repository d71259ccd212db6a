-- ===== src/EventBus.antt =====
-- event_bus.py: the publish and subscribe core that every other part of the client talks through.
pub mod State
pub mod Subscribe
pub mod Notify
pub mod Refresh
pub mod Entries
pub mod Delivery
pub mod Invariant
pub mod Timers
pub mod Frame
pub mod Teardown
pub mod Locks
pub mod Steps
pub mod Exclusion
pub mod Publishing
pub mod Debounce
pub mod Subscriptions
