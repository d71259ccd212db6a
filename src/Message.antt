-- ===== src/Message.antt =====
-- message.py: how a message is taken apart and handed to the class that handles it.
pub mod World
pub mod Wrap
pub mod Body
pub mod Routing
pub mod Throttle
