-- ===== src/Messages.antt =====
-- messages/: how the name of a message finds the class that handles it.
pub mod Lookup
pub mod Legacy
