-- ===== src/Command.antt =====
-- command.py: commands, the response to one, and its execution.
pub mod Base
pub mod Execute
pub mod P2p
pub mod Outcome
pub mod Parameters
