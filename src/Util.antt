-- ===== src/Util.antt =====
-- The modules of util/ and the texts that the sources write.
pub mod Text
pub mod Countries
pub mod Sort
