-- ===== src/Irc.antt =====
-- The irc module.
pub mod Ringbuf
pub mod ModeString
pub mod ModeSet
pub mod Message
pub mod Server
