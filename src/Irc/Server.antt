-- ===== src/Irc/Server.antt =====
-- The packages irc/server and, for what it uses of them, irc/irc.
pub mod Names
pub mod State
pub mod Register
pub mod Tables
pub mod Channels
pub mod Join
pub mod Monitor
pub mod Events
