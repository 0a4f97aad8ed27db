-- ===== src/Sftp.antt =====
-- The sftp module.
pub mod Constants
pub mod Packet
pub mod Attr
pub mod Init
pub mod Backend
pub mod Server
pub mod Handlers
pub mod Serve
