-- ===== src/Ftp.antt =====
-- The ftp module.
pub mod Command
pub mod Reply
pub mod Backend
pub mod State
pub mod Address
pub mod Handlers
pub mod Session
pub mod Paths
pub mod Accounts
