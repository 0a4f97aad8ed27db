-- ===== src/Examples.antt =====
-- Concrete inputs for the theorems, by the part of the program.
mod Torrent
mod Irc
mod Ftp
mod Sftp
mod IrcServer
