-- ===== src/Torrent.antt =====
-- The torrent module.
pub mod Bencode
pub mod Bitfield
pub mod Piece
pub mod Peer
pub mod Metainfo
pub mod Tracker
