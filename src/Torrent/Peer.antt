-- ===== src/Torrent/Peer.antt =====
-- torrent/peer/peer.go: the handshake and the messages between peers. A reader is the list of the
-- bytes that it still holds. Hashes and peer ids are 20 bytes; Handshake itself, which sends and
-- receives at once, is not modelled.
pub mod Messages
pub mod Greeting
use go_protocols.Common.{
  ℕ, ◌+◌, ◌%◌, ◌^◌, Bool, true, false, not, Option, none, some, [], ◌∷◌, ◌++◌, ltb, leb, ◌==◌,
  if◌then◌else◌, Bytes, length, take, drop, replicate, equal, Result, ok, err,
}
use go_protocols.Common.Text.{codes}
use go_protocols.Common.Wire.{put_uint32, big_endian}

abbrev pub protocol_str : Bytes
protocol_str = codes "BitTorrent protocol"

abbrev pub protocol_str_len : ℕ
protocol_str_len = 19

abbrev pub handshake_len : ℕ
handshake_len = 68

abbrev pub msg_choke : ℕ
msg_choke = 0

abbrev pub msg_unchoke : ℕ
msg_unchoke = 1

abbrev pub msg_interested : ℕ
msg_interested = 2

abbrev pub msg_not_interested : ℕ
msg_not_interested = 3

abbrev pub msg_have : ℕ
msg_have = 4

abbrev pub msg_bitfield : ℕ
msg_bitfield = 5

abbrev pub msg_request : ℕ
msg_request = 6

abbrev pub msg_piece : ℕ
msg_piece = 7

abbrev pub msg_cancel : ℕ
msg_cancel = 8

pub record Message : Type 0 where
  pub id : ℕ
  pub payload : Bytes

pub data Error : Type 0 where
  read_handshake hash_mismatch read_length read_payload : Error
  name_length : ℕ → Error
  unexpected_protocol : Bytes → Error
  short_piece bad_have : ℕ → Error

-- sendHandshake: the bytes that it writes.
unfoldable pub send_handshake : Bytes → Bytes → Bytes
send_handshake info_hash peer_id =
    protocol_str_len ∷ (protocol_str ++ (replicate 8 0 ++ (info_hash ++ peer_id)))

check_handshake : Bytes → Bytes → Result Error Bytes
check_handshake buf expected =
    let first = big_endian 0 (take 1 buf) in
    let name = take 19 (drop 1 buf) in
    if not (first == protocol_str_len)
    then err (name_length first)
    else if not (equal name protocol_str)
    then err (unexpected_protocol name)
    else if not (equal (take 20 (drop 28 buf)) expected)
    then err hash_mismatch
    else ok (take 20 (drop 48 buf))

-- recvHandshake
unfoldable pub recv_handshake : Bytes → Bytes → Result Error Bytes
unfolding check_handshake
recv_handshake r expected =
    if ltb (length r) handshake_len
    then err read_handshake
    else check_handshake (take handshake_len r) expected

message_of : Bytes → Option Message
message_of [] = none
message_of (b ∷ bs) = some (record { id = b; payload = bs })

-- ReadMessage: the message, if it is no keepalive, and the rest of the reader.
unfoldable pub read_message : Bytes → Result Error (Option Message × Bytes)
unfolding message_of
read_message r =
    let n = big_endian 0 (take 4 r) in
    let body = drop 4 r in
    if ltb (length r) 4
    then err read_length
    else if n == 0
    then ok (none, body)
    else if ltb (length body) n
    then err read_payload
    else ok (message_of (take n body), drop n body)

-- WriteMessage: the bytes that it writes.
unfoldable pub write_message : Message → Bytes
write_message msg = put_uint32 ((1 + length msg.payload) % 2 ^ 32) ++ msg.id ∷ msg.payload

-- FormatRequest
unfoldable pub format_request : ℕ → ℕ → ℕ → Bytes
format_request index begin size = put_uint32 index ++ (put_uint32 begin ++ put_uint32 size)

-- ParsePiece: the index, the offset and the block.
unfoldable pub parse_piece : Bytes → Result Error (ℕ × ℕ × Bytes)
parse_piece payload =
    if ltb (length payload) 8
    then err (short_piece (length payload))
    else ok (big_endian 0 (take 4 payload), big_endian 0 (take 4 (drop 4 payload)), drop 8 payload)

-- ParseHave
unfoldable pub parse_have : Bytes → Result Error ℕ
parse_have payload =
    if not (length payload == 4) then err (bad_have (length payload)) else ok (big_endian 0 payload)
