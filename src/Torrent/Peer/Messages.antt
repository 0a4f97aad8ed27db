-- ===== src/Torrent/Peer/Messages.antt =====
-- Messages come back as they were written.
use go_protocols.Common.{
  ℕ, ◌+◌, ◌%◌, ◌^◌, ◌<◌, ◌≡◌, ◌∙◌, false, some, ◌∷◌, ◌++◌, append_assoc, ltb, ◌==◌, Bytes, length,
  length-append, take, drop, take-append, drop-append, ok, arith,
}
use go_protocols.Common.Wire.{
  put_uint32, big_endian, big_endian-put_uint32, length-put_uint32, take-put_uint32,
  drop-put_uint32,
}
use go_protocols.Torrent.Peer.{Message, message_of, read_message, write_message}

read_body :
    (msg : Message) (rest : Bytes)
    → take (1 + length msg.payload) (msg.id ∷ (msg.payload ++ rest)) ≡ msg.id ∷ msg.payload
read_body msg rest =
    let e : 1 + length msg.payload ≡ length (msg.id ∷ msg.payload) = omega arith in
    rw e (take-append (msg.id ∷ msg.payload) rest)

drop_body :
    (msg : Message) (rest : Bytes)
    → drop (1 + length msg.payload) (msg.id ∷ (msg.payload ++ rest)) ≡ rest
drop_body msg rest =
    let e : 1 + length msg.payload ≡ length (msg.id ∷ msg.payload) = omega arith in
    rw e (drop-append (msg.id ∷ msg.payload) rest)

-- ReadMessage reads back a message that WriteMessage wrote, and leaves what follows it, when its
-- length fits 32 bits.
pub read_message-write_message :
    (msg : Message) (rest : Bytes)
    → length msg.payload + 1 < 2 ^ 32
    → read_message (write_message msg ++ rest) ≡ ok (some msg, rest)
unfolding read_message write_message message_of
read_message-write_message msg rest h =
    let n : ℕ = (1 + length msg.payload) % 2 ^ 32 in
    let tail : Bytes = msg.id ∷ (msg.payload ++ rest) in
    let whole = append_assoc (put_uint32 n) (msg.id ∷ msg.payload) rest in
    let four = length-put_uint32 n in
    let size = length-append (put_uint32 n) tail in
    let room : ltb (length (put_uint32 n ++ tail)) 4 ≡ false = ground (arith, size, four) in
    let plain : n ≡ 1 + length msg.payload = omega arith in
    let word : big_endian 0 (put_uint32 n) ≡ 1 + length msg.payload =
      big_endian-put_uint32 n (omega arith) ∙ plain in
    let some_bytes : (1 + length msg.payload == 0) ≡ false = ground arith in
    let enough : ltb (length tail) (1 + length msg.payload) ≡ false =
      ground (arith, length-append msg.payload rest) in
    rw whole (
      rw (room, take-put_uint32 n tail, drop-put_uint32 n tail)
        (rw word (rw (some_bytes, enough) (rw (read_body msg rest, drop_body msg rest)))))
