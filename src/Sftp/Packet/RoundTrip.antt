-- ===== src/Sftp/Packet/RoundTrip.antt =====
-- Writing and reading packets and strings.
use go_protocols.Common.{
  drop-append_more, ℕ, ◌+◌, ◌^◌, ◌<◌, ◌≡◌, ap, ◌∙◌, true, false, ◌∷◌, ◌++◌, ltb, leb, ◌==◌, Bytes,
  length, length-append, take, take-append, drop, drop-append, append_assoc, ok, arith,
}
pub use go_protocols.Common.Wire.{big_endian-put_uint32, length-put_uint32}
use go_protocols.Sftp.Packet.{
  put_uint32, read_full, packet_of, read_body, read_packet, write_packet, read_string,
  append_string,
}

read_full-append : (a b : Bytes) → read_full (length a) (a ++ b) ≡ ok (a, b)
unfolding read_full
read_full-append a b =
    let size = length-append a b in
    let fits : leb (length a) (length (a ++ b)) ≡ true = ground (arith, size) in
    rw (fits, take-append a b, drop-append a b)

read_body-append :
    (t : ℕ) (payload rest : Bytes)
    → length payload < 2 ^ 24
    → read_body (1 + length payload) (t ∷ (payload ++ rest))
      ≡ ok (record { type = t; payload = payload }, rest)
unfolding read_body packet_of
read_body-append t payload rest h =
    let some_bytes : (1 + length payload == 0) ≡ false = ground arith in
    let small : ltb (2 ^ 24) (1 + length payload) ≡ false = ground arith in
    let front : read_full (1 + length payload) (t ∷ (payload ++ rest)) ≡ ok (t ∷ payload, rest) =
      let e : 1 + length payload ≡ length (t ∷ payload) = omega arith in
      rw e (read_full-append (t ∷ payload) rest) in
    rw (some_bytes, small) (rw front)

-- ReadPacket reads back a packet that WritePacket wrote, and leaves what follows it, when the
-- payload is shorter than 2^24 bytes.
pub read_packet-write_packet :
    (t : ℕ) (payload rest : Bytes)
    → length payload < 2 ^ 24
    → read_packet (write_packet t payload ++ rest)
      ≡ ok (record { type = t; payload = payload }, rest)
unfolding read_packet write_packet
read_packet-write_packet t payload rest h =
    let front : read_full 4 (put_uint32 (1 + length payload) ++ (t ∷ (payload ++ rest)))
        ≡ ok (put_uint32 (1 + length payload), t ∷ (payload ++ rest)) =
      unfold put_uint32 in
      (read_full-append (put_uint32 (1 + length payload)) (t ∷ (payload ++ rest))) in
    let size = big_endian-put_uint32 (1 + length payload) (omega arith) in
    rw (append_assoc (put_uint32 (1 + length payload)) (t ∷ payload) rest)
      (rw front (rw size (read_body-append t payload rest h)))

-- ReadString, at the end of a buffer to which AppendString has added a string, gives that string
-- and the offset behind it, whatever follows, when the string is shorter than 2^32 bytes.
pub read_string-append_string :
    (buf s rest : Bytes)
    → length s < 2 ^ 32
    → read_string (append_string buf s ++ rest) (length buf) ≡ ok (s, length (append_string buf s))
unfolding read_string append_string
read_string-append_string buf s rest h =
    let word : Bytes = put_uint32 (length s) in
    let whole : (buf ++ (word ++ s)) ++ rest ≡ buf ++ (word ++ (s ++ rest)) =
      append_assoc buf (word ++ s) rest ∙ ap (◌++◌ buf) (append_assoc word s rest) in
    let four = length-put_uint32 (length s) in
    let tail : drop (length buf) (buf ++ (word ++ (s ++ rest))) ≡ word ++ (s ++ rest) =
      drop-append buf _ in
    let head : take 4 (word ++ (s ++ rest)) ≡ word = rw four at (take-append word (s ++ rest)) in
    let body : drop (length buf + 4) (buf ++ (word ++ (s ++ rest))) ≡ s ++ rest =
      drop-append_more buf (word ++ (s ++ rest)) 4 ∙ rw four at (drop-append word (s ++ rest)) in
    let size : length (buf ++ (word ++ (s ++ rest))) ≡ length buf + (4 + (length s + length rest)) =
      let a = length-append buf (word ++ (s ++ rest)) in
      let b = length-append word (s ++ rest) in
      let c = length-append s rest in omega (arith, a, b, c, four) in
    let end : length (buf ++ (word ++ s)) ≡ length buf + 4 + length s =
      let a = length-append buf (word ++ s) in
      let b = length-append word s in omega (arith, a, b, four) in
    let room : ltb (length buf + (4 + (length s + length rest))) (length buf + 4) ≡ false =
      ground arith in
    let more : ltb (length buf + (4 + (length s + length rest))) (length buf + 4 + length s)
        ≡ false =
      ground arith in
    rw whole (
      rw (tail, body, size, end)
        (rw (head, room) (rw (big_endian-put_uint32 (length s) h, more) (rw (take-append s rest)))))
