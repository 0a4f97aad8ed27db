-- ===== src/Sftp/Attr/StatusReply.antt =====
-- A status reply comes back as it was written.
use go_protocols.Common.{
  ℕ, ◌^◌, ◌<◌, ◌≡◌, refl, ◌∙◌, false, ◌++◌, ltb, Bytes, length, length-append, append_assoc, ok,
  arith,
}
use go_protocols.Common.Wire.{take-put_uint32, drop-put_uint32}
use go_protocols.Sftp.Packet.{put_uint32, append_uint32, append_string, read_string}
use go_protocols.Sftp.Packet.RoundTrip.{
  length-put_uint32, big_endian-put_uint32, read_string-append_string,
}
use go_protocols.Sftp.Attr.{encode_status, message, decode_status}

-- The two words that begin a status reply.
abbrev words : ℕ → ℕ → Bytes
words id code = put_uint32 id ++ put_uint32 code

length-words : (id code : ℕ) → length (words id code) ≡ 8
length-words id code =
    length-append (put_uint32 id) (put_uint32 code)
    ∙ rw (length-put_uint32 id, length-put_uint32 code)

decode_words :
    (id code : ℕ) (rest : Bytes)
    → id < 2 ^ 32
    → code < 2 ^ 32
    → decode_status (words id code ++ rest)
      ≡ message id code (read_string (words id code ++ rest) 8)
unfolding decode_status
decode_words id code rest h k =
    let size : ltb (length (words id code ++ rest)) 8 ≡ false =
      ground (arith, length-append (words id code) rest, length-words id code) in
    let regroup = append_assoc (put_uint32 id) (put_uint32 code) rest in
    rw size (
      rw regroup (
        rw
          (
            take-put_uint32 id (put_uint32 code ++ rest),
            drop-put_uint32 id (put_uint32 code ++ rest),
          )
          (rw
            (take-put_uint32 code rest, big_endian-put_uint32 id h, big_endian-put_uint32 code k))))

-- DecodeStatus gives the id, the code and the message that EncodeStatus was given, when they fit
-- the wire format.
pub decode_status-encode_status :
    (id code : ℕ) (msg lang : Bytes)
    → id < 2 ^ 32
    → code < 2 ^ 32
    → length msg < 2 ^ 32
    → decode_status (encode_status id code msg lang)
      ≡ ok (record { id = id; code = code; msg = msg })
unfolding encode_status append_uint32
decode_status-encode_status id code msg lang h k m =
    let buf : Bytes = words id code in
    let tail : Bytes = put_uint32 (length lang) ++ lang in
    let text : append_string buf msg ++ tail ≡ buf ++ ((put_uint32 (length msg) ++ msg) ++ tail) =
      unfold append_string in append_assoc buf (put_uint32 (length msg) ++ msg) tail in
    let read : read_string (append_string buf msg ++ tail) 8
        ≡ ok (msg, length (append_string buf msg)) =
      rw (length-words id code) at (read_string-append_string buf msg tail m) in
    let whole : append_string (append_string buf msg) lang ≡ append_string buf msg ++ tail =
      unfold append_string in refl in
    rw whole (
      rw text (
        decode_words id code ((put_uint32 (length msg) ++ msg) ++ tail) h k
        ∙ rw (← text) (rw read (unfold message in refl))))
