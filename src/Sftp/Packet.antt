-- ===== src/Sftp/Packet.antt =====
-- sftp/sftp/packet.go. A reader is the list of the bytes that it still holds; offsets are not
-- negative.
pub mod RoundTrip
pub mod Reads
pub mod Shorter
use go_protocols.Common.{
  ℕ, ◌+◌, ◌*◌, ◌/◌, ◌%◌, ◌^◌, Bool, true, false, ◌||◌, [], ◌∷◌, ◌++◌, ltb, leb, ◌==◌, if◌then◌else◌,
  Bytes, length, take, drop, Result, ok, err, ◌>>=◌,
}
unfoldable pub use go_protocols.Common.Wire.{put_uint32, big_endian}

pub record Packet : Type 0 where
  pub type : ℕ
  pub payload : Bytes

pub data Error : Type 0 where
  eof unexpected_eof unreasonable_length zero_length short_string short_uint32 short_uint64 : Error

missing : Bytes → Error
missing [] = eof
missing (b ∷ bs) = unexpected_eof

-- io.ReadFull
unfoldable pub read_full : ℕ → Bytes → Result Error (Bytes × Bytes)
unfolding missing
read_full n r = if leb n (length r) then ok (take n r, drop n r) else err (missing r)

packet_of : Bytes × Bytes → Result Error (Packet × Bytes)
packet_of ([], rest) = err zero_length
packet_of (b ∷ bs, rest) = ok (record { type = b; payload = bs }, rest)

read_body : ℕ → Bytes → Result Error (Packet × Bytes)
unfolding packet_of
read_body n r =
    if n == 0 || ltb (2 ^ 24) n then err unreasonable_length else read_full n r >>= packet_of

-- ReadPacket
unfoldable pub read_packet : Bytes → Result Error (Packet × Bytes)
unfolding read_body
read_packet r = read_full 4 r >>= λ h. read_body (big_endian 0 h.0) h.1

-- WritePacket: the bytes that it writes, for a type below 256.
unfoldable pub write_packet : ℕ → Bytes → Bytes
write_packet t payload = put_uint32 (1 + length payload) ++ t ∷ payload

-- ReadString: the string and the offset behind it.
unfoldable pub read_string : Bytes → ℕ → Result Error (Bytes × ℕ)
read_string buf off =
    let n = big_endian 0 (take 4 (drop off buf)) in
    if ltb (length buf) (off + 4)
    then err short_string
    else if ltb (length buf) (off + 4 + n)
    then err short_string
    else ok (take n (drop (off + 4) buf), off + 4 + n)

-- AppendString
unfoldable pub append_string : Bytes → Bytes → Bytes
append_string buf s = buf ++ (put_uint32 (length s) ++ s)

-- ReadUint32
unfoldable pub read_uint32 : Bytes → ℕ → Result Error (ℕ × ℕ)
read_uint32 buf off =
    if ltb (length buf) (off + 4)
    then err short_uint32
    else ok (big_endian 0 (take 4 (drop off buf)), off + 4)

-- AppendUint32
unfoldable pub append_uint32 : Bytes → ℕ → Bytes
append_uint32 buf v = buf ++ put_uint32 v

-- ReadUint64
unfoldable pub read_uint64 : Bytes → ℕ → Result Error (ℕ × ℕ)
read_uint64 buf off =
    if ltb (length buf) (off + 8)
    then err short_uint64
    else ok (big_endian 0 (take 8 (drop off buf)), off + 8)

-- AppendUint64
unfoldable pub append_uint64 : Bytes → ℕ → Bytes
append_uint64 buf v = buf ++ (put_uint32 (v / 4294967296) ++ put_uint32 (v % 4294967296))
