-- ===== src/Sftp/Packet/Reads.antt =====
-- Reading a number at its offset in a buffer.
use go_protocols.Common.{
  ℕ, ◌+◌, ◌/◌, ◌%◌, ◌^◌, ◌<◌, ◌≡◌, false, ◌++◌, ltb, Bytes, length, length-append, take,
  take-append, drop-append, ok, arith,
}
use go_protocols.Sftp.Packet.{put_uint32, big_endian, read_uint32, read_uint64}
use go_protocols.Sftp.Packet.RoundTrip.{big_endian-put_uint32, length-put_uint32}

-- binary.BigEndian.PutUint64
abbrev pub put_uint64 : ℕ → Bytes
put_uint64 v = put_uint32 (v / 4294967296) ++ put_uint32 (v % 4294967296)

-- A word w of k bytes at the offset.
take-at : (w rest : Bytes) (k : ℕ) → length w ≡ k → take k (w ++ rest) ≡ w
take-at w rest k e = rw e at (take-append w rest)

room :
    (pre w rest : Bytes) (k : ℕ)
    → length w ≡ k
    → ltb (length (pre ++ (w ++ rest))) (length pre + k) ≡ false
room pre w rest k e = ground (arith, length-append pre (w ++ rest), length-append w rest)

pub read_uint32-at :
    (pre : Bytes) (v : ℕ) (rest : Bytes)
    → v < 2 ^ 32
    → read_uint32 (pre ++ (put_uint32 v ++ rest)) (length pre) ≡ ok (v, length pre + 4)
unfolding read_uint32
read_uint32-at pre v rest h =
    let four = length-put_uint32 v in
    rw (room pre (put_uint32 v) rest 4 four, drop-append pre (put_uint32 v ++ rest))
      (rw (take-at (put_uint32 v) rest 4 four) (rw (big_endian-put_uint32 v h)))

big_endian-put_uint64 : (v : ℕ) → v < 2 ^ 64 → big_endian 0 (put_uint64 v) ≡ v
unfolding big_endian put_uint32
big_endian-put_uint64 v h = omega arith

pub length-put_uint64 : (v : ℕ) → length (put_uint64 v) ≡ 8
unfolding put_uint32
length-put_uint64 v = omega arith

pub read_uint64-at :
    (pre : Bytes) (v : ℕ) (rest : Bytes)
    → v < 2 ^ 64
    → read_uint64 (pre ++ (put_uint64 v ++ rest)) (length pre) ≡ ok (v, length pre + 8)
unfolding read_uint64
read_uint64-at pre v rest h =
    let eight = length-put_uint64 v in
    rw (room pre (put_uint64 v) rest 8 eight, drop-append pre (put_uint64 v ++ rest))
      (rw (take-at (put_uint64 v) rest 8 eight) (rw (big_endian-put_uint64 v h)))
