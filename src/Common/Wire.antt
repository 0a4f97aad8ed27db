-- ===== src/Common/Wire.antt =====
-- What the program uses of Go's encoding/binary: words of four bytes, the highest first.
use go_protocols.Common.Lists.{Bytes, length, take, take-append, drop, drop-append}
use Prim.Native.Nat.{ℕ, ◌+◌, ◌*◌, ◌/◌, ◌%◌, ◌^◌, ◌<◌}
use mathlib.Core.Path.{◌≡◌, refl}
use mathlib.Core.List.{[], ◌∷◌, ◌++◌}
use native.Mathlib.Omega.{arith}

-- binary.BigEndian.PutUint32
unfoldable pub put_uint32 : ℕ → Bytes
put_uint32 v = v / 16777216 % 256 ∷ v / 65536 % 256 ∷ v / 256 % 256 ∷ v % 256 ∷ []

-- binary.BigEndian.Uint32, and Uint64 on eight bytes, Uint16 on two.
unfoldable pub big_endian : ℕ → Bytes → ℕ
big_endian n [] = n
big_endian n (b ∷ bs) = big_endian (n * 256 + b) bs

pub big_endian-put_uint32 : (v : ℕ) → v < 2 ^ 32 → big_endian 0 (put_uint32 v) ≡ v
unfolding big_endian put_uint32
big_endian-put_uint32 v h = omega arith

pub length-put_uint32 : (v : ℕ) → length (put_uint32 v) ≡ 4
unfolding put_uint32
length-put_uint32 v = refl

pub take-put_uint32 : (v : ℕ) (rest : Bytes) → take 4 (put_uint32 v ++ rest) ≡ put_uint32 v
take-put_uint32 v rest = rw (length-put_uint32 v) at (take-append (put_uint32 v) rest)

pub drop-put_uint32 : (v : ℕ) (rest : Bytes) → drop 4 (put_uint32 v ++ rest) ≡ rest
drop-put_uint32 v rest = rw (length-put_uint32 v) at (drop-append (put_uint32 v) rest)
