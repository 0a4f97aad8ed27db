-- ===== src/Torrent/Bitfield.antt =====
-- torrent/bitfield/bitfield.go. A piece index is an int; piece counts are not negative here.
mod Tables
pub mod Laws
pub mod Counting
use go_protocols.Common.{
  ℕ, zero, suc, ◌+◌, ◌-◌, ◌*◌, ◌/◌, ◌%◌, ◌^◌, Bool, true, false, not, ◌&&◌, List, [], ◌∷◌, ltb, leb,
  ◌==◌, if◌then◌else◌, Bytes, length, get_or, set, replicate, Result, ok, err,
}
use go_protocols.Common.Decimal.{ℤ, pos, negsuc}
use Prim.Native.Nat.{bit_and, bit_or}

-- New
unfoldable pub new : ℕ → Bytes
new n = replicate ((n + 7) / 8) 0

-- b[i/8]>>uint(7-i%8)&1 == 1
unfoldable pub test_bit : ℕ → ℕ → Bool
test_bit octet k = octet / 2 ^ (7 - k) % 2 == 1

-- Has
unfoldable pub has : Bytes → ℤ → Bool
unfolding test_bit
has b (negsuc i) = false
has b (pos i) = if leb (length b * 8) i then false else test_bit (get_or b (i / 8) 0) (i % 8)

-- b[i/8] |= 1 << uint(7-i%8)
unfoldable pub set_bit : ℕ → ℕ → ℕ
set_bit octet k = bit_or octet (2 ^ (7 - k))

-- Set
unfoldable pub mark : Bytes → ℤ → Bytes
unfolding set_bit
mark b (negsuc i) = b
mark b (pos i) =
    if leb (length b * 8) i then b else set b (i / 8) (set_bit (get_or b (i / 8) 0) (i % 8))

-- for ; octet != 0; octet &= octet - 1 { n++ }, where a byte has at most eight rounds.
unfoldable pub clear_loop : ℕ → ℕ → ℕ → ℕ
clear_loop zero octet n = n
clear_loop (suc f) octet n =
    let rest = clear_loop f (bit_and octet (octet - 1)) (n + 1) in if octet == 0 then n else rest

octet_count : ℕ → ℕ → ℕ
octet_count octet n = clear_loop 9 octet n

count_loop : ℕ → Bytes → ℕ
count_loop n [] = n
count_loop n (octet ∷ b) = count_loop (octet_count octet n) b

-- Count
unfoldable pub count : Bytes → ℕ
unfolding count_loop octet_count clear_loop
count b = count_loop 0 b

pub data Error : Type 0 where
  wrong_length spare_bits : Error

-- The checked bits of the last byte: b[len(b)-1] & byte(0xff >> spare).
unfoldable pub spare_of : ℕ → ℕ → ℕ
spare_of octet spare = bit_and octet (255 / 2 ^ spare)

-- Validate
unfoldable pub validate : Bytes → ℕ → Result Error (Unit {0})
unfolding spare_of
validate b n =
    if not (length b == (n + 7) / 8)
    then err wrong_length
    else if not (n % 8 == 0) && ltb 0 (length b)
    then if not (spare_of (get_or b (length b - 1) 0) (n % 8) == 0) then err spare_bits else ok tt
    else ok tt
