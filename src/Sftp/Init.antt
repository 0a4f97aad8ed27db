-- ===== src/Sftp/Init.antt =====
-- sftp/sftp/init.go: the request ids and the version.
use go_protocols.Common.{
  ℕ, zero, suc, ◌+◌, ◌%◌, ◌^◌, ◌<◌, ◌≡◌, ◌≢◌, ap, ◌∙◌, ◌==◌, ltb, if◌then◌else◌, length, take,
  Result, ok, err, arith,
}
use go_protocols.Sftp.Packet.{Packet, Error, unexpected_eof, big_endian}

-- One call of the function that NewRequestIDSource returns: the new c, which is the id.
unfoldable pub next_id : ℕ → ℕ
next_id c = let c' = (c + 1) % 2 ^ 32 in if c' == 0 then 1 else c'

-- The id of the n-th call; no call has come before at 0.
unfoldable pub id_after : ℕ → ℕ
unfolding next_id
id_after zero = 0
id_after (suc n) = next_id (id_after n)

-- Version
abbrev pub version : ℕ
version = 3

-- ReadInit
unfoldable pub read_init : Packet → Result Error ℕ
read_init p =
    if ltb (length p.payload) 4 then err unexpected_eof else ok (big_endian 0 (take 4 p.payload))

id_after-count : (n : ℕ) → id_after (suc n) ≡ 1 + n % 4294967295
unfolding id_after next_id
id_after-count zero = ground arith
id_after-count (suc n) = ground (arith, id_after-count n)

-- From the first call on, the request ids are not 0 and fit 32 bits; those of 2^32 - 1 calls in a
-- row are all different, and the next is the first of them again.
pub id_after-fresh :
    (m n : ℕ)
    → 0 < m
    → m < n
    → n < m + 4294967295
    → (id_after m ≢ 0)
      × (id_after n ≢ 0)
      × (id_after m < 2 ^ 32)
      × (id_after m ≢ id_after n)
      × (id_after (m + 4294967295) ≡ id_after m)
id_after-fresh zero n h k l = absurd (omega arith)
id_after-fresh (suc m) zero h k l = absurd (omega arith)
id_after-fresh (suc m) (suc n) h k l =
    let first = id_after-count m in
    let other = id_after-count n in
    let next : suc m + 4294967295 ≡ suc (m + 4294967295) = omega arith in
    let again = id_after-count (m + 4294967295) in
    (
      λ e. omega (arith, e),
      λ e. omega (arith, e),
      omega arith,
      λ e. omega (arith, e),
      ap id_after next ∙ omega arith,
    )
