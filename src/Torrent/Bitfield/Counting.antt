-- ===== src/Torrent/Bitfield/Counting.antt =====
-- Count and Has.
use go_protocols.Common.{
  ℕ, zero, suc, ◌+◌, ◌*◌, ◌/◌, ◌%◌, ◌<◌, ◌≤◌, ◌≡◌, ◌∙◌, refl, false, [], ◌∷◌, leb, if◌then◌else◌,
  Bytes, length, arith, AreBytes,
}
use go_protocols.Common.Decimal.{pos}
use go_protocols.Torrent.Bitfield.{has, octet_count, count_loop, count}
use go_protocols.Torrent.Bitfield.Tables.{bits_below, clear_loop-bits, clear_loop-add}

-- The number of pieces below n that the bitfield has.
pub has_below : Bytes → ℕ → ℕ
has_below b zero = 0
has_below b (suc n) = has_below b n + (if has b (pos n) then 1 else 0)

has_cons_first : (x n : ℕ) (b : Bytes) → n ≤ 8 → has_below (x ∷ b) n ≡ bits_below x n
unfolding has_below bits_below has
has_cons_first x zero b h = refl
has_cons_first x (suc n) b h =
    let q : n / 8 ≡ 0 = omega arith in
    let r : n % 8 ≡ n = omega arith in
    let within : leb (suc (length b) * 8) n ≡ false = ground arith in
    rw (has_cons_first x n b (omega arith)) (rw (within, q, r))

has_cons_later : (x n : ℕ) (b : Bytes) → has (x ∷ b) (pos (n + 8)) ≡ has b (pos n)
unfolding has
has_cons_later x n b =
    let q : (n + 8) / 8 ≡ suc (n / 8) = omega arith in
    let r : (n + 8) % 8 ≡ n % 8 = omega arith in
    let range : leb (suc (length b) * 8) (n + 8) ≡ leb (length b * 8) n = ground arith in
    rw (range, q, r)

has_below-cons : (x n : ℕ) (b : Bytes) → has_below (x ∷ b) (n + 8) ≡ bits_below x 8 + has_below b n
unfolding has_below
has_below-cons x zero b = has_cons_first x 8 b (omega arith) ∙ omega arith
has_below-cons x (suc n) b =
    let e : suc n + 8 ≡ suc (n + 8) = omega arith in
    rw e (rw (has_cons_later x n b, has_below-cons x n b) (omega arith))

octet_count-bits : (x n : ℕ) → x < 256 → octet_count x n ≡ n + bits_below x 8
unfolding octet_count
octet_count-bits x n h = rw (clear_loop-add 9 x n, clear_loop-bits x h)

count_loop-has : (n : ℕ) (b : Bytes) → AreBytes b → count_loop n b ≡ n + has_below b (length b * 8)
unfolding count_loop
count_loop-has n [] h = unfold has_below in omega arith
count_loop-has n (x ∷ b) h =
    let e : suc (length b) * 8 ≡ length b * 8 + 8 = omega arith in
    rw (e, has_below-cons, octet_count-bits x n h.0, count_loop-has (n + bits_below x 8) b h.1)
      (omega arith)

-- In a bitfield of bytes, Count is the number of pieces that Has reports.
pub count-has : (b : Bytes) → AreBytes b → count b ≡ has_below b (length b * 8)
unfolding count
count-has b h = count_loop-has 0 b h ∙ omega arith
