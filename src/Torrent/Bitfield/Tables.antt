-- ===== src/Torrent/Bitfield/Tables.antt =====
-- The bits of one byte.
use go_protocols.Common.{
  ℕ, zero, suc, ◌+◌, ◌<◌, ◌≤◌, ◌≡◌, refl, Bool, true, false, not, ◌&&◌, ◌||◌, ltb, ◌==◌, arith,
  if◌then◌else◌, ltb→lt, ==_iff, ◌-◌, Bool-cases, inl, inr,
}
use Prim.Native.Nat.{bit_and}
use go_protocols.Common.Bits.{every_below, every_below_sound, every_below_complete}
use go_protocols.Torrent.Bitfield.{test_bit, set_bit, clear_loop, spare_of}

abbrev same : Bool → Bool → Bool
same true b = b
same false b = not b

same→eq : (a b : Bool) → same a b ≡ true → a ≡ b
same→eq true true h = refl
same→eq true false h = cc
same→eq false true h = cc
same→eq false false h = refl

-- The number of bits that are set among the first n.
unfoldable pub bits_below : ℕ → ℕ → ℕ
bits_below x zero = 0
bits_below x (suc n) = bits_below x n + (if test_bit x n then 1 else 0)

set_table :
    every_below 256 (λ x. every_below 8 (λ k.
      ltb (set_bit x k) 256
      && every_below 8 (λ j. same (test_bit (set_bit x k) j) (k == j || test_bit x j))))
    ≡ true
unfolding every_below test_bit set_bit
set_table = refl

and_left : (a b : Bool) → (a && b) ≡ true → a ≡ true
and_left true b h = refl
and_left false b h = cc

and_right : (a b : Bool) → (a && b) ≡ true → b ≡ true
and_right true b h = h
and_right false b h = cc

set_row :
    (x k : ℕ)
    → x < 256
    → k < 8
    → (ltb (set_bit x k) 256
        && every_below 8 (λ j. same (test_bit (set_bit x k) j) (k == j || test_bit x j)))
      ≡ true
set_row x k hx hk = every_below_sound 8 _ k (every_below_sound 256 _ x set_table hx) hk

pub set_bit-lt : (x k : ℕ) → x < 256 → k < 8 → set_bit x k < 256
set_bit-lt x k hx hk = ltb→lt _ 256 (and_left _ _ (set_row x k hx hk))

pub test_bit-set_bit :
    (x k j : ℕ) → x < 256 → k < 8 → j < 8 → test_bit (set_bit x k) j ≡ (k == j || test_bit x j)
test_bit-set_bit x k j hx hk hj = same→eq _ _ (
    every_below_sound 8 (λ i. same (test_bit (set_bit x k) i) (k == i || test_bit x i)) j
      (and_right _ _ (set_row x k hx hk)) hj)

count_table : every_below 256 (λ x. clear_loop 9 x 0 == bits_below x 8) ≡ true
unfolding every_below clear_loop bits_below test_bit
count_table = refl

pub clear_loop-bits : (x : ℕ) → x < 256 → clear_loop 9 x 0 ≡ bits_below x 8
clear_loop-bits x h = (==_iff _ _).0 (every_below_sound 256 _ x count_table h)

pub clear_loop-add : (f x n : ℕ) → clear_loop f x n ≡ n + clear_loop f x 0
unfolding clear_loop
clear_loop-add zero x n = omega arith
clear_loop-add (suc f) x n =
    ground
      (arith, clear_loop-add f (bit_and x (x - 1)) (n + 1), clear_loop-add f (bit_and x (x - 1)) 1)

-- None of the bits from the first spare one on is set.
pub spare_clear : ℕ → ℕ → Bool
unfolding every_below
spare_clear x spare = every_below 8 (λ j. ltb j spare || not (test_bit x j))

spare_table :
    every_below 256 (λ x. every_below 8 (λ k. same (spare_of x k == 0) (spare_clear x k))) ≡ true
unfolding every_below spare_clear spare_of test_bit
spare_table = refl

pub spare_of-clear : (x k : ℕ) → x < 256 → k < 8 → (spare_of x k == 0) ≡ spare_clear x k
spare_of-clear x k hx hk = same→eq _ _ (
    every_below_sound 8 (λ i. same (spare_of x i == 0) (spare_clear x i)) k
      (every_below_sound 256 _ x spare_table hx) hk)

pub spare_clear_sound : (x k j : ℕ) → spare_clear x k ≡ true → k ≤ j → j < 8 → test_bit x j ≡ false
unfolding spare_clear
spare_clear_sound x k j h hk hj =
    ground (arith, every_below_sound 8 (λ i. ltb i k || not (test_bit x i)) j h hj)

pub spare_clear_complete :
    (x k : ℕ) → ((j : ℕ) → k ≤ j → j < 8 → test_bit x j ≡ false) → spare_clear x k ≡ true
unfolding spare_clear
spare_clear_complete x k h =
    every_below_complete 8 (λ j. ltb j k || not (test_bit x j))
      λ j lt. elim (Bool-cases (ltb j k)) [ inl e ↦ rw e | inr e ↦ rw (e, h j (ground arith) lt) ]
