-- ===== src/Torrent/Bitfield/Laws.antt =====
-- What the operations of a bitfield do to the set of pieces that it stands for.
use go_protocols.Common.{
  ℕ, ◌+◌, ◌-◌, ◌*◌, ◌/◌, ◌%◌, ◌<◌, ◌≤◌, ◌≡◌, ◌≢◌, refl, ◌↔◌, Bool, true, false, ◌&&◌, ◌||◌, ltb,
  leb, ◌==◌, Bytes, length, get_or, set, ok, arith, AreBytes, All-get_or, All-set, get_or-set,
  length-set, ==_iff, Bool-cases, inl, inr, ◌⊎◌,
}
use native.Mathlib.Decide.{ℕ_discrete as dec_eq}
use go_protocols.Common.Decimal.{ℤ, pos, negsuc}
use go_protocols.Torrent.Bitfield.{test_bit, has, set_bit, mark, validate, spare_of}
use go_protocols.Torrent.Bitfield.Tables.{
  set_bit-lt, test_bit-set_bit, spare_clear, spare_of-clear, spare_clear_sound,
  spare_clear_complete,
}

byte_at : (b : Bytes) (i : ℕ) → AreBytes b → get_or b i 0 < 256
byte_at b i h = All-get_or (λ x. x < 256) b i 0 h (omega arith)

-- Set keeps the bytes bytes.
pub mark-AreBytes : (b : Bytes) (i : ℤ) → AreBytes b → AreBytes (mark b i)
unfolding mark
mark-AreBytes b (negsuc i) h = h
mark-AreBytes b (pos i) h = elim (Bool-cases (leb (length b * 8) i)) [
  | inl out ↦ rw out h
  | inr within ↦ rw within (
      All-set (λ x. x < 256) b (i / 8) (set_bit (get_or b (i / 8) 0) (i % 8)) h
        (set_bit-lt _ _ (byte_at b (i / 8) h) (omega arith)))
]

-- The same bit of the same byte is the same piece.
set_other_bit :
    (b : Bytes) (i j : ℕ)
    → AreBytes b
    → i < length b * 8
    → test_bit (get_or (set b (i / 8) (set_bit (get_or b (i / 8) 0) (i % 8))) (j / 8) 0) (j % 8)
      ≡ (i == j || test_bit (get_or b (j / 8) 0) (j % 8))
set_other_bit b i j h k =
    let x : ℕ = get_or b (i / 8) 0 in
    let v : ℕ = set_bit x (i % 8) in
    rw (get_or-set b (i / 8) (j / 8) v 0 (omega arith)) (elim (Bool-cases (i / 8 == j / 8)) [
      | inl e ↦
          let q : i / 8 ≡ j / 8 = (==_iff _ _).0 e in
          let bits =
            test_bit-set_bit x (i % 8) (j % 8) (byte_at b (i / 8) h) (omega arith) (omega arith) in
          let t : (i % 8 == j % 8) ≡ (i == j) = ground arith in rw (e, bits, t, q)
      | inr ne ↦ let t : (i == j) ≡ false = ground arith in rw (ne, t)
    ])

has-mark_within :
    (b : Bytes) (i j : ℕ)
    → AreBytes b
    → i < length b * 8
    → has (mark b (pos i)) (pos j) ≡ (i == j || has b (pos j))
unfolding has mark
has-mark_within b i j h k =
    let room : leb (length b * 8) i ≡ false = ground arith in
    rw room (
      rw (length-set b (i / 8) (set_bit (get_or b (i / 8) 0) (i % 8)))
        (elim (Bool-cases (leb (length b * 8) j)) [
          | inl out ↦ rw out (ground arith)
          | inr within ↦ rw within (set_other_bit b i j h k)
        ]))

has-mark_piece :
    (b : Bytes) (i j : ℕ)
    → AreBytes b
    → has (mark b (pos i)) (pos j) ≡ (ltb i (length b * 8) && i == j || has b (pos j))
has-mark_piece b i j h = elim (Bool-cases (leb (length b * 8) i)) [
  | inl out ↦ unfold mark in rw out (ground arith)
  | inr within ↦ rw (has-mark_within b i j h (ground arith)) (ground arith)
]

-- Whether the indices are the same piece of the bitfield.
abbrev pub same_piece : Bytes → ℤ → ℤ → Bool
same_piece b (pos i) (pos j) = ltb i (length b * 8) && i == j
same_piece b _ _ = false

-- In a bitfield of bytes, Set marks its piece and no other, and does nothing for a piece out of
-- range, a negative index included.
pub has-mark : (b : Bytes) (i j : ℤ) → AreBytes b → has (mark b i) j ≡ (same_piece b i j || has b j)
has-mark b (pos i) (pos j) h = has-mark_piece b i j h
has-mark b (pos i) (negsuc j) h = unfold has in refl
has-mark b (negsuc i) (pos j) h = unfold mark in refl
has-mark b (negsuc i) (negsuc j) h = unfold mark in refl

-- No piece from n on is marked.
abbrev pub IsWithin : Bytes → ℕ → Type 0
IsWithin b n = (j : ℕ) → n ≤ j → has b (pos j) ≡ false

-- The spare bits of the last byte are the pieces from n on.
spare-IsWithin :
    (b : Bytes) (n : ℕ)
    → length b ≡ (n + 7) / 8
    → n % 8 ≢ 0
    → spare_clear (get_or b (length b - 1) 0) (n % 8) ≡ true
    → IsWithin b n
unfolding has
spare-IsWithin b n size spare h j le = elim (Bool-cases (leb (length b * 8) j)) [
  | inl out ↦ rw out
  | inr within ↦
      let last : length b - 1 ≡ j / 8 = ground arith in
      let clear =
        spare_clear_sound (get_or b (length b - 1) 0) (n % 8) (j % 8) h (ground arith)
          (omega arith) in
      rw within (rw last at clear)
]

IsWithin-spare :
    (b : Bytes) (n : ℕ)
    → length b ≡ (n + 7) / 8
    → n % 8 ≢ 0
    → IsWithin b n
    → spare_clear (get_or b (length b - 1) 0) (n % 8) ≡ true
unfolding has
IsWithin-spare b n size spare h =
    spare_clear_complete (get_or b (length b - 1) 0) (n % 8) λ j le lt.
      let i : ℕ = n / 8 * 8 + j in
      let within : leb (length b * 8) i ≡ false = ground arith in
      let last : i / 8 ≡ length b - 1 = omega arith in
      let bit : i % 8 ≡ j = omega arith in
      let clear = h i (omega arith) in rw (within, last, bit) at clear

full-IsWithin : (b : Bytes) (n : ℕ) → length b ≡ (n + 7) / 8 → n % 8 ≡ 0 → IsWithin b n
unfolding has
full-IsWithin b n size none_spare j le =
    let out : leb (length b * 8) j ≡ true = ground arith in rw out

module _ (b : Bytes) (n : ℕ) where
  last : ℕ
  last = get_or b (length b - 1) 0

  accepted_cases :
      validate b n ≡ ok tt
      → (length b ≡ (n + 7) / 8) × ((n % 8 ≡ 0) ⊎ ((spare_of last (n % 8) == 0) ≡ true))
  unfolding validate last
  accepted_cases e = ground arith

  accepts :
      length b ≡ (n + 7) / 8
      → (n % 8 ≡ 0) ⊎ ((spare_of last (n % 8) == 0) ≡ true)
      → validate b n ≡ ok tt
  unfolding validate last
  accepts e c = ground arith

  module _ (h : AreBytes b) where
    table : (spare_of last (n % 8) == 0) ≡ spare_clear last (n % 8)
    unfolding last
    table = spare_of-clear last (n % 8) (byte_at b (length b - 1) h) (omega arith)

    accepted-IsWithin : validate b n ≡ ok tt → (length b ≡ (n + 7) / 8) × IsWithin b n
    accepted-IsWithin e = let (size, c) = accepted_cases e in (size, by_spare size c)
      where
        by_spare :
            length b ≡ (n + 7) / 8
            → (n % 8 ≡ 0) ⊎ ((spare_of last (n % 8) == 0) ≡ true)
            → IsWithin b n
        by_spare size (inl none_spare) = full-IsWithin b n size none_spare
        by_spare size (inr clear) = elim (dec_eq (n % 8) 0) [
          | yes z ↦ full-IsWithin b n size z
          | no z ↦ spare-IsWithin b n size z (unfold last in (rw table at clear))
        ]

    IsWithin-accepted : (length b ≡ (n + 7) / 8) × IsWithin b n → validate b n ≡ ok tt
    IsWithin-accepted (size, within) = accepts size (elim (dec_eq (n % 8) 0) [
      | yes z ↦ inl z
      | no z ↦ inr (rw table (unfold last in (IsWithin-spare b n size z within)))
    ])

-- For bytes, Validate accepts exactly the bitfields of the right length with no piece from n on
-- marked.
pub validate_iff :
    (b : Bytes) (n : ℕ)
    → AreBytes b
    → (validate b n ≡ ok tt) ↔ ((length b ≡ (n + 7) / 8) × IsWithin b n)
validate_iff b n h = (accepted-IsWithin b n h, IsWithin-accepted b n h)
