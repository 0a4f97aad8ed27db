-- ===== src/Common/Utf8/RoundTrip.antt =====
-- Writing runes and ranging over them.
use go_protocols.Common.Tests.{◌==◌, leb, ltb, if◌then◌else◌, Bool-cases}
use go_protocols.Common.Lists.{Bytes, length}
use Prim.Native.Nat.{ℕ, zero, suc, ◌+◌, ◌*◌, ◌/◌, ◌%◌, ◌<◌, ◌≤◌}
use mathlib.Core.Path.{◌≡◌, refl, ap, ◌∙◌}
use mathlib.Core.Logic.{inl, inr}
use mathlib.Core.Bool.{true, false, ◌&&◌}
use mathlib.Core.List.{List, [], ◌∷◌}
use native.Mathlib.Omega.{arith}
use go_protocols.Common.Utf8.{
  within, decode_two, decode_three, decode_four, low_three, high_three, low_four, high_four,
  decode_rune, runes_loop, runes, is_rune, put_rune, write_runes, AreRunes,
}

decode_rune-one : (r : ℕ) (rest : Bytes) → r < 128 → decode_rune r rest ≡ (r, rest)
unfolding decode_rune
decode_rune-one r rest h = let small : ltb r 128 ≡ true = ground arith in rw small

decode_rune-two :
    (r : ℕ) (rest : Bytes)
    → 128 ≤ r
    → r < 2048
    → decode_rune (192 + r / 64) ((128 + r % 64) ∷ rest) ≡ (r, rest)
unfolding decode_rune decode_two within
decode_rune-two r rest l h =
    let a : ltb (192 + r / 64) 128 ≡ false = ground arith in
    let b : (leb 194 (192 + r / 64) && leb (192 + r / 64) 223) ≡ true = ground arith in
    let c : (leb 128 (128 + r % 64) && leb (128 + r % 64) 191) ≡ true = ground arith in
    let value : (192 + r / 64) % 32 * 64 + (128 + r % 64) % 64 ≡ r = omega arith in
    rw (a, b, c, value)

decode_rune-three :
    (r : ℕ) (rest : Bytes)
    → 2048 ≤ r
    → r < 65536
    → is_rune r ≡ true
    → decode_rune (224 + r / 4096) ((128 + r / 64 % 64) ∷ (128 + r % 64) ∷ rest) ≡ (r, rest)
unfolding decode_rune decode_three within low_three high_three is_rune
decode_rune-three r rest l h ok_rune =
    let x : ℕ = 224 + r / 4096 in
    let y : ℕ = 128 + r / 64 % 64 in
    let z : ℕ = 128 + r % 64 in
    let a : ltb x 128 ≡ false = ground arith in
    let b : (leb 194 x && leb x 223) ≡ false = ground arith in
    let c : (leb 224 x && leb x 239) ≡ true = ground arith in
    let d : ((leb (if x == 224 then 160 else 128) y && leb y (if x == 237 then 159 else 191))
          && (leb 128 z && leb z 191))
        ≡ true =
      ground arith in
    let value : x % 16 * 4096 + y % 64 * 64 + z % 64 ≡ r = omega arith in
    rw (a, b, c, decode_three, d, value)

decode_rune-four :
    (r : ℕ) (rest : Bytes)
    → 65536 ≤ r
    → is_rune r ≡ true
    → decode_rune
        (240 + r / 262144)
        ((128 + r / 4096 % 64) ∷ (128 + r / 64 % 64) ∷ (128 + r % 64) ∷ rest)
      ≡ (r, rest)
unfolding decode_rune decode_four within low_four high_four is_rune
decode_rune-four r rest l ok_rune =
    let top : r < 1114112 = ground arith in
    let w : ℕ = 240 + r / 262144 in
    let x : ℕ = 128 + r / 4096 % 64 in
    let y : ℕ = 128 + r / 64 % 64 in
    let z : ℕ = 128 + r % 64 in
    let a : ltb w 128 ≡ false = ground arith in
    let b : (leb 194 w && leb w 223) ≡ false = ground arith in
    let c : (leb 224 w && leb w 239) ≡ false = ground arith in
    let d : (leb 240 w && leb w 244) ≡ true = ground arith in
    let e : ((leb (if w == 240 then 144 else 128) x && leb x (if w == 244 then 143 else 191))
          && (leb 128 y && leb y 191)
          && (leb 128 z && leb z 191))
        ≡ true =
      ground arith in
    let value : w % 8 * 262144 + x % 64 * 4096 + y % 64 * 64 + z % 64 ≡ r = omega arith in
    rw (a, b, c, d, decode_four, e, value)

-- One step of the range over what was written.
runes_loop-put_rune :
    (f r : ℕ) (rest : Bytes)
    → is_rune r ≡ true
    → runes_loop (suc f) (put_rune r rest) ≡ r ∷ runes_loop f rest
unfolding put_rune runes_loop
runes_loop-put_rune f r rest h = elim (Bool-cases (ltb r 128)) [
  | inl one ↦ rw (one, decode_rune-one r rest (ground arith))
  | inr more ↦ elim (Bool-cases (ltb r 2048)) [
    | inl two ↦ rw (more, two, decode_rune-two r rest (ground arith) (ground arith))
    | inr longer ↦ elim (Bool-cases (ltb r 65536)) [
      | inl three ↦
          rw (more, longer, three, decode_rune-three r rest (ground arith) (ground arith) h)
      | inr four ↦ rw (more, longer, four, decode_rune-four r rest (ground arith) h)
    ]
  ]
]

length-put_rune : (r : ℕ) (rest : Bytes) → length rest < length (put_rune r rest)
unfolding put_rune
length-put_rune r rest = ground arith

runes_loop-write_runes :
    (f : ℕ) (rs : List ℕ)
    → AreRunes rs
    → length (write_runes rs) ≤ f
    → runes_loop f (write_runes rs) ≡ rs
unfolding write_runes
runes_loop-write_runes zero [] h n = unfold runes_loop in refl
runes_loop-write_runes (suc f) [] h n = unfold runes_loop in refl
runes_loop-write_runes zero (r ∷ rs) h n =
    let fits : length (put_rune r (write_runes rs)) ≤ 0 = rw (h.0) at n in
    absurd (let q = length-put_rune r (write_runes rs) in omega arith)
runes_loop-write_runes (suc f) (r ∷ rs) h n =
    let fits : length (put_rune r (write_runes rs)) ≤ suc f = rw (h.0) at n in
    let q = length-put_rune r (write_runes rs) in
    rw (h.0) (
      runes_loop-put_rune f r (write_runes rs) h.0
      ∙ ap (◌∷◌ r) (runes_loop-write_runes f rs h.1 (omega arith)))

-- A range over written runes visits them.
pub runes-write_runes : (rs : List ℕ) → AreRunes rs → runes (write_runes rs) ≡ rs
unfolding runes
runes-write_runes rs h = runes_loop-write_runes (length (write_runes rs)) rs h (omega arith)
