-- ===== src/Common/Utf8.antt =====
-- Runes in a string, as a range over it and strings.Builder.WriteRune treat them: UTF-8, where a byte
-- that begins no rune stands for U+FFFD, and a number that is no rune is written as U+FFFD.
pub mod RoundTrip
use go_protocols.Common.Tests.{◌==◌, leb, ltb, if◌then◌else◌, Bool-cases}
use go_protocols.Common.Lists.{Bytes, length, take, drop}
use Prim.Native.Nat.{ℕ, zero, suc, ◌+◌, ◌-◌, ◌*◌, ◌/◌, ◌%◌, ◌<◌, ◌≤◌}
use mathlib.Core.Path.{◌≡◌, refl, ap, ◌∙◌}
use mathlib.Core.Logic.{inl, inr}
use mathlib.Core.Bool.{Bool, true, false, not, ◌&&◌, ◌||◌}
use mathlib.Core.List.{List, [], ◌∷◌, ◌++◌}
use native.Mathlib.Omega.{arith}

abbrev pub rune_error : ℕ
rune_error = 65533

-- A byte within bounds.
unfoldable pub within : ℕ → ℕ → ℕ → Bool
within low high c = leb low c && leb c high

-- A rune and the bytes behind it.
unfoldable pub decode_two : ℕ → Bytes → ℕ × Bytes
unfolding within
decode_two a (b ∷ rest) =
    if within 128 191 b then (a % 32 * 64 + b % 64, rest) else (rune_error, b ∷ rest)
decode_two a [] = (rune_error, [])

-- The bounds of the second byte keep out long forms and surrogates.
unfoldable pub low_three : ℕ → ℕ
low_three a = if a == 224 then 160 else 128

unfoldable pub high_three : ℕ → ℕ
high_three a = if a == 237 then 159 else 191

unfoldable pub decode_three : ℕ → Bytes → ℕ × Bytes
unfolding within low_three high_three
decode_three a (b ∷ c ∷ rest) =
    if within (low_three a) (high_three a) b && within 128 191 c
    then (a % 16 * 4096 + b % 64 * 64 + c % 64, rest)
    else (rune_error, b ∷ c ∷ rest)
decode_three a rest = (rune_error, rest)

unfoldable pub low_four : ℕ → ℕ
low_four a = if a == 240 then 144 else 128

unfoldable pub high_four : ℕ → ℕ
high_four a = if a == 244 then 143 else 191

unfoldable pub decode_four : ℕ → Bytes → ℕ × Bytes
unfolding within low_four high_four
decode_four a (b ∷ c ∷ d ∷ rest) =
    if within (low_four a) (high_four a) b && within 128 191 c && within 128 191 d
    then (a % 8 * 262144 + b % 64 * 4096 + c % 64 * 64 + d % 64, rest)
    else (rune_error, b ∷ c ∷ d ∷ rest)
decode_four a rest = (rune_error, rest)

-- The first rune of a string that begins with a byte: utf8.DecodeRuneInString.
unfoldable pub decode_rune : ℕ → Bytes → ℕ × Bytes
unfolding within decode_two decode_three decode_four
decode_rune a rest =
    if ltb a 128
    then (a, rest)
    else if within 194 223 a
    then decode_two a rest
    else if within 224 239 a
    then decode_three a rest
    else if within 240 244 a
    then decode_four a rest
    else (rune_error, rest)

-- The runes that a range visits, by rounds; each takes a byte at least.
unfoldable pub runes_loop : ℕ → Bytes → List ℕ
runes_loop zero s = []
runes_loop (suc f) [] = []
runes_loop (suc f) (a ∷ s) = let (r, rest) = decode_rune a s in r ∷ runes_loop f rest

unfoldable pub runes : Bytes → List ℕ
unfolding runes_loop
runes s = runes_loop (length s) s

-- The runes with the bytes that each stands for, by rounds.
unfoldable pub pieces_loop : ℕ → Bytes → List (ℕ × Bytes)
pieces_loop zero s = []
pieces_loop (suc f) [] = []
pieces_loop (suc f) (a ∷ s) =
    let (r, rest) = decode_rune a s in
    (r, take (1 + (length s - length rest)) (a ∷ s)) ∷ pieces_loop f rest

unfoldable pub pieces : Bytes → List (ℕ × Bytes)
unfolding pieces_loop
pieces s = pieces_loop (length s) s

unfoldable pub joined : List (ℕ × Bytes) → Bytes
joined [] = []
joined ((r, s) ∷ ps) = s ++ joined ps

-- A rune that UTF-8 can carry: no surrogate, and not above U+10FFFF.
unfoldable pub is_rune : ℕ → Bool
is_rune r = ltb r 55296 || leb 57344 r && leb r 1114111

unfoldable pub put_rune : ℕ → Bytes → Bytes
put_rune r rest =
    if ltb r 128
    then r ∷ rest
    else if ltb r 2048
    then (192 + r / 64) ∷ (128 + r % 64) ∷ rest
    else if ltb r 65536
    then (224 + r / 4096) ∷ (128 + r / 64 % 64) ∷ (128 + r % 64) ∷ rest
    else (240 + r / 262144) ∷ (128 + r / 4096 % 64) ∷ (128 + r / 64 % 64) ∷ (128 + r % 64) ∷ rest

-- WriteRune, for the runes in a row.
unfoldable pub write_runes : List ℕ → Bytes
unfolding put_rune is_rune
write_runes [] = []
write_runes (r ∷ rs) = put_rune (if is_rune r then r else rune_error) (write_runes rs)

-- Every number is a rune.
abbrev pub AreRunes : List ℕ → Type 0
AreRunes [] = Unit
AreRunes (r ∷ rs) = (is_rune r ≡ true) × AreRunes rs
