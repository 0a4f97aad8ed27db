-- ===== src/Common/Text.antt =====
-- What the program uses of Go's strings package, on bytes. Letters are folded in ASCII only; white
-- space is that of Unicode.
use go_protocols.Common.Tests.{◌==◌, leb, if◌then◌else◌, Option-cases}
use go_protocols.Common.Lists.{Bytes, length, All}
use Prim.Native.Nat.{ℕ, ◌+◌, ◌-◌, ◌<◌}
use Prim.Native.Char.{code}
use Prim.Native.String.{String}
use mathlib.Core.Path.{◌≡◌, refl}
use mathlib.Core.Logic.{◌≢◌, inl, inr}
use go_protocols.Common.Utf8.{pieces, joined}
use mathlib.Core.Bool.{Bool, true, ◌&&◌, ◌||◌}
use mathlib.Core.List.{List, [], ◌∷◌, ◌++◌, map}
use mathlib.Core.Option.{Option, none, some}
use native.Mathlib.Omega.{arith}

-- The bytes of an ASCII literal.
abbrev pub codes : String → Bytes
codes String.[] = []
codes (String.◌∷◌ c s) = code c ∷ codes s

-- strings.ToUpper of a byte.
unfoldable pub upper : ℕ → ℕ
upper c = if leb b'a' c && leb c b'z' then c - 32 else c

unfoldable pub to_upper : Bytes → Bytes
unfolding upper
to_upper s = map upper s

-- strings.ToLower of a byte.
unfoldable pub lower : ℕ → ℕ
lower c = if leb b'A' c && leb c b'Z' then c + 32 else c

unfoldable pub to_lower : Bytes → Bytes
unfolding lower
to_lower s = map lower s

-- strings.TrimLeft with the set of bytes that p tells.
unfoldable pub trim_left : (ℕ → Bool) → Bytes → Bytes
trim_left p [] = []
trim_left p (c ∷ cs) = let rest = trim_left p cs in if p c then rest else c ∷ cs

unfoldable pub keep_unless : Bool → ℕ → Bytes → Bytes
keep_unless true c [] = []
keep_unless _ c cs = c ∷ cs

-- strings.TrimRight.
unfoldable pub trim_right : (ℕ → Bool) → Bytes → Bytes
unfolding keep_unless
trim_right p [] = []
trim_right p (c ∷ cs) = keep_unless (p c) c (trim_right p cs)

-- unicode.IsSpace
unfoldable pub is_space : ℕ → Bool
is_space r =
    leb 9 r && leb r 13
    || r == 32
    || r == 133
    || r == 160
    || r == 5760
    || leb 8192 r && leb r 8202
    || r == 8232
    || r == 8233
    || r == 8239
    || r == 8287
    || r == 12288

drop_spaces : List (ℕ × Bytes) → List (ℕ × Bytes)
drop_spaces [] = []
drop_spaces ((r, s) ∷ ps) = let rest = drop_spaces ps in if is_space r then rest else (r, s) ∷ ps

keep_before : Bool → ℕ × Bytes → List (ℕ × Bytes) → List (ℕ × Bytes)
keep_before true p [] = []
keep_before _ p ps = p ∷ ps

drop_last_spaces : List (ℕ × Bytes) → List (ℕ × Bytes)
unfolding keep_before
drop_last_spaces [] = []
drop_last_spaces ((r, s) ∷ ps) = keep_before (is_space r) (r, s) (drop_last_spaces ps)

-- strings.TrimSpace: the white runes at both ends. From the back it takes the same runes apart as from
-- the front: no byte of a white rune belongs to another.
unfoldable pub trim_space : Bytes → Bytes
unfolding drop_spaces drop_last_spaces
trim_space s = joined (drop_last_spaces (drop_spaces (pieces s)))

-- i := strings.IndexByte(s, c) with s[:i] and s[i+1:]; none where i < 0.
unfoldable pub cut : ℕ → Bytes → Option (Bytes × Bytes)
cut c [] = none
cut c (x ∷ xs) =
    let later = cut c xs in
    if x == c then some ([], xs) else elim later [ none ↦ none | some (a, b) ↦ some (x ∷ a, b) ]

-- The byte does not occur.
abbrev pub Free : ℕ → Bytes → Type 0
Free c = All (λ x. x ≢ c)

unfoldable pub cons_first : ℕ → List Bytes → List Bytes
cons_first c [] = (c ∷ []) ∷ []
cons_first c (p ∷ ps) = (c ∷ p) ∷ ps

-- strings.Split at a byte: n separators make n + 1 parts.
unfoldable pub split : ℕ → Bytes → List Bytes
unfolding cons_first
split c [] = [] ∷ []
split c (x ∷ xs) = let rest = split c xs in if x == c then [] ∷ rest else cons_first x rest

pub cut-append : (c : ℕ) (a b : Bytes) → Free c a → cut c (a ++ c ∷ b) ≡ some (a, b)
unfolding cut
cut-append c [] b h = ground arith
cut-append c (x ∷ a) b h = ground (arith, cut-append c a b)

pub cut-shorter : (c : ℕ) (s a b : Bytes) → cut c s ≡ some (a, b) → length b < length s
unfolding cut
cut-shorter c [] a b e = cc
cut-shorter c (x ∷ xs) a b e = elim (Option-cases (cut c xs)) [
  | inl missing ↦ ground (arith, missing)
  | inr ((a', b'), found) ↦ ground (arith, found, cut-shorter c xs a' b' found)
]

pub cut-Free : (c : ℕ) (s : Bytes) → Free c s → cut c s ≡ none
unfolding cut
cut-Free c [] h = refl
cut-Free c (x ∷ s) h = ground (arith, cut-Free c s)
