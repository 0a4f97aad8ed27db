-- ===== src/Common/Decimal.antt =====
-- What the program uses of Go's strconv and of fmt's %d: decimal numbers as bytes.
use go_protocols.Common.Tests.{ltb, leb, ◌==◌, if◌then◌else◌, Bool-cases}
use mathlib.Core.Logic.{◌≢◌, inl, inr}
use go_protocols.Common.Lists.{Bytes, All, All-append}
use Prim.Native.Nat.{ℕ, zero, suc, ◌+◌, ◌-◌, ◌*◌, ◌/◌, ◌%◌, ◌^◌, ◌<◌}
use mathlib.Core.Path.{◌≡◌, refl, ap, ◌∙◌}
use mathlib.Core.Bool.{Bool, true, ◌&&◌}
use mathlib.Core.List.{[], ◌∷◌, ◌++◌}
use mathlib.Core.Option.{Option, none, some}
use native.Mathlib.Omega.{arith}

-- Signed numbers: `negsuc n` is -(n + 1).
pub data ℤ : Type 0 where
  pos : ℕ → ℤ
  negsuc : ℕ → ℤ

-- The two's complement of a number of 64 bits, and back.
unfoldable pub to_word : ℤ → ℕ
to_word (pos n) = n % 2 ^ 64
to_word (negsuc n) = 2 ^ 64 - 1 - n % 2 ^ 64

unfoldable pub of_word : ℕ → ℤ
of_word w = if ltb w (2 ^ 63) then pos w else negsuc (2 ^ 64 - 1 - w)

-- A byte '0' to '9'.
abbrev pub is_digit : ℕ → Bool
is_digit c = leb b'0' c && leb c b'9'

-- The decimal digits of n, by rounds; n + 1 rounds are more than enough.
decimal_fuel : ℕ → ℕ → Bytes
decimal_fuel zero n = []
decimal_fuel (suc f) n =
    let front = decimal_fuel f (n / 10) in
    if ltb n 10 then (48 + n) ∷ [] else front ++ (48 + n % 10) ∷ []

unfoldable pub decimal : ℕ → Bytes
unfolding decimal_fuel
decimal n = decimal_fuel (n + 1) n

-- The number that a run of digits spells, on top of what has been read.
unfoldable pub digits_value : ℕ → Bytes → Option ℕ
digits_value acc [] = some acc
digits_value acc (c ∷ cs) =
    let rest = digits_value (acc * 10 + (c - 48)) cs in if is_digit c then rest else none

digits_value-concat :
    (acc v d : ℕ) (cs : Bytes)
    → d < 10
    → digits_value acc cs ≡ some v
    → digits_value acc (cs ++ (48 + d) ∷ []) ≡ some (v * 10 + d)
unfolding digits_value
digits_value-concat acc v d [] h e = ground arith
digits_value-concat acc v d (c ∷ cs) h e =
    ground (arith, digits_value-concat (acc * 10 + (c - 48)) v d cs h)

digits_value-decimal_fuel : (f n : ℕ) → n < f → digits_value 0 (decimal_fuel f n) ≡ some n
unfolding decimal_fuel
digits_value-decimal_fuel zero n h = absurd (omega arith)
digits_value-decimal_fuel (suc f) n h = elim (Bool-cases (ltb n 10)) [
  | inl small ↦ rw small (unfold digits_value in ground arith)
  | inr big ↦ rw big (
      ground (
        arith,
        digits_value-concat 0 (n / 10) (n % 10) (decimal_fuel f (n / 10)),
        digits_value-decimal_fuel f (n / 10),
      ))
]

pub digits_value-decimal : (n : ℕ) → digits_value 0 (decimal n) ≡ some n
unfolding decimal
digits_value-decimal n = digits_value-decimal_fuel (n + 1) n (omega arith)

decimal_fuel-digits : (f n : ℕ) → n < f → All (λ c. is_digit c ≡ true) (decimal_fuel f n)
unfolding decimal_fuel
decimal_fuel-digits zero n h = absurd (omega arith)
decimal_fuel-digits (suc f) n h = elim (Bool-cases (ltb n 10)) [
  | inl small ↦ rw small (ground arith, tt)
  | inr big ↦ rw big (
      All-append (λ c. is_digit c ≡ true) (decimal_fuel f (n / 10)) ((48 + n % 10) ∷ [])
        (decimal_fuel-digits f (n / 10) (ground arith)) (ground arith, tt))
]

pub decimal-digits : (n : ℕ) → All (λ c. is_digit c ≡ true) (decimal n)
unfolding decimal
decimal-digits n = decimal_fuel-digits (n + 1) n (omega arith)

snoc-ne-nil : (xs : Bytes) (x : ℕ) → xs ++ x ∷ [] ≢ []
snoc-ne-nil [] x = λ e. cc
snoc-ne-nil (y ∷ ys) x = λ e. cc

decimal_fuel-ne-nil : (f n : ℕ) → n < f → decimal_fuel f n ≢ []
unfolding decimal_fuel
decimal_fuel-ne-nil zero n h = absurd (omega arith)
decimal_fuel-ne-nil (suc f) n h = elim (Bool-cases (ltb n 10)) [
  | inl small ↦ rw small (λ e. cc)
  | inr big ↦ rw big (snoc-ne-nil (decimal_fuel f (n / 10)) (48 + n % 10))
]

-- A number is printed as a first digit and more digits.
pub decimal-cons : (n : ℕ) → (c : ℕ) × (cs : Bytes) × (decimal n ≡ c ∷ cs) × (is_digit c ≡ true)
unfolding decimal
decimal-cons n =
    head_digit (decimal n) (decimal_fuel-ne-nil (n + 1) n (omega arith)) (decimal-digits n)
  where
    head_digit :
        (ds : Bytes)
        → ds ≢ []
        → All (λ c. is_digit c ≡ true) ds
        → (c : ℕ) × (cs : Bytes) × (ds ≡ c ∷ cs) × (is_digit c ≡ true)
    head_digit [] h a = absurd (h refl)
    head_digit (c ∷ cs) h a = (c, cs, refl, a.0)

-- %d of a signed number.
unfoldable pub format_int : ℤ → Bytes
format_int (pos n) = decimal n
format_int (negsuc n) = b'-' ∷ decimal (n + 1)

magnitude : Bytes → Option ℕ
unfolding digits_value
magnitude [] = none
magnitude (c ∷ cs) = digits_value 0 (c ∷ cs)

positive : Option ℕ → Option ℤ
positive none = none
positive (some n) = if ltb n (2 ^ 63) then some (pos n) else none

negative : Option ℕ → Option ℤ
negative none = none
negative (some zero) = some (pos 0)
negative (some (suc n)) = if ltb n (2 ^ 63) then some (negsuc n) else none

-- strconv.ParseInt(s, 10, 64), and strconv.Atoi where int has 64 bits: an optional sign, then at
-- least one digit, and the value in range.
unfoldable pub parse_int : Bytes → Option ℤ
unfolding magnitude positive negative
parse_int [] = none
parse_int (c ∷ cs) =
    if c == b'-'
    then negative (magnitude cs)
    else if c == b'+'
    then positive (magnitude cs)
    else positive (magnitude (c ∷ cs))

-- In the range of an int64.
abbrev pub IsInt64 : ℤ → Type 0
IsInt64 (pos n) = n < 2 ^ 63
IsInt64 (negsuc n) = n < 2 ^ 63

magnitude-decimal : (n : ℕ) → magnitude (decimal n) ≡ some n
magnitude-decimal n =
    let (c, cs, e, d) = decimal-cons n in
    rw e (unfold magnitude in (rw e at (digits_value-decimal n)))

parse_int-digit :
    (c : ℕ) (cs : Bytes) → is_digit c ≡ true → parse_int (c ∷ cs) ≡ positive (magnitude (c ∷ cs))
unfolding parse_int
parse_int-digit c cs h = ground arith

parse_int-decimal : (n : ℕ) → parse_int (decimal n) ≡ positive (some n)
parse_int-decimal n =
    let (c, cs, e, d) = decimal-cons n in
    let m : magnitude (c ∷ cs) ≡ some n = rw e at (magnitude-decimal n) in
    rw e (parse_int-digit c cs d ∙ ap positive m)

-- A printed int64 is read back.
pub parse_int-format_int : (v : ℤ) → IsInt64 v → parse_int (format_int v) ≡ some v
unfolding format_int
parse_int-format_int (pos n) h = parse_int-decimal n ∙ unfold positive in ground arith
parse_int-format_int (negsuc n) h =
    unfold parse_int in rw (magnitude-decimal (n + 1)) (ground arith)

pub parse_int-decimal_lt : (n : ℕ) → n < 2 ^ 63 → parse_int (decimal n) ≡ some (pos n)
parse_int-decimal_lt n h = parse_int-decimal n ∙ unfold positive in ground arith
