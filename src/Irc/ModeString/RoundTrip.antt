-- ===== src/Irc/ModeString/RoundTrip.antt =====
-- FormatModeChanges and ParseModeString together.
use go_protocols.Common.{
  ℕ, Bool, true, false, ◌≡◌, ◌≢◌, ◌∙◌, refl, ap, List, [], ◌∷◌, ◌==◌, if◌then◌else◌, Bytes, arith,
  All, Bool-cases, inl, inr,
}
use go_protocols.Irc.ModeString.{
  ModeChange, mode_needs_arg, next_arg, parse_loop, parse_mode_string, sign, same_direction,
  has_arg, format_loop, format_runes, format_mode_changes,
}
use go_protocols.Common.Utf8.{is_rune, AreRunes, runes, write_runes}
use go_protocols.Common.Utf8.RoundTrip.{runes-write_runes}

same_direction→eq : (a b : Bool) → same_direction a b ≡ true → a ≡ b
same_direction→eq true true h = refl
same_direction→eq true false h = cc
same_direction→eq false true h = cc
same_direction→eq false false h = refl

-- The mode is a rune that UTF-8 can carry and no sign, and there is an argument exactly where the
-- mode takes one.
pub record IsPlain (mc : ModeChange) : Type 0 where
  pub valid : is_rune mc.mode ≡ true
  pub not_plus : mc.mode ≢ b'+'
  pub not_minus : mc.mode ≢ b'-'
  pub fits : mode_needs_arg mc.mode mc.add ≡ has_arg mc.arg

parse_sign :
    (a b : Bool) (modes : List ℕ) (args : List Bytes)
    → parse_loop a (sign b ∷ modes) args ≡ parse_loop b modes args
unfolding parse_loop
parse_sign a true modes args = refl
parse_sign a false modes args = refl

next_arg-written :
    (arg : Bytes) (args : List Bytes)
    → next_arg (has_arg arg) (if has_arg arg then arg ∷ args else args) ≡ (arg, args)
next_arg-written [] args = refl
next_arg-written (c ∷ arg) args = refl

-- One letter with its argument, once its direction has been written.
parse_letter :
    (mc : ModeChange) (modes : List ℕ) (args : List Bytes)
    → IsPlain mc
    → parse_loop mc.add (mc.mode ∷ modes) (if has_arg mc.arg then mc.arg ∷ args else args)
      ≡ mc ∷ parse_loop mc.add modes args
unfolding parse_loop
parse_letter mc modes args p =
    let plus : (mc.mode == b'+') ≡ false = ground arith in
    let minus : (mc.mode == b'-') ≡ false = ground arith in
    rw (plus, minus, p.fits, next_arg-written mc.arg args)

parse_written :
    (mc : ModeChange) (add : Bool) (modes : List ℕ) (args : List Bytes)
    → IsPlain mc
    → parse_loop add
        (if same_direction mc.add add then mc.mode ∷ modes else sign mc.add ∷ mc.mode ∷ modes)
        (if has_arg mc.arg then mc.arg ∷ args else args)
      ≡ mc ∷ parse_loop mc.add modes args
parse_written mc add modes args p = elim (Bool-cases (same_direction mc.add add)) [
  | inl e ↦ rw e (rw (← same_direction→eq mc.add add e) (parse_letter mc modes args p))
  | inr e ↦ rw e (parse_sign add mc.add (mc.mode ∷ modes) _ ∙ parse_letter mc modes args p)
]

parse_loop-format_loop :
    (add : Bool) (cs : List ModeChange)
    → All IsPlain cs
    → parse_loop add (format_loop add cs).0 (format_loop add cs).1 ≡ cs
unfolding format_loop parse_loop
parse_loop-format_loop add [] h = refl
parse_loop-format_loop add (mc ∷ cs) h =
    parse_written mc add (format_loop mc.add cs).0 (format_loop mc.add cs).1 h.0
    ∙ ap (◌∷◌ mc) (parse_loop-format_loop mc.add cs h.1)

sign-is_rune : (add : Bool) → is_rune (sign add) ≡ true
unfolding is_rune
sign-is_rune true = refl
sign-is_rune false = refl

-- Everything that is written is a rune.
format_loop-AreRunes :
    (add : Bool) (cs : List ModeChange) → All IsPlain cs → AreRunes (format_loop add cs).0
unfolding format_loop
format_loop-AreRunes add [] h = tt
format_loop-AreRunes add (mc ∷ cs) h =
    let rest = format_loop-AreRunes mc.add cs h.1 in
    let letter = h.0.valid in
    elim (Bool-cases (same_direction mc.add add)) [
      | inl e ↦ rw e (letter, rest)
      | inr e ↦ rw e (sign-is_rune mc.add, (letter, rest))
    ]

-- ParseModeString reads back the changes that FormatModeChanges wrote, when each mode is a rune
-- that UTF-8 can carry and no sign, and has an argument exactly where it takes one.
pub parse_mode_string-format :
    (cs : List ModeChange)
    → All IsPlain cs
    → parse_mode_string (format_mode_changes cs).0 (format_mode_changes cs).1 ≡ cs
unfolding parse_mode_string format_mode_changes format_runes
parse_mode_string-format [] h = unfold write_runes runes in refl
parse_mode_string-format (mc ∷ cs) h =
    let modes : List ℕ = (format_loop mc.add (mc ∷ cs)).0 in
    let written =
      runes-write_runes (sign mc.add ∷ modes)
        (sign-is_rune mc.add, format_loop-AreRunes mc.add (mc ∷ cs) h) in
    rw written (
      parse_sign true mc.add modes (format_loop mc.add (mc ∷ cs)).1
      ∙ parse_loop-format_loop mc.add (mc ∷ cs) h)
