-- ===== src/Irc/ModeString.antt =====
-- irc/irc/mode.go. A mode is a rune; that of a ModeChange may be any number that is not negative.
pub mod RoundTrip
use go_protocols.Common.{
  ℕ, Bool, true, false, not, ◌&&◌, ◌||◌, List, [], ◌∷◌, ◌++◌, ◌==◌, if◌then◌else◌, Bytes,
}
use go_protocols.Common.Utf8.{runes, write_runes}

pub record ModeChange : Type 0 where
  pub add : Bool
  pub mode : ℕ
  pub arg : Bytes

-- The rune is one of the list, as in a case of a switch.
unfoldable pub among : ℕ → List ℕ → Bool
among m [] = false
among m (c ∷ cs) = m == c || among m cs

-- modeNeedsArg
unfoldable pub mode_needs_arg : ℕ → Bool → Bool
unfolding among
mode_needs_arg m add =
    if among m (b'o' ∷ b'O' ∷ b'h' ∷ b'v' ∷ b'b' ∷ b'e' ∷ b'I' ∷ b'q' ∷ b'a' ∷ b'k' ∷ [])
    then true
    else if m == b'l'
    then add
    else false

-- The argument of a change, and the arguments left: args[argIdx:].
abbrev pub next_arg : Bool → List Bytes → Bytes × List Bytes
next_arg true (a ∷ args) = (a, args)
next_arg _ args = ([], args)

-- The loop over the runes, with the direction and the arguments that are left.
unfoldable pub parse_loop : Bool → List ℕ → List Bytes → List ModeChange
parse_loop add [] args = []
parse_loop add (ch ∷ modes) args =
    let plus = parse_loop true modes args in
    let minus = parse_loop false modes args in
    let (a, left) = next_arg (mode_needs_arg ch add) args in
    let change = record { add = add; mode = ch; arg = a } ∷ parse_loop add modes left in
    if ch == b'+' then plus else if ch == b'-' then minus else change

-- ParseModeString
unfoldable pub parse_mode_string : Bytes → List Bytes → List ModeChange
unfolding parse_loop mode_needs_arg
parse_mode_string modes args = parse_loop true (runes modes) args

-- The sign that is written for a direction.
abbrev pub sign : Bool → ℕ
sign add = if add then b'+' else b'-'

abbrev pub same_direction : Bool → Bool → Bool
same_direction true b = b
same_direction false b = not b

abbrev pub has_arg : Bytes → Bool
has_arg [] = false
has_arg (c ∷ cs) = true

-- The loop over the changes, with the direction that was written last.
unfoldable pub format_loop : Bool → List ModeChange → List ℕ × List Bytes
format_loop add [] = ([], [])
format_loop add (mc ∷ changes) =
    let (modes, args) = format_loop mc.add changes in
    (
      (if same_direction mc.add add then mc.mode ∷ modes else sign mc.add ∷ mc.mode ∷ modes),
      if has_arg mc.arg then mc.arg ∷ args else args,
    )

-- The runes that are written, and the arguments.
unfoldable pub format_runes : List ModeChange → List ℕ × List Bytes
unfolding format_loop
format_runes [] = ([], [])
format_runes (mc ∷ changes) =
    let (modes, args) = format_loop mc.add (mc ∷ changes) in (sign mc.add ∷ modes, args)

-- FormatModeChanges
unfoldable pub format_mode_changes : List ModeChange → Bytes × List Bytes
unfolding format_runes
format_mode_changes changes = let (modes, args) = format_runes changes in (write_runes modes, args)
