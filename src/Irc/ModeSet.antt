-- ===== src/Irc/ModeSet.antt =====
-- irc/server/mode/set.go. Each method holds the lock throughout, so a call is one step. A mode set
-- is a value here: Clone and List copy, so no caller holds a part of it.
pub mod Laws
pub mod Unique
use go_protocols.Common.{
  ℕ, Bool, true, false, not, ◌&&◌, ◌||◌, List, [], ◌∷◌, ◌++◌, Option, none, some, ◌==◌,
  if◌then◌else◌, Bytes, equal,
}
use go_protocols.Common.Maps.{lookup, insert, delete, nat_key}
use go_protocols.Irc.ModeString.{ModeChange, among}

pub record ModeSet : Type 0 where
  pub flags : List (ℕ × Bool)
  pub args : List (ℕ × Bytes)
  pub lists : List (ℕ × List Bytes)

-- ModeType
pub data ModeType : Type 0 where
  type_flag type_arg_always type_arg_set type_arg_unset type_list type_unknown : ModeType

-- ModeValidator: `none` is an error of ValidateArg.
pub record ModeValidator : Type 0 where
  pub type : ℕ → ModeType
  pub validate_arg : ℕ → Bool → Bytes → Option Bytes

-- New
abbrev pub new : ModeSet
new = record { flags = []; args = []; lists = [] }

or_false : Option Bool → Bool
or_false none = false
or_false (some b) = b

-- Has
unfoldable pub has : ModeSet → ℕ → Bool
unfolding or_false
has s m = or_false (lookup m s.flags)

-- Arg
unfoldable pub arg_of : ModeSet → ℕ → Option Bytes
arg_of s m = lookup m s.args

or_nil : Option (List Bytes) → List Bytes
or_nil none = []
or_nil (some l) = l

-- List
unfoldable pub list_of : ModeSet → ℕ → List Bytes
unfolding or_nil
list_of s m = or_nil (lookup m s.lists)

-- The loop that looks for an entry.
unfoldable pub found : Bytes → List Bytes → Bool
found a [] = false
found a (e ∷ es) = equal e a || found a es

-- append(list[:i], list[i+1:]...) for the first i with list[i] == a.
unfoldable pub remove_first : Bytes → List Bytes → List Bytes
remove_first a [] = []
remove_first a (e ∷ es) = if equal e a then es else e ∷ remove_first a es

-- case TypeFlag. The second part is what is appended to `applied`.
unfoldable pub apply_flag : ModeChange → ModeSet → ModeSet × List ModeChange
apply_flag mc s =
    if mc.add
    then if has s mc.mode
      then (s, [])
      else (record s { flags = insert mc.mode true s.flags }, mc ∷ [])
    else if has s mc.mode
    then (record s { flags = delete mc.mode s.flags }, mc ∷ [])
    else (s, [])

set_arg : Option Bytes → ModeChange → ModeSet → ModeSet × List ModeChange
set_arg none mc s = (s, [])
set_arg (some canonical) mc s =
    (record s { args = insert mc.mode canonical s.args }, record mc { arg = canonical } ∷ [])

unset_arg : Option Bytes → ModeChange → ModeSet → ModeSet × List ModeChange
unset_arg none mc s = (s, [])
unset_arg (some _) mc s = (record s { args = delete mc.mode s.args }, mc ∷ [])

-- case TypeArgAlways, TypeArgSet
unfoldable pub apply_arg : ModeValidator → ModeChange → ModeSet → ModeSet × List ModeChange
unfolding set_arg unset_arg
apply_arg v mc s =
    if mc.add
    then set_arg (v.validate_arg mc.mode true mc.arg) mc s
    else unset_arg (arg_of s mc.mode) mc s

add_entry : Option Bytes → ModeChange → ModeSet → ModeSet × List ModeChange
add_entry none mc s = (s, [])
add_entry (some canonical) mc s = if found canonical (list_of s mc.mode) then (s, []) else (
  record s { lists = insert mc.mode (list_of s mc.mode ++ canonical ∷ []) s.lists },
  record mc { arg = canonical } ∷ [],
)

-- case TypeList
unfoldable pub apply_list : ModeValidator → ModeChange → ModeSet → ModeSet × List ModeChange
unfolding add_entry
apply_list v mc s =
    if mc.add
    then add_entry (v.validate_arg mc.mode true mc.arg) mc s
    else if found mc.arg (list_of s mc.mode)
    then (
      record s { lists = insert mc.mode (remove_first mc.arg (list_of s mc.mode)) s.lists },
      mc ∷ [],
    )
    else (s, [])

-- The switch of Apply on v.Type(mc.Mode).
unfoldable pub apply_typed :
    ModeType → ModeValidator → ModeChange → ModeSet → ModeSet × List ModeChange
apply_typed type_flag v mc s = apply_flag mc s
apply_typed type_arg_always v mc s = apply_arg v mc s
apply_typed type_arg_set v mc s = apply_arg v mc s
apply_typed type_list v mc s = apply_list v mc s
apply_typed type_arg_unset v mc s = (s, [])
apply_typed type_unknown v mc s = (s, [])

-- Apply
unfoldable pub apply : ModeValidator → List ModeChange → ModeSet → ModeSet × List ModeChange
unfolding apply_typed
apply v [] s = (s, [])
apply v (mc ∷ changes) s =
    let (s', one) = apply_typed (v.type mc.mode) v mc s in
    let (s'', applied) = apply v changes s' in (s'', one ++ applied)

-- ChannelValidator.Type
unfoldable pub channel_type : ℕ → ModeType
unfolding among
channel_type m =
    if among m (
      b'i' ∷ b'm' ∷ b'n' ∷ b's' ∷ b'p' ∷ b't' ∷ b'r' ∷ b'z' ∷ b'c' ∷ b'C' ∷ b'S' ∷ b'G' ∷ b'N'
      ∷ b'u' ∷ b'f' ∷ b'j' ∷ b'Q' ∷ b'K' ∷ b'L' ∷ b'P' ∷ b'O' ∷ b'A' ∷ b'R' ∷ b'T' ∷ [])
    then type_flag
    else if among m (b'k' ∷ b'l' ∷ [])
    then type_arg_set
    else if among m (b'o' ∷ b'h' ∷ b'v' ∷ b'a' ∷ b'q' ∷ [])
    then type_arg_always
    else if among m (b'b' ∷ b'e' ∷ b'I' ∷ [])
    then type_list
    else type_unknown

-- ChannelValidator
abbrev pub channel_validator : ModeValidator
channel_validator = record { type = channel_type; validate_arg = λ m add arg. some arg }

-- UserValidator.Type
unfoldable pub user_type : ℕ → ModeType
unfolding among
user_type m =
    if among m (b'i' ∷ b'o' ∷ b'w' ∷ b'r' ∷ b'x' ∷ b'z' ∷ b'W' ∷ b'g' ∷ b'B' ∷ [])
    then type_flag
    else type_unknown

-- UserValidator
abbrev pub user_validator : ModeValidator
user_validator = record { type = user_type; validate_arg = λ m add arg. some arg }
