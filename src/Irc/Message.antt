-- ===== src/Irc/Message.antt =====
-- irc/irc/message.go. A message is a value; a nil tag map is an empty one. Letters are folded in
-- ASCII only.
pub mod Escape
pub mod Words
pub mod Source
pub mod TagText
pub mod TagOrder
pub mod RoundTrip
pub mod Total
use go_protocols.Common.{
  ℕ, zero, suc, ◌+◌, ◌-◌, Bool, true, false, not, ◌&&◌, ◌||◌, List, [], ◌∷◌, ◌++◌, Option, none,
  some, ltb, ◌==◌, if◌then◌else◌, Bytes, length, get_or, Result, ok, err, ◌>>=◌,
}
use go_protocols.Common.Text.{cut, split, trim_left, trim_right, to_upper}
use go_protocols.Common.Maps.{lookup, insert, bytes_key}

abbrev pub Tags : Type 0
Tags = List (Bytes × Bytes)

pub record Prefix : Type 0 where
  pub nick : Bytes
  pub user : Bytes
  pub host : Bytes

pub record Message : Type 0 where
  pub tags : Tags
  pub prefix : Option Prefix
  pub command : Bytes
  pub params : List Bytes

pub data Error : Type 0 where
  empty_message no_space_after_tags no_space_after_prefix empty_command missing_command : Error
  -- The model's own: the fuel ran out.
  stuck : Error

abbrev pub is_space : ℕ → Bool
is_space c = c == b' '

abbrev pub is_line_end : ℕ → Bool
is_line_end c = c == 13 || c == 10

abbrev pub is_empty : Bytes → Bool
is_empty [] = true
is_empty (c ∷ cs) = false

unfoldable pub contains : ℕ → Bytes → Bool
contains c [] = false
contains c (x ∷ xs) = x == c || contains c xs

-- IsServer
unfoldable pub is_server : Prefix → Bool
is_server p = is_empty p.user && is_empty p.host

-- Prefix.String
unfoldable pub prefix_string : Prefix → Bytes
unfolding is_server
prefix_string p =
    if is_server p
    then p.nick
    else if not (is_empty p.host)
    then p.nick ++ (b'!' ∷ (p.user ++ (b'@' ∷ p.host)))
    else p.nick

split_host : Option (Bytes × Bytes) → Bytes → Bytes × Bytes
split_host none s = (s, [])
split_host (some (front, host)) s = (front, host)

split_user : Option (Bytes × Bytes) → Bytes → Bytes → Prefix
split_user none s host = record { nick = s; user = []; host = host }
split_user (some (nick, user)) s host = record { nick = nick; user = user; host = host }

-- parsePrefix
unfoldable pub parse_prefix : Bytes → Prefix
unfolding split_host split_user
parse_prefix s =
    let (front, host) = split_host (cut b'@' s) s in split_user (cut b'!' front) front host

-- tagEscaper
unfoldable pub escape_byte : ℕ → Bytes
escape_byte c =
    if c == b';'
    then b'\\' ∷ b':' ∷ []
    else if c == b' '
    then b'\\' ∷ b's' ∷ []
    else if c == b'\\'
    then b'\\' ∷ b'\\' ∷ []
    else if c == 13
    then b'\\' ∷ b'r' ∷ []
    else if c == 10
    then b'\\' ∷ b'n' ∷ []
    else c ∷ []

-- escapeTagValue
unfoldable pub escape_tag_value : Bytes → Bytes
unfolding escape_byte
escape_tag_value [] = []
escape_tag_value (c ∷ cs) = escape_byte c ++ escape_tag_value cs

unfoldable pub unescape_byte : ℕ → ℕ
unescape_byte c =
    if c == b':'
    then b';'
    else if c == b's'
    then b' '
    else if c == b'r'
    then 13
    else if c == b'n'
    then 10
    else c

-- unescapeTagValue; the flag is set behind a backslash.
unfoldable pub unescape_loop : Bool → Bytes → Bytes
unfolding unescape_byte
unescape_loop escaped [] = []
unescape_loop true (c ∷ cs) = unescape_byte c ∷ unescape_loop false cs
unescape_loop false (c ∷ cs) =
    let later = unescape_loop true cs in
    let plain = unescape_loop false cs in if not (c == b'\\') then c ∷ plain else later

unfoldable pub unescape_tag_value : Bytes → Bytes
unfolding unescape_loop
unescape_tag_value s = unescape_loop false s

tag_entry : Option (Bytes × Bytes) → Bytes → Bytes × Bytes
unfolding unescape_tag_value
tag_entry none part = (part, [])
tag_entry (some (k, v)) part = (k, unescape_tag_value v)

-- One part of the loop in parseTags.
unfoldable pub add_tag : Bytes → Tags → Tags
unfolding tag_entry
add_tag part tags =
    if is_empty part then tags else (let (k, v) = tag_entry (cut b'=' part) part in insert k v tags)

unfoldable pub add_tags : List Bytes → Tags → Tags
unfolding add_tag
add_tags [] tags = tags
add_tags (part ∷ parts) tags = add_tags parts (add_tag part tags)

-- parseTags
unfoldable pub parse_tags : Bytes → Tags
unfolding add_tags
parse_tags s = add_tags (split b';' s) []

tags_of : Option (Bytes × Bytes) → Result Error (Tags × Bytes)
unfolding parse_tags
tags_of none = err no_space_after_tags
tags_of (some (text, rest)) = ok (parse_tags text, trim_left is_space rest)

-- The tags of a line that is not empty, and what follows.
unfoldable pub take_tags : Bytes → Result Error (Tags × Bytes)
unfolding tags_of
take_tags [] = ok ([], [])
take_tags (c ∷ cs) = if c == b'@' then tags_of (cut b' ' cs) else ok ([], c ∷ cs)

prefix_of : Option (Bytes × Bytes) → Result Error (Option Prefix × Bytes)
unfolding parse_prefix
prefix_of none = err no_space_after_prefix
prefix_of (some (text, rest)) = ok (some (parse_prefix text), trim_left is_space rest)

unfoldable pub take_prefix : Bytes → Result Error (Option Prefix × Bytes)
unfolding prefix_of
take_prefix [] = ok (none, [])
take_prefix (c ∷ cs) = if c == b':' then prefix_of (cut b' ' cs) else ok (none, c ∷ cs)

cons_word : Bytes → Option (List Bytes) → Option (List Bytes)
cons_word w none = none
cons_word w (some ws) = some (w ∷ ws)

-- for raw != "": each round takes a byte at least, so the length of the text is enough fuel.
unfoldable pub params_loop : ℕ → Bytes → Option (List Bytes)
unfolding cons_word
params_loop f [] = some []
params_loop zero (c ∷ cs) = none
params_loop (suc f) (c ∷ cs) =
    let words : Option (List Bytes) = elim (cut b' ' (c ∷ cs)) [
      | none ↦ some ((c ∷ cs) ∷ [])
      | some (w, rest) ↦ cons_word w (params_loop f (trim_left is_space rest))
    ] in
    if c == b':' then some (cs ∷ []) else words

message_of : Tags → Option Prefix → Option (List Bytes) → Result Error Message
message_of tags prefix none = err stuck
message_of tags prefix (some []) = err missing_command
message_of tags prefix (some (c ∷ params)) =
    ok (record { tags = tags; prefix = prefix; command = to_upper c; params = params })

parse_body : Tags → Option Prefix → Bytes → Result Error Message
unfolding message_of params_loop
parse_body tags prefix raw =
    if is_empty raw
    then err empty_command
    else message_of tags prefix (params_loop (length raw) raw)

parse_line : Bytes → Result Error Message
unfolding parse_body take_tags take_prefix
parse_line raw = if is_empty raw then err empty_message else do
  (tags, rest) ← take_tags raw
  (prefix, body) ← take_prefix rest
  parse_body tags prefix body

-- Parse
unfoldable pub parse : Bytes → Result Error Message
unfolding parse_line
parse raw = parse_line (trim_right is_line_end raw)

-- strings.HasPrefix(k, "+")
unfoldable pub client_only : Bytes → Bool
client_only [] = false
client_only (c ∷ cs) = c == b'+'

-- The tags of one pass over the map, in its order.
unfoldable pub pass : Bool → Tags → Tags
unfolding client_only
pass client [] = []
pass client ((k, v) ∷ tags) =
    let rest = pass client tags in
    if client_only k
    then (if client then (k, v) ∷ rest else rest)
    else if client
    then rest
    else (k, v) ∷ rest

unfoldable pub tag_text : Bytes × Bytes → Bytes
unfolding escape_tag_value
tag_text (k, v) = if is_empty v then k else k ++ (b'=' ∷ escape_tag_value v)

unfoldable pub tags_text : Tags → Bytes
unfolding tag_text
tags_text [] = []
tags_text (t ∷ []) = tag_text t
tags_text (t ∷ u ∷ tags) = tag_text t ++ (b';' ∷ tags_text (u ∷ tags))

unfoldable pub format_tags : Tags → Bytes → Bytes
unfolding tags_text pass
format_tags [] rest = rest
format_tags (t ∷ tags) rest =
    b'@' ∷ (tags_text (pass false (t ∷ tags) ++ pass true (t ∷ tags)) ++ (b' ' ∷ rest))

unfoldable pub format_prefix : Option Prefix → Bytes → Bytes
unfolding prefix_string
format_prefix none rest = rest
format_prefix (some p) rest = b':' ∷ (prefix_string p ++ (b' ' ∷ rest))

-- The last parameter takes a colon if it holds a space or a colon or is empty.
unfoldable pub needs_colon : Bytes → Bool
unfolding contains
needs_colon p = contains b' ' p || contains b':' p || is_empty p

unfoldable pub params_text : List Bytes → Bytes
unfolding needs_colon
params_text [] = []
params_text (p ∷ []) = b' ' ∷ (if needs_colon p then b':' ∷ p else p)
params_text (p ∷ q ∷ ps) = b' ' ∷ (p ++ params_text (q ∷ ps))

-- Format
unfoldable pub format : Message → Bytes
unfolding format_tags format_prefix params_text
format m = format_tags m.tags (format_prefix m.prefix (m.command ++ params_text m.params))

space_before : Option (Bytes × Bytes) → Bytes → Bool
space_before none raw = ltb 4094 (length raw - 1)
space_before (some (tags, rest)) raw =
    if ltb 4094 (length tags) then true else ltb 510 (length rest)

-- InputTooLong, on the line without its end; raw[:space] is '@' and the tags.
too_long : Bytes → Bool
unfolding space_before
too_long [] = false
too_long (c ∷ cs) =
    if c == b'@' then space_before (cut b' ' cs) (c ∷ cs) else ltb 510 (length (c ∷ cs))

unfoldable pub input_too_long : Bytes → Bool
unfolding too_long
input_too_long raw = too_long (trim_right is_line_end raw)

-- Param, at an index that is not negative.
unfoldable pub param : Message → ℕ → Bytes
param m i = if ltb i (length m.params) then get_or m.params i [] else []

-- Trailing
unfoldable pub trailing : Message → Bytes
trailing m = if length m.params == 0 then [] else get_or m.params (length m.params - 1) []
