-- ===== src/Irc/Server/Names.antt =====
-- The helpers at the end of irc/server/handlers.go: names, and masks with the wildcards * and ?. A
-- text is the list of its bytes. The tests of a name accept no byte from 128 on, and no rune whose
-- bytes they are, so they go through the bytes. Letters are folded in ASCII only.
pub mod Masks
use go_protocols.Common.{
  ℕ, zero, suc, ◌-◌, Bool, true, false, not, ◌&&◌, ◌||◌, List, [], ◌∷◌, ltb, leb, ◌==◌,
  if◌then◌else◌, Bytes, length, take,
}
use go_protocols.Common.Text.{to_lower}
use go_protocols.Common.Utf8.{decode_rune}
use go_protocols.Irc.ModeString.{among}

-- isLetter
abbrev pub is_letter : ℕ → Bool
is_letter ch = leb b'a' ch && leb ch b'z' || leb b'A' ch && leb ch b'Z'

-- isDigit
abbrev pub is_digit : ℕ → Bool
is_digit ch = leb b'0' ch && leb ch b'9'

unfoldable pub is_special : ℕ → Bool
unfolding among
is_special ch = among ch (b'_' ∷ 92 ∷ b'[' ∷ b']' ∷ b'{' ∷ b'}' ∷ b'|' ∷ b'^' ∷ b'`' ∷ [])

-- The loop of isValidNick behind the first rune.
unfoldable pub all_nick : Bytes → Bool
unfolding is_special
all_nick [] = true
all_nick (ch ∷ cs) =
    let rest = all_nick cs in
    if not (is_letter ch) && not (is_digit ch) && not (ch == b'-') && not (is_special ch)
    then false
    else rest

starts_nick : Bytes → Bool
starts_nick [] = true
starts_nick (ch ∷ cs) = if not (is_letter ch) && not (is_special ch) then false else all_nick cs

-- isValidNick
unfoldable pub is_valid_nick : Bytes → Bool
unfolding starts_nick is_special all_nick
is_valid_nick nick = if length nick == 0 || ltb 30 (length nick) then false else starts_nick nick

-- strings.ContainsAny
unfoldable pub contains_any : Bytes → Bytes → Bool
unfolding among
contains_any [] chars = false
contains_any (c ∷ cs) chars = among c chars || contains_any cs chars

first_is : Bytes → Bytes → Bool
unfolding among
first_is [] chars = false
first_is (c ∷ cs) chars = among c chars

-- strings.HasPrefix(target, "#") || strings.HasPrefix(target, "&")
unfoldable pub is_channel : Bytes → Bool
unfolding first_is
is_channel target = first_is target (b'#' ∷ b'&' ∷ [])

-- isValidChannelName
unfoldable pub is_valid_channel_name : Bytes → Bool
unfolding is_channel contains_any
is_valid_channel_name name =
    if ltb (length name) 2 || ltb 64 (length name)
    then false
    else if not (is_channel name)
    then false
    else not (contains_any name (b' ' ∷ 7 ∷ b',' ∷ []))

-- strings.TrimPrefix(u, "~")
unfoldable pub trim_tilde : Bytes → Bytes
trim_tilde [] = []
trim_tilde (c ∷ cs) = if c == b'~' then cs else c ∷ cs

-- cleanUsername
unfoldable pub clean_username : Bytes → Bytes
unfolding trim_tilde
clean_username u = let v = trim_tilde u in if ltb 10 (length v) then take 10 v else v

-- The bytes behind the first of the rune that begins a text.
unfoldable pub rune_tail : ℕ → Bytes → ℕ
rune_tail c cs = length cs - length (decode_rune c cs).1

-- The suffixes of a text where a rune begins, behind the bytes that are left of the last one.
unfoldable pub some_start : (Bytes → Bool) → ℕ → Bytes → Bool
unfolding rune_tail
some_start test k [] = false
some_start test (suc k) (c ∷ cs) = some_start test k cs
some_start test zero (c ∷ cs) = test (c ∷ cs) || some_start test (rune_tail c cs) cs

-- The loop over `range s` in the case of a star: some suffix of s that begins with a rune passes the
-- test.
unfoldable pub some_suffix : (Bytes → Bool) → Bytes → Bool
unfolding some_start
some_suffix test s = some_start test 0 s

is_empty : Bytes → Bool
is_empty [] = true
is_empty (c ∷ cs) = false

-- A pattern whose first rune is taken off together with that of the text.
both_first : (Bytes → Bool) → (ℕ → Bool) → Bytes → Bool
both_first rest test [] = false
both_first rest test (c ∷ cs) = test c && rest cs

-- globMatch
unfoldable pub glob_match : Bytes → Bytes → Bool
unfolding some_suffix is_empty both_first
glob_match [] s = is_empty s
glob_match (p ∷ ps) s =
    if p == b'*'
    then is_empty ps || some_suffix (glob_match ps) s
    else if p == b'?'
    then both_first (glob_match ps) (λ c. true) s
    else both_first (glob_match ps) (λ c. p == c) s

-- matchMask
unfoldable pub match_mask : Bytes → Bytes → Bool
unfolding glob_match to_lower
match_mask mask target = glob_match (to_lower mask) (to_lower target)
