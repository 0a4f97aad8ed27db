-- ===== src/Irc/Server/Join.antt =====
-- handleJoin and sendNames of irc/server/handlers.go. What fmt.Sscan reads from the argument of +l is a
-- parameter; a negative number counts as 0, for the code tests only whether it is positive.
pub mod Chunks
pub mod Entering
use go_protocols.Common.{
  ℕ, ◌+◌, ◌&&◌, ◌||◌, Bool, true, false, not, List, [], ◌∷◌, ◌++◌, Option, none, some, ltb, leb,
  if◌then◌else◌, Bytes, length, take, equal,
}
use go_protocols.Common.Text.{codes, split}
use go_protocols.Common.Maps.{bytes_key}
use go_protocols.Irc.ModeSet.{has, arg_of}
use go_protocols.Irc.Server.Names.{is_valid_channel_name}
use go_protocols.Irc.Server.State.{
  Session, Membership, Channel, Server, Config, at, mask, prefix_of, plain, send, send_numeric,
  cap_enabled, get_or_create, set_channel, add_member, no_members, has_member, star_if_empty,
}
use go_protocols.Irc.Server.Register.{chunks, join}
use go_protocols.Irc.Server.Channels.{tell_topic}

-- The prefix of a member that NAMES shows.
unfoldable pub shown_prefix : Bool → Bytes → Bytes
shown_prefix multi_prefix prefix =
    if not multi_prefix && ltb 1 (length prefix) then take 1 prefix else prefix

-- A member in the reply to NAMES: the nick as in NamesReply, or the whole mask.
unfoldable pub shown_name : Bool → Bool → Server → Membership → Bytes
unfolding shown_prefix
shown_name multi_prefix with_host srv m =
    let s = at m.session srv in
    shown_prefix multi_prefix m.prefix ++ (if with_host then mask s else s.nick)

unfoldable pub shown_names : Bool → Bool → Server → List (Bytes × Membership) → List Bytes
shown_names multi_prefix with_host srv [] = []
shown_names multi_prefix with_host srv ((key, m) ∷ ms) =
    shown_name multi_prefix with_host srv m ∷ shown_names multi_prefix with_host srv ms

-- Whether +k asks for another key.
unfoldable pub wrong_key : Bytes → Option Bytes → Bool
wrong_key key none = false
wrong_key key (some k) = not (equal k key)

first_or_nil : List Bytes → Bytes
first_or_nil [] = []
first_or_nil (k ∷ ks) = k

rest_of : List Bytes → List Bytes
rest_of [] = []
rest_of (k ∷ ks) = ks

keys_of : List Bytes → List Bytes
keys_of [] = []
keys_of (p ∷ ps) = split b',' p

module _ (cfg : Config) where
  send_name_lines : ℕ → Bytes → List (List Bytes) → Server → Server
  send_name_lines i name [] srv = srv
  send_name_lines i name (l ∷ ls) srv =
      send_name_lines i name ls
        (send_numeric cfg i 353 (codes "=" ∷ name ∷ join (codes " ") l ∷ []) srv)

  -- sendNames
  unfoldable pub send_names : ℕ → Channel → Server → Server
  unfolding send_name_lines shown_names
  send_names i ch srv =
      let s = at i srv in
      let names =
        shown_names (cap_enabled (codes "multi-prefix") s)
          (cap_enabled (codes "userhost-in-names") s) srv ch.members in
      send_numeric cfg i 366 (ch.name ∷ codes "End of /NAMES list" ∷ [])
        (send_name_lines i ch.name (chunks 400 0 [] names) srv)

  -- The loop that tells the members who joined.
  tell_join : ℕ → Bytes → List (Bytes × Membership) → Server → Server
  tell_join i name [] srv = srv
  tell_join i name ((key, m) ∷ ms) srv =
      let s = at i srv in
      let params =
        if cap_enabled (codes "extended-join") (at m.session srv)
        then name ∷ star_if_empty s.account ∷ s.realname ∷ []
        else name ∷ [] in
      tell_join i name ms (send m.session (plain (prefix_of s) (codes "JOIN") params) srv)

  -- The body of the loop behind its checks.
  enter : ℕ → Bytes → Channel → Server → Server
  enter i name ch srv =
      let prefix = if no_members ch.members then codes "@" else [] in
      let joined = add_member i (at i srv).nick prefix ch in
      let told =
        tell_topic cfg i name joined
          (tell_join i name joined.members (set_channel name joined srv)) in
      if cap_enabled (codes "no-implicit-names") (at i srv) then told else send_names i joined told

  module _ (scan : Bytes → ℕ) where
    -- Whether +l allows no more members.
    is_full : Channel → Option Bytes → Bool
    is_full ch none = false
    is_full ch (some limit) = let n = scan limit in ltb 0 n && leb n (length ch.members)

    -- The channel that GetOrCreate returns stands in the table from here on.
    join_in : ℕ → Bytes → Bytes → Channel → Server → Server
    unfolding wrong_key
    join_in i name key ch srv =
        let nick = (at i srv).nick in
        if wrong_key key (arg_of ch.modes b'k')
        then send_numeric cfg i 475 (name ∷ codes "Cannot join channel (+k)" ∷ []) srv
        else if has ch.modes b'i' && not (has_member nick ch)
        then send_numeric cfg i 473 (name ∷ codes "Cannot join channel (+i)" ∷ []) srv
        else if is_full ch (arg_of ch.modes b'l')
        then send_numeric cfg i 471 (name ∷ codes "Cannot join channel (+l)" ∷ []) srv
        else if has_member nick ch
        then srv
        else enter i name ch srv

    join_one : ℕ → Bytes → Bytes → Server → Server
    join_one i name key srv =
        let ch = get_or_create name srv in
        if equal name []
        then srv
        else if not (is_valid_channel_name name)
        then send_numeric cfg i 403 (name ∷ codes "Invalid channel name" ∷ []) srv
        else join_in i name key ch (set_channel name ch srv)

    join_all : ℕ → List Bytes → List Bytes → Server → Server
    unfolding first_or_nil rest_of
    join_all i [] keys srv = srv
    join_all i (name ∷ names) keys srv =
        join_all i names (rest_of keys) (join_one i name (first_or_nil keys) srv)

    -- handleJoin
    unfoldable pub handle_join : ℕ → List Bytes → Server → Server
    unfolding keys_of enter tell_join is_full join_in join_one join_all
    handle_join i [] srv =
        send_numeric cfg i 461 (codes "JOIN" ∷ codes "Not enough parameters" ∷ []) srv
    handle_join i (names ∷ params) srv = join_all i (split b',' names) (keys_of params) srv
