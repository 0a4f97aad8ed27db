-- ===== src/Irc/Server/Channels.antt =====
-- The channel commands PART, KICK and TOPIC of irc/server/handlers.go, and removeSession of
-- irc/server/server.go.
pub mod Members
pub mod Leaving
use go_protocols.Common.{
  ℕ, Bool, true, false, not, ◌&&◌, List, [], ◌∷◌, ◌++◌, Option, none, some, if◌then◌else◌, Bytes,
  equal,
}
use go_protocols.Common.Text.{codes, to_lower, split}
use go_protocols.Common.Decimal.{decimal}
use go_protocols.Common.Maps.{bytes_key, lookup, is_none}
use go_protocols.Irc.Message.{Prefix, Message}
use go_protocols.Irc.ModeSet.{has}
use go_protocols.Irc.Server.Names.{contains_any}
use go_protocols.Irc.Server.State.{
  Channel, Membership, Server, Config, at, mask, prefix_of, plain, send_numeric, remove,
  get_channel, set_channel, remove_channel, remove_member, no_members, get_membership, has_member,
  broadcast,
}
use go_protocols.Irc.Server.Register.{send_monitor_list}

-- RemoveMember and, when it says that the channel is empty, the channel's removal.
unfoldable pub drop_member : Bytes → Bytes → Channel → Server → Server
drop_member name nick ch srv =
    let left = remove_member nick ch in
    if no_members left.members then remove_channel name srv else set_channel name left srv

-- strings.ContainsAny(m.Prefix, "@&~")
unfoldable pub is_operator : Membership → Bool
is_operator m = contains_any m.prefix (codes "@&~")

unfoldable pub is_operator_in : Option Membership → Bool
is_operator_in none = false
is_operator_in (some m) = is_operator m

module _ (cfg : Config) where
  -- The body of the loop of handlePart behind its two checks.
  part : ℕ → Bytes → Bytes → Channel → Server → Server
  part i name reason ch srv =
      let s = at i srv in
      let params = if equal reason [] then name ∷ [] else name ∷ reason ∷ [] in
      drop_member name s.nick ch (broadcast (plain (prefix_of s) (codes "PART") params) none ch srv)

  part_found : ℕ → Bytes → Bytes → Option Channel → Server → Server
  part_found i name reason none srv =
      send_numeric cfg i 403 (name ∷ codes "No such channel" ∷ []) srv
  part_found i name reason (some ch) srv =
      if not (has_member (at i srv).nick ch)
      then send_numeric cfg i 442 (name ∷ codes "You're not on that channel" ∷ []) srv
      else part i name reason ch srv

  part_all : ℕ → Bytes → List Bytes → Server → Server
  part_all i reason [] srv = srv
  part_all i reason (name ∷ names) srv =
      part_all i reason names (part_found i name reason (get_channel name srv) srv)

  first_or_nil : List Bytes → Bytes
  first_or_nil [] = []
  first_or_nil (p ∷ ps) = p

  -- handlePart
  unfoldable pub handle_part : ℕ → List Bytes → Server → Server
  unfolding part part_found part_all first_or_nil
  handle_part i [] srv =
      send_numeric cfg i 461 (codes "PART" ∷ codes "Not enough parameters" ∷ []) srv
  handle_part i (names ∷ params) srv = part_all i (first_or_nil params) (split b',' names) srv

  kick : ℕ → Bytes → Bytes → Bytes → Channel → Server → Server
  kick i name target reason ch srv = drop_member name target ch (
      broadcast (plain (prefix_of (at i srv)) (codes "KICK") (name ∷ target ∷ reason ∷ [])) none ch
        srv)

  kick_by : ℕ → Bytes → Bytes → Bytes → Channel → Option Membership → Server → Server
  kick_by i name target reason ch none srv =
      send_numeric cfg i 442 (name ∷ codes "You're not on that channel" ∷ []) srv
  kick_by i name target reason ch (some m) srv =
      if not (is_operator m)
      then send_numeric cfg i 482 (name ∷ codes "You're not channel operator" ∷ []) srv
      else if not (has_member target ch)
      then send_numeric cfg i 441 (target ∷ name ∷ codes "They aren't on that channel" ∷ []) srv
      else kick i name target reason ch srv

  kick_found : ℕ → Bytes → Bytes → Bytes → Option Channel → Server → Server
  kick_found i name target reason none srv =
      send_numeric cfg i 403 (name ∷ codes "No such channel" ∷ []) srv
  kick_found i name target reason (some ch) srv =
      kick_by i name target reason ch (get_membership (at i srv).nick ch) srv

  reason_or : Bytes → List Bytes → Bytes
  reason_or nick [] = nick
  reason_or nick (r ∷ rest) = r

  -- handleKick
  unfoldable pub handle_kick : ℕ → List Bytes → Server → Server
  unfolding kick kick_by kick_found reason_or
  handle_kick i (name ∷ target ∷ params) srv =
      kick_found i name target (reason_or (at i srv).nick params) (get_channel name srv) srv
  handle_kick i params srv =
      send_numeric cfg i 461 (codes "KICK" ∷ codes "Not enough parameters" ∷ []) srv

  -- The answer to a question for the topic.
  unfoldable pub tell_topic : ℕ → Bytes → Channel → Server → Server
  tell_topic i name ch srv =
      if equal ch.topic []
      then send_numeric cfg i 331 (name ∷ codes "No topic is set" ∷ []) srv
      else send_numeric cfg i 333 (name ∷ ch.topic_set_by ∷ decimal ch.topic_set_at ∷ [])
          (send_numeric cfg i 332 (name ∷ ch.topic ∷ []) srv)

  set_topic : ℕ → ℕ → Bytes → Bytes → Channel → Server → Server
  set_topic now i name topic ch srv =
      let changed = record ch {
        topic = topic;
        topic_set_by = mask (at i srv);
        topic_set_at = now;
      } in
      broadcast (plain (prefix_of (at i srv)) (codes "TOPIC") (name ∷ topic ∷ [])) none changed
        (set_channel name changed srv)

  topic_in : ℕ → ℕ → Bytes → List Bytes → Channel → Server → Server
  topic_in now i name [] ch srv = tell_topic i name ch srv
  topic_in now i name (topic ∷ rest) ch srv =
      if has ch.modes b't' && not (is_operator_in (get_membership (at i srv).nick ch))
      then send_numeric cfg i 482 (name ∷ codes "You're not channel operator" ∷ []) srv
      else set_topic now i name topic ch srv

  topic_found : ℕ → ℕ → Bytes → List Bytes → Option Channel → Server → Server
  topic_found now i name params none srv =
      send_numeric cfg i 403 (name ∷ codes "No such channel" ∷ []) srv
  topic_found now i name params (some ch) srv =
      if not (has_member (at i srv).nick ch)
      then send_numeric cfg i 442 (name ∷ codes "You're not on that channel" ∷ []) srv
      else topic_in now i name params ch srv

  -- handleTopic, at a time in seconds
  unfoldable pub handle_topic : ℕ → ℕ → List Bytes → Server → Server
  unfolding is_operator_in set_topic topic_in topic_found
  handle_topic now i [] srv =
      send_numeric cfg i 461 (codes "TOPIC" ∷ codes "Not enough parameters" ∷ []) srv
  handle_topic now i (name ∷ params) srv = topic_found now i name params (get_channel name srv) srv

  -- The loop of removeSession over the channels.
  leave : ℕ → Channel → Server → Server
  leave i ch srv =
      let s = at i srv in
      if not (has_member s.nick ch)
      then srv
      else drop_member ch.name s.nick ch (
          broadcast (plain (prefix_of s) (codes "QUIT") (codes "Connection closed" ∷ [])) (some i)
            ch srv)

  leave_all : ℕ → List (Bytes × Channel) → Server → Server
  unfolding leave
  leave_all i [] srv = srv
  leave_all i ((key, ch) ∷ rest) srv = leave_all i rest (leave i ch srv)

  -- The loop of notifyMonitorOffline.
  tell_offline : Bytes → List (Bytes × ℕ) → Server → Server
  tell_offline nick [] srv = srv
  tell_offline nick ((key, j) ∷ rest) srv = tell_offline nick rest (
      if not (is_none (lookup (to_lower nick) (at j srv).monitor))
      then send_monitor_list cfg j 731 (nick ∷ []) srv
      else srv)

  -- notifyMonitorOffline
  unfoldable pub notify_monitor_offline : Bytes → Server → Server
  unfolding tell_offline
  notify_monitor_offline nick srv = tell_offline nick srv.sessions srv

  -- removeSession; the list for WHOWAS is left out.
  unfoldable pub remove_session : ℕ → Server → Server
  unfolding leave_all
  remove_session i srv =
      let nick = (at i srv).nick in
      let gone = notify_monitor_offline nick (remove nick (leave_all i srv.channels srv)) in
      if equal nick [] then srv else gone
