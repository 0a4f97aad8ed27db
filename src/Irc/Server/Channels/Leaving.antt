-- ===== src/Irc/Server/Channels/Leaving.antt =====
-- Channels and their members under TOPIC and at the end of a session; operators.
use go_protocols.Common.{
  ℕ, ◌≡◌, refl, ap, ◌∙◌, inl, inr, not, ◌&&◌, false, List, [], ◌∷◌, Bool, Option, none, some,
  Bool-cases, Bytes, equal, equal_refl,
}
use go_protocols.Common.Text.{to_lower}
use go_protocols.Common.Maps.{lookup-delete, bytes_key}
use go_protocols.Irc.ModeSet.{has}
use go_protocols.Irc.Server.State.{
  find, at, Server, Channel, Config, Membership, mask, no_members, get_channel, has_member,
  get_membership, remove,
}
use go_protocols.Irc.Server.Tables.{
  tables, tables-if, tables-send_numeric, tables-send_monitor_list,
}
use go_protocols.Irc.Server.Channels.{
  is_operator_in, tell_topic, set_topic, topic_in, topic_found, handle_topic, leave, leave_all,
  tell_offline, notify_monitor_offline, remove_session, kick_by, kick_found, handle_kick,
}
use go_protocols.Irc.Server.Channels.Members.{
  HasMembers, set_channel-HasMembers, quiet-HasMembers, numeric-HasMembers, broadcast-HasMembers,
  drop_member-HasMembers,
}

operates_in : ℕ → Option Channel → Server → Bool
unfolding is_operator_in
operates_in i none srv = false
operates_in i (some ch) srv = is_operator_in (get_membership (at i srv).nick ch)

-- Whether the session is an operator of the channel with this name.
unfoldable pub operates : ℕ → Bytes → Server → Bool
unfolding operates_in
operates i name srv = operates_in i (get_channel name srv) srv

module _ (cfg : Config) where
  kick_by_quiet :
      (i : ℕ) (name target reason : Bytes) (ch : Channel) (o : Option Membership) (srv : Server)
      → is_operator_in o ≡ false
      → tables (kick_by cfg i name target reason ch o srv) ≡ tables srv
  unfolding kick_by is_operator_in
  kick_by_quiet i name target reason ch none srv h = tables-send_numeric cfg i 442 _ srv
  kick_by_quiet i name target reason ch (some m) srv h = rw h (tables-send_numeric cfg i 482 _ srv)

  kick_found_quiet :
      (i : ℕ) (name target reason : Bytes) (o : Option Channel) (srv : Server)
      → operates_in i o srv ≡ false
      → tables (kick_found cfg i name target reason o srv) ≡ tables srv
  unfolding kick_found operates_in
  kick_found_quiet i name target reason none srv h = tables-send_numeric cfg i 403 _ srv
  kick_found_quiet i name target reason (some ch) srv h =
      kick_by_quiet i name target reason ch (get_membership (at i srv).nick ch) srv h

  -- KICK from a session that is no operator of the channel changes neither sessions nor registry
  -- nor channels.
  pub handle_kick-operates :
      (i : ℕ) (name : Bytes) (params : List Bytes) (srv : Server)
      → operates i name srv ≡ false
      → tables (handle_kick cfg i (name ∷ params) srv) ≡ tables srv
  unfolding handle_kick operates
  handle_kick-operates i name [] srv h = tables-send_numeric cfg i 461 _ srv
  handle_kick-operates i name (target ∷ params) srv h =
      kick_found_quiet i name target _ (get_channel name srv) srv h

  tables-tell_topic :
      (i : ℕ) (name : Bytes) (ch : Channel) (srv : Server)
      → tables (tell_topic cfg i name ch srv) ≡ tables srv
  unfolding tell_topic
  tables-tell_topic i name ch srv = elim (Bool-cases (equal ch.topic [])) [
    | inl e ↦ rw (e, tables-send_numeric cfg)
    | inr e ↦ rw (e, tables-send_numeric cfg, tables-send_numeric cfg)
  ]

  set_topic-HasMembers :
      (now i : ℕ) (name topic : Bytes) (ch : Channel) (srv : Server)
      → no_members ch.members ≡ false
      → HasMembers srv
      → HasMembers (set_topic cfg now i name topic ch srv)
  unfolding set_topic
  set_topic-HasMembers now i name topic ch srv some_in all =
      let changed = record ch {
        topic = topic;
        topic_set_by = mask (at i srv);
        topic_set_at = now;
      } in
      broadcast-HasMembers cfg _ none changed _
        (set_channel-HasMembers name changed srv some_in all)

  topic_in-HasMembers :
      (now i : ℕ) (name : Bytes) (params : List Bytes) (ch : Channel) (srv : Server)
      → no_members ch.members ≡ false
      → HasMembers srv
      → HasMembers (topic_in cfg now i name params ch srv)
  unfolding topic_in
  topic_in-HasMembers now i name [] ch srv some_in all =
      quiet-HasMembers (tell_topic cfg i name ch srv) srv (tables-tell_topic i name ch srv) all
  topic_in-HasMembers now i name (topic ∷ rest) ch srv some_in all =
      elim (Bool-cases
        (has ch.modes b't' && not (is_operator_in (get_membership (at i srv).nick ch)))) [
          | inl e ↦ rw e (numeric-HasMembers cfg i 482 _ srv all)
          | inr e ↦ rw e (set_topic-HasMembers now i name topic ch srv some_in all)
        ]

  topic_found-HasMembers :
      (now i : ℕ) (name : Bytes) (params : List Bytes) (o : Option Channel) (srv : Server)
      → get_channel name srv ≡ o
      → HasMembers srv
      → HasMembers (topic_found cfg now i name params o srv)
  unfolding topic_found get_channel
  topic_found-HasMembers now i name params none srv e all = numeric-HasMembers cfg i 403 _ srv all
  topic_found-HasMembers now i name params (some ch) srv e all =
      elim (Bool-cases (has_member (at i srv).nick ch)) [
        | inl m ↦ rw m (topic_in-HasMembers now i name params ch srv (all (to_lower name) ch e) all)
        | inr m ↦ rw m (numeric-HasMembers cfg i 442 _ srv all)
      ]

  pub handle_topic-HasMembers :
      (now i : ℕ) (params : List Bytes) (srv : Server)
      → HasMembers srv
      → HasMembers (handle_topic cfg now i params srv)
  unfolding handle_topic
  handle_topic-HasMembers now i [] srv all = numeric-HasMembers cfg i 461 _ srv all
  handle_topic-HasMembers now i (name ∷ params) srv all =
      topic_found-HasMembers now i name params (get_channel name srv) srv refl all

  leave-HasMembers :
      (i : ℕ) (ch : Channel) (srv : Server) → HasMembers srv → HasMembers (leave cfg i ch srv)
  unfolding leave
  leave-HasMembers i ch srv all = elim (Bool-cases (has_member (at i srv).nick ch)) [
    | inl m ↦ rw m (
        drop_member-HasMembers ch.name (at i srv).nick ch _
          (broadcast-HasMembers cfg _ (some i) ch srv all))
    | inr m ↦ rw m all
  ]

  leave_all-HasMembers :
      (i : ℕ) (chs : List (Bytes × Channel)) (srv : Server)
      → HasMembers srv
      → HasMembers (leave_all cfg i chs srv)
  unfolding leave_all
  leave_all-HasMembers i [] srv all = all
  leave_all-HasMembers i ((key, ch) ∷ rest) srv all =
      leave_all-HasMembers i rest (leave cfg i ch srv) (leave-HasMembers i ch srv all)

  tables-tell_offline :
      (nick : Bytes) (ws : List (Bytes × ℕ)) (srv : Server)
      → tables (tell_offline cfg nick ws srv) ≡ tables srv
  unfolding tell_offline
  tables-tell_offline nick [] srv = refl
  tables-tell_offline nick ((key, j) ∷ ws) srv =
      tables-tell_offline nick ws _ ∙ tables-if _ _ srv (tables-send_monitor_list cfg j 731 _ srv)

  remove-HasMembers : (nick : Bytes) (srv : Server) → HasMembers srv → HasMembers (remove nick srv)
  unfolding remove
  remove-HasMembers nick srv all = all

  pub remove_session-HasMembers :
      (i : ℕ) (srv : Server) → HasMembers srv → HasMembers (remove_session cfg i srv)
  unfolding remove_session notify_monitor_offline
  remove_session-HasMembers i srv all = elim (Bool-cases (equal (at i srv).nick [])) [
    | inl e ↦ rw e all
    | inr e ↦
        let left = remove (at i srv).nick (leave_all cfg i srv.channels srv) in
        let kept =
          remove-HasMembers (at i srv).nick _ (leave_all-HasMembers i srv.channels srv all) in
        rw e (
          quiet-HasMembers (tell_offline cfg (at i srv).nick left.sessions left) left
            (tables-tell_offline (at i srv).nick left.sessions left) kept)
  ]

  find-remove : (nick : Bytes) (srv : Server) → find nick (remove nick srv) ≡ none
  unfolding find remove
  find-remove nick srv =
      rw (lookup-delete (to_lower nick) (to_lower nick) srv.sessions, equal_refl (to_lower nick))

  find-tables : (nick : Bytes) (s t : Server) → tables s ≡ tables t → find nick s ≡ find nick t
  unfolding find tables
  find-tables nick s t h = ap (λ x. find nick x) h

  -- After the end of a session whose nick is not empty, registered or not, nobody is found under
  -- its nick.
  pub find-remove_session :
      (i : ℕ) (srv : Server)
      → equal (at i srv).nick [] ≡ false
      → find (at i srv).nick (remove_session cfg i srv) ≡ none
  unfolding remove_session notify_monitor_offline
  find-remove_session i srv named =
      let nick = (at i srv).nick in
      let left = leave_all cfg i srv.channels srv in
      let gone = remove nick left in
      rw named (
        find-tables nick (tell_offline cfg nick gone.sessions gone) gone
          (tables-tell_offline nick gone.sessions gone)
        ∙ find-remove nick left)
