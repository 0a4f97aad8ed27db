-- ===== src/Irc/Server/Events.antt =====
-- The commands in a row: dispatch of irc/server/handlers.go for the commands of these modules, and the
-- end of a connection. `scan` is fmt.Sscan as in Join.
use go_protocols.Common.{
  ℕ, ◌≡◌, refl, sym, ap, ◌∙◌, inl, inr, List, [], ◌∷◌, if◌then◌else◌, Bool-cases, ◌||◌, Bytes,
  equal,
}
use go_protocols.Common.Text.{codes, to_lower}
use go_protocols.Common.Maps.{bytes_key, lookup, is_none, insert}
use go_protocols.Irc.Server.Names.{is_valid_nick, clean_username}
use go_protocols.Irc.Server.State.{
  SessionState, state_pre_reg, state_cap_neg, state_registered, Server, Config, at, send,
  send_numeric, store_session, add,
}
use go_protocols.Irc.Server.Tables.{
  channels-tables, tables-send_numeric, tables-notify_monitor_online, tables-welcome,
}
use go_protocols.Irc.Server.Register.{
  is_registered, notify_monitor_online, registered, register_from, try_register, taken, handle_nick,
  user_with, handle_user, handle_pass, handle_ping,
}
use go_protocols.Irc.Server.Channels.{handle_part, handle_kick, handle_topic, remove_session}
use go_protocols.Irc.Server.Channels.Members.{
  HasMembers, numeric-HasMembers, handle_part-HasMembers, handle_kick-HasMembers,
}
use go_protocols.Irc.Server.Channels.Leaving.{handle_topic-HasMembers, remove_session-HasMembers}
use go_protocols.Irc.Server.Join.{handle_join}
use go_protocols.Irc.Server.Join.Entering.{handle_join-HasMembers}

-- A command of a session with its parameters, or the session's end. A topic is set at a time.
pub data Event : Type 0 where
  nick user pass ping join part kick : ℕ → List Bytes → Event
  topic : ℕ → ℕ → List Bytes → Event
  gone : ℕ → Event

module _ (cfg : Config) (scan : Bytes → ℕ) where
  -- The check of dispatch before the commands that ask for a registered session.
  when_registered : ℕ → (Server → Server) → Server → Server
  when_registered i handler srv =
      if is_registered (at i srv).state
      then handler srv
      else send_numeric cfg i 451 (codes "You have not registered" ∷ []) srv

  -- dispatch
  unfoldable pub step : Event → Server → Server
  unfolding when_registered
  step (nick i ps) = handle_nick cfg i ps
  step (user i ps) = handle_user cfg i ps
  step (pass i ps) = handle_pass cfg i
  step (ping i ps) = handle_ping cfg i ps
  step (join i ps) = when_registered i (handle_join cfg scan i ps)
  step (part i ps) = when_registered i (handle_part cfg i ps)
  step (kick i ps) = when_registered i (handle_kick cfg i ps)
  step (topic now i ps) = when_registered i (handle_topic cfg now i ps)
  step (gone i) = remove_session cfg i

  unfoldable pub run : List Event → Server → Server
  unfolding step
  run [] srv = srv
  run (e ∷ es) srv = run es (step e srv)

  channels-numeric :
      (i n : ℕ) (ps : List Bytes) (srv : Server)
      → (send_numeric cfg i n ps srv).channels ≡ srv.channels
  channels-numeric i n ps srv =
      channels-tables (send_numeric cfg i n ps srv) srv (tables-send_numeric cfg i n ps srv)

  channels-registered :
      (i : ℕ) (srv : Server) → (registered cfg i (add i srv) srv).channels ≡ srv.channels
  unfolding registered add store_session
  channels-registered i srv =
      elim (Bool-cases (is_none (lookup (to_lower (at i srv).nick) srv.sessions))) [
        | inl free ↦
            let next = record srv { sessions = insert (to_lower (at i srv).nick) i srv.sessions } in
            let on = store_session i (record (at i next) { state = state_registered }) next in
            let told = notify_monitor_online cfg i on in
            rw free (
              channels-tables _ on
                (tables-welcome cfg i told ∙ tables-notify_monitor_online cfg i on))
        | inr held ↦ rw held (channels-numeric i 433 _ srv)
      ]

  channels-register_from :
      (st : SessionState) (i : ℕ) (srv : Server)
      → (register_from cfg st i srv).channels ≡ srv.channels
  unfolding register_from
  channels-register_from state_registered i srv = refl
  channels-register_from state_cap_neg i srv = refl
  channels-register_from state_pre_reg i srv =
      elim (Bool-cases (equal (at i srv).nick [] || equal (at i srv).user [])) [
        | inl missing ↦ rw missing
        | inr given ↦ rw given (channels-registered i srv)
      ]

  channels-handle_nick :
      (i : ℕ) (ps : List Bytes) (srv : Server) → (handle_nick cfg i ps srv).channels ≡ srv.channels
  unfolding handle_nick try_register store_session
  channels-handle_nick i [] srv = channels-numeric i 431 _ srv
  channels-handle_nick i (name ∷ ps) srv = elim (Bool-cases (is_valid_nick name)) [
    | inr bad ↦ rw bad (channels-numeric i 432 _ srv)
    | inl good ↦ elim (Bool-cases (taken cfg name i srv)) [
      | inl held ↦ rw (good, held) (channels-numeric i 433 _ srv)
      | inr free ↦
          rw (good, free)
            (channels-register_from _ i (store_session i (record (at i srv) { nick = name }) srv))
    ]
  ]

  channels-user_with :
      (i : ℕ) (ps : List Bytes) (srv : Server) → (user_with cfg i ps srv).channels ≡ srv.channels
  unfolding user_with try_register store_session
  channels-user_with i [] srv = channels-numeric i 461 _ srv
  channels-user_with i (a ∷ []) srv = channels-numeric i 461 _ srv
  channels-user_with i (a ∷ b ∷ []) srv = channels-numeric i 461 _ srv
  channels-user_with i (a ∷ b ∷ c ∷ []) srv = channels-numeric i 461 _ srv
  channels-user_with i (a ∷ b ∷ c ∷ d ∷ rest) srv =
      channels-register_from _ i
        (store_session i (record (at i srv) { user = clean_username a; realname = d }) srv)

  same-HasMembers : (s t : Server) → s.channels ≡ t.channels → HasMembers t → HasMembers s
  same-HasMembers s t h all key ch e = all key ch (sym (ap (lookup key) h) ∙ e)

  handle_user-HasMembers :
      (i : ℕ) (ps : List Bytes) (srv : Server)
      → HasMembers srv
      → HasMembers (handle_user cfg i ps srv)
  unfolding handle_user
  handle_user-HasMembers i ps srv all = elim (Bool-cases (is_registered (at i srv).state)) [
    | inl on ↦ rw on (numeric-HasMembers cfg i 462 _ srv all)
    | inr off ↦
        rw off (same-HasMembers (user_with cfg i ps srv) srv (channels-user_with i ps srv) all)
  ]

  handle_pass-HasMembers :
      (i : ℕ) (srv : Server) → HasMembers srv → HasMembers (handle_pass cfg i srv)
  unfolding handle_pass
  handle_pass-HasMembers i srv all = elim (Bool-cases (is_registered (at i srv).state)) [
    | inl on ↦ rw on (numeric-HasMembers cfg i 462 _ srv all)
    | inr off ↦ rw off all
  ]

  handle_ping-HasMembers :
      (i : ℕ) (ps : List Bytes) (srv : Server)
      → HasMembers srv
      → HasMembers (handle_ping cfg i ps srv)
  unfolding handle_ping send
  handle_ping-HasMembers i ps srv all = all

  when_registered-HasMembers :
      (i : ℕ) (handler : Server → Server) (srv : Server)
      → HasMembers (handler srv)
      → HasMembers srv
      → HasMembers (when_registered i handler srv)
  unfolding when_registered
  when_registered-HasMembers i handler srv done all =
      elim (Bool-cases (is_registered (at i srv).state)) [
        | inl on ↦ rw on done
        | inr off ↦ rw off (numeric-HasMembers cfg i 451 _ srv all)
      ]

  step-HasMembers : (e : Event) (srv : Server) → HasMembers srv → HasMembers (step e srv)
  unfolding step
  step-HasMembers (nick i ps) srv all =
      same-HasMembers (handle_nick cfg i ps srv) srv (channels-handle_nick i ps srv) all
  step-HasMembers (user i ps) srv all = handle_user-HasMembers i ps srv all
  step-HasMembers (pass i ps) srv all = handle_pass-HasMembers i srv all
  step-HasMembers (ping i ps) srv all = handle_ping-HasMembers i ps srv all
  step-HasMembers (join i ps) srv all =
      when_registered-HasMembers i (handle_join cfg scan i ps) srv
        (handle_join-HasMembers cfg scan i ps srv all) all
  step-HasMembers (part i ps) srv all =
      when_registered-HasMembers i (handle_part cfg i ps) srv
        (handle_part-HasMembers cfg i ps srv all) all
  step-HasMembers (kick i ps) srv all =
      when_registered-HasMembers i (handle_kick cfg i ps) srv
        (handle_kick-HasMembers cfg i ps srv all) all
  step-HasMembers (topic now i ps) srv all =
      when_registered-HasMembers i (handle_topic cfg now i ps) srv
        (handle_topic-HasMembers cfg now i ps srv all) all
  step-HasMembers (gone i) srv all = remove_session-HasMembers cfg i srv all

  -- No row of NICK, USER, PASS, PING, JOIN, PART, KICK and TOPIC commands and ends of sessions
  -- leaves a channel without a member in the table, when there was none before.
  pub run-HasMembers : (es : List Event) (srv : Server) → HasMembers srv → HasMembers (run es srv)
  unfolding run
  run-HasMembers [] srv all = all
  run-HasMembers (e ∷ es) srv all = run-HasMembers es (step e srv) (step-HasMembers e srv all)
