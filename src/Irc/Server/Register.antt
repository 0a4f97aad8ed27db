-- ===== src/Irc/Server/Register.antt =====
-- The handlers of irc/server/handlers.go that register a session: NICK, USER, PASS and PING.
pub mod Registry
pub mod Nicks
use go_protocols.Common.{
  ℕ, zero, suc, ◌+◌, Bool, true, false, not, ◌&&◌, ◌||◌, List, [], ◌∷◌, ◌++◌, Option, none, some,
  ltb, leb, ◌==◌, if◌then◌else◌, Bytes, length, take, drop, equal,
}
use go_protocols.Common.Decimal.{decimal}
use go_protocols.Common.Text.{codes, to_lower, split}
use go_protocols.Common.Maps.{bytes_key, nat_key, lookup, is_none}
use go_protocols.Irc.Server.Names.{is_valid_nick, clean_username}
use go_protocols.Irc.Server.State.{
  SessionState, state_pre_reg, state_cap_neg, state_registered, Session, Server, Config, at,
  store_session, mask, plain, send, send_numeric, server_prefix, find, add,
}

-- strings.EqualFold, on ASCII
unfoldable pub equal_fold : Bytes → Bytes → Bool
equal_fold a b = equal (to_lower a) (to_lower b)

-- strings.Join
unfoldable pub join : Bytes → List Bytes → Bytes
join sep [] = []
join sep (w ∷ []) = w
join sep (w ∷ v ∷ ws) = w ++ (sep ++ join sep (v ∷ ws))

-- The parts that sendMonitorList and sendNames send: as many values as fit in so many bytes, and one
-- at least. The size counts a separator behind each value.
unfoldable pub chunks : ℕ → ℕ → List Bytes → List Bytes → List (List Bytes)
chunks most size [] [] = []
chunks most size (c ∷ cs) [] = (c ∷ cs) ∷ []
chunks most size [] (v ∷ vs) = chunks most (length v + 1) (v ∷ []) vs
chunks most size (c ∷ cs) (v ∷ vs) =
    let more = chunks most (size + length v + 1) ((c ∷ cs) ++ v ∷ []) vs in
    let next = chunks most (length v + 1) (v ∷ []) vs in
    if leb (size + length v + 1) most then more else (c ∷ cs) ∷ next

unfoldable pub is_registered : SessionState → Bool
is_registered state_registered = true
is_registered state_pre_reg = false
is_registered state_cap_neg = false

module _ (cfg : Config) where
  unfoldable pub send_chunks : ℕ → ℕ → List (List Bytes) → Server → Server
  send_chunks i n [] srv = srv
  send_chunks i n (c ∷ cs) srv =
      send_chunks i n cs (send_numeric cfg i n (join (codes ",") c ∷ []) srv)

  -- sendMonitorList
  unfoldable pub send_monitor_list : ℕ → ℕ → List Bytes → Server → Server
  unfolding send_chunks
  send_monitor_list i n values srv = send_chunks i n (chunks 350 0 [] values) srv

  -- The loop of notifyMonitorOnline over the registered sessions.
  unfoldable pub tell_watchers : ℕ → List (Bytes × ℕ) → Server → Server
  tell_watchers i [] srv = srv
  tell_watchers i ((key, j) ∷ rest) srv = tell_watchers i rest (
      if not (i == j) && not (is_none (lookup (to_lower (at i srv).nick) (at j srv).monitor))
      then send_monitor_list j 730 (mask (at i srv) ∷ []) srv
      else srv)

  -- notifyMonitorOnline
  unfoldable pub notify_monitor_online : ℕ → Server → Server
  unfolding tell_watchers
  notify_monitor_online i srv = tell_watchers i srv.sessions srv

  unfoldable pub send_lines : ℕ → ℕ → List (List Bytes) → Server → Server
  send_lines i n [] srv = srv
  send_lines i n (ps ∷ rest) srv = send_lines i n rest (send_numeric cfg i n ps srv)

  -- isupport
  unfoldable pub isupport : List Bytes
  isupport =
      (codes "NETWORK=" ++ cfg.network)
      ∷ codes "CASEMAPPING=ascii"
      ∷ codes "CHANMODES=beIq,k,l,imnpstrcCzGSNufjQKLPOARTF"
      ∷ codes "CHANTYPES=#&"
      ∷ codes "PREFIX=(qaohv)~&@%+"
      ∷ codes "STATUSMSG=@+"
      ∷ codes "MODES=4"
      ∷ codes "MAXCHANNELS=25"
      ∷ codes "MAXNICKLEN=30"
      ∷ codes "MAXBANS=100"
      ∷ codes "TOPICLEN=390"
      ∷ codes "KICKLEN=255"
      ∷ codes "AWAYLEN=307"
      ∷ codes "CHANNELLEN=64"
      ∷ codes "EXTBAN=$,ajoqrz"
      ∷ codes "WHOX"
      ∷ codes "WALLCHOPS"
      ∷ codes "ELIST=MNUCT"
      ∷ codes "INVEX"
      ∷ codes "EXCEPTS"
      ∷ codes "CALLERID"
      ∷ codes "MONITOR=100"
      ∷ codes "CHATHISTORY=50"
      ∷ codes "MSGREFTYPES=timestamp,msgid"
      ∷ []

  -- What append(batch, line) does to the tokens behind a batch that is not the last: the batch has
  -- room behind it in the array of all tokens, so the line takes the place of the next one.
  unfoldable pub overwritten : Bytes → List Bytes → List Bytes
  overwritten line [] = []
  overwritten line (t ∷ ts) = line ∷ ts

  -- Batches of 13, by rounds; isupport takes two.
  unfoldable pub batches : ℕ → List Bytes → List (List Bytes)
  unfolding overwritten
  batches zero tokens = []
  batches (suc f) [] = []
  batches (suc f) (t ∷ ts) =
      let line = codes "are supported by this server" in
      (take 13 (t ∷ ts) ++ line ∷ []) ∷ batches f (overwritten line (drop 13 (t ∷ ts)))

  -- sendLusers
  unfoldable pub send_lusers : ℕ → Server → Server
  send_lusers i srv =
      let total = decimal (length srv.sessions) in
      send_numeric cfg i 255 ((codes "I have " ++ (total ++ codes " clients and 0 servers")) ∷ []) (
        send_numeric cfg i 254 (decimal (length srv.channels) ∷ codes "channels formed" ∷ []) (
          send_numeric cfg i 251
            ((codes "There are " ++ (total ++ codes " users on 1 server")) ∷ []) srv))

  unfoldable pub motd_lines : List Bytes → List (List Bytes)
  motd_lines [] = []
  motd_lines (l ∷ ls) = ((codes "- " ++ l) ∷ []) ∷ motd_lines ls

  -- sendMOTD
  unfoldable pub send_motd : ℕ → Server → Server
  unfolding motd_lines send_lines
  send_motd i srv =
      if equal cfg.motd []
      then send_numeric cfg i 422 (codes "MOTD File is missing" ∷ []) srv
      else send_numeric cfg i 376 (codes "End of /MOTD command." ∷ []) (
          send_lines i 372 (motd_lines (split 10 cfg.motd)) (
            send_numeric cfg i 375
              ((codes "- " ++ (cfg.name ++ codes " Message of the Day -")) ∷ []) srv))

  -- The messages of the welcome.
  unfoldable pub welcome : ℕ → Server → Server
  unfolding batches send_lines
  welcome i srv = send_motd i (
      send_lusers i (
        send_lines i 5 (batches 3 isupport) (
          send_numeric cfg i 4
            (cfg.name
              ∷ codes "go-irc-1.0"
              ∷ codes "iowzBGHRSXZaegimnpstv"
              ∷ codes "beIqaohvIMRScOAQKFLPTuGzjf"
              ∷ [])
            (send_numeric cfg i 3 (codes "This server was created just now" ∷ []) (
              send_numeric cfg i 2
                ((codes "Your host is " ++ (cfg.name ++ codes ", running go-irc")) ∷ [])
                (send_numeric cfg i 1
                  ((codes "Welcome to the "
                      ++ (cfg.network ++ (codes " IRC Network " ++ mask (at i srv))))
                    ∷ [])
                  srv))))))

  unfoldable pub registered : ℕ → Option Server → Server → Server
  registered i none srv =
      store_session i (record (at i srv) { nick = [] })
        (send_numeric cfg i 433 ((at i srv).nick ∷ codes "Nickname is already in use" ∷ []) srv)
  registered i (some srv') srv = welcome i (
      notify_monitor_online i
        (store_session i (record (at i srv') { state = state_registered }) srv'))

  unfoldable pub register_from : SessionState → ℕ → Server → Server
  register_from state_registered i srv = srv
  register_from state_cap_neg i srv = srv
  register_from state_pre_reg i srv =
      if equal (at i srv).nick [] || equal (at i srv).user []
      then srv
      else registered i (add i srv) srv

  -- tryRegister
  unfoldable pub try_register : ℕ → Server → Server
  unfolding register_from registered
  try_register i srv = register_from (at i srv).state i srv

  -- handleNick, with its first parameter if it has one. A nick is taken when it is registered and is
  -- not the session's own.
  unfoldable pub taken : Bytes → ℕ → Server → Bool
  taken nick i srv = not (is_none (find nick srv)) && not (equal_fold nick (at i srv).nick)

  unfoldable pub handle_nick : ℕ → List Bytes → Server → Server
  unfolding taken
  handle_nick i [] srv = send_numeric cfg i 431 (codes "No nickname given" ∷ []) srv
  handle_nick i (nick ∷ params) srv =
      if not (is_valid_nick nick)
      then send_numeric cfg i 432 (nick ∷ codes "Erroneous Nickname" ∷ []) srv
      else if taken nick i srv
      then send_numeric cfg i 433 (nick ∷ codes "Nickname is already in use" ∷ []) srv
      else try_register i (store_session i (record (at i srv) { nick = nick }) srv)

  unfoldable pub user_with : ℕ → List Bytes → Server → Server
  user_with i (user ∷ a ∷ b ∷ realname ∷ rest) srv =
      try_register i (
        store_session i (record (at i srv) { user = clean_username user; realname = realname }) srv)
  user_with i params srv =
      send_numeric cfg i 461 (codes "USER" ∷ codes "Not enough parameters" ∷ []) srv

  -- handleUser
  unfoldable pub handle_user : ℕ → List Bytes → Server → Server
  unfolding user_with
  handle_user i params srv =
      if is_registered (at i srv).state
      then send_numeric cfg i 462 (codes "You may not reregister" ∷ []) srv
      else user_with i params srv

  -- handlePass
  unfoldable pub handle_pass : ℕ → Server → Server
  handle_pass i srv =
      if is_registered (at i srv).state
      then send_numeric cfg i 462 (codes "You may not reregister" ∷ []) srv
      else srv

  or_name : List Bytes → List Bytes
  or_name [] = cfg.name ∷ []
  or_name (p ∷ ps) = p ∷ ps

  -- handlePing
  unfoldable pub handle_ping : ℕ → List Bytes → Server → Server
  unfolding or_name
  handle_ping i params srv = send i (plain (server_prefix cfg) (codes "PONG") (or_name params)) srv
