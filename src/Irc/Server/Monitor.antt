-- ===== src/Irc/Server/Monitor.antt =====
-- handleMonitor of irc/server/handlers.go. slices.SortFunc is a parameter, which sorts nicks by their
-- lower case.
pub mod Limit
use go_protocols.Common.{
  ℕ, Bool, true, false, not, List, [], ◌∷◌, ◌++◌, Option, none, some, leb, if◌then◌else◌, Bytes,
  length, equal,
}
use go_protocols.Common.Decimal.{decimal}
use go_protocols.Common.Text.{codes, to_lower, to_upper, split}
use go_protocols.Common.Maps.{bytes_key, lookup, insert, delete, is_none}
use go_protocols.Irc.Server.Names.{is_valid_nick}
use go_protocols.Irc.Server.State.{
  Session, Server, Config, at, store_session, mask, send_numeric, find,
}
use go_protocols.Irc.Server.Register.{join, send_monitor_list}

abbrev pub monitor_limit : ℕ
monitor_limit = 100

-- The variables of the loop that adds nicks.
pub record Added : Type 0 where
  pub monitor : List (Bytes × Bytes)
  pub online : List Bytes
  pub offline : List Bytes
  pub rejected : List Bytes

-- A nick is online with the mask of its session.
unfoldable pub place : Server → Bytes → Option ℕ → Added → Added
place srv nick none a = record a { offline = a.offline ++ nick ∷ [] }
place srv nick (some j) a = record a { online = a.online ++ mask (at j srv) ∷ [] }

-- The body of that loop.
unfoldable pub add_nick : Server → Bytes → Added → Added
unfolding place
add_nick srv nick a =
    let key = to_lower nick in
    if not (is_valid_nick nick)
    then a
    else if not (is_none (lookup key a.monitor))
    then place srv nick (find nick srv) a
    else if leb monitor_limit (length a.monitor)
    then record a { rejected = a.rejected ++ nick ∷ [] }
    else place srv nick (find nick srv) (record a { monitor = insert key nick a.monitor })

unfoldable pub add_nicks : Server → List Bytes → Added → Added
unfolding add_nick
add_nicks srv [] a = a
add_nicks srv (nick ∷ nicks) a = add_nicks srv nicks (add_nick srv nick a)

unfoldable pub delete_nicks : List Bytes → List (Bytes × Bytes) → List (Bytes × Bytes)
delete_nicks [] monitor = monitor
delete_nicks (nick ∷ nicks) monitor = delete_nicks nicks (delete (to_lower nick) monitor)

-- monitorSnapshot
unfoldable pub monitor_snapshot : List (Bytes × Bytes) → List Bytes
monitor_snapshot [] = []
monitor_snapshot ((key, nick) ∷ rest) = nick ∷ monitor_snapshot rest

-- The loop of the case "S".
unfoldable pub place_all : Server → List Bytes → Added → Added
unfolding place
place_all srv [] a = a
place_all srv (nick ∷ nicks) a = place_all srv nicks (place srv nick (find nick srv) a)

abbrev pub begin : List (Bytes × Bytes) → Added
begin monitor = record { monitor = monitor; online = []; offline = []; rejected = [] }

unfoldable pub set_monitor : ℕ → List (Bytes × Bytes) → Server → Server
set_monitor i monitor srv = store_session i (record (at i srv) { monitor = monitor }) srv

module _ (cfg : Config) (sort : List Bytes → List Bytes) where
  tell_places : ℕ → Added → Server → Server
  tell_places i a srv =
      send_monitor_list cfg i 731 a.offline (send_monitor_list cfg i 730 a.online srv)

  tell_rejected : ℕ → List Bytes → Server → Server
  tell_rejected i [] srv = srv
  tell_rejected i (r ∷ rs) srv =
      send_numeric cfg i 734
        (decimal monitor_limit ∷ join (codes ",") (r ∷ rs) ∷ codes "Monitor list is full" ∷ []) srv

  too_few : ℕ → Server → Server
  too_few i srv = send_numeric cfg i 461 (codes "MONITOR" ∷ codes "Not enough parameters" ∷ []) srv

  monitor_add : ℕ → List Bytes → Server → Server
  unfolding tell_places tell_rejected too_few
  monitor_add i [] srv = too_few i srv
  monitor_add i (nicks ∷ rest) srv =
      let a = add_nicks srv (split b',' nicks) (begin (at i srv).monitor) in
      tell_rejected i a.rejected (tell_places i a (set_monitor i a.monitor srv))

  monitor_delete : ℕ → List Bytes → Server → Server
  unfolding too_few
  monitor_delete i [] srv = too_few i srv
  monitor_delete i (nicks ∷ rest) srv =
      set_monitor i (delete_nicks (split b',' nicks) (at i srv).monitor) srv

  monitor_list : ℕ → Server → Server
  monitor_list i srv =
      send_numeric cfg i 733 (codes "End of MONITOR list" ∷ [])
        (send_monitor_list cfg i 732 (sort (monitor_snapshot (at i srv).monitor)) srv)

  monitor_status : ℕ → Server → Server
  unfolding tell_places
  monitor_status i srv =
      let monitor = (at i srv).monitor in
      tell_places i (place_all srv (monitor_snapshot monitor) (begin monitor)) srv

  -- handleMonitor
  unfoldable pub handle_monitor : ℕ → List Bytes → Server → Server
  unfolding monitor_add monitor_delete monitor_list monitor_status too_few
  handle_monitor i [] srv = too_few i srv
  handle_monitor i (sub ∷ params) srv =
      let cmd = to_upper sub in
      if equal cmd (codes "+")
      then monitor_add i params srv
      else if equal cmd (codes "-")
      then monitor_delete i params srv
      else if equal cmd (codes "C")
      then set_monitor i [] srv
      else if equal cmd (codes "L")
      then monitor_list i srv
      else if equal cmd (codes "S")
      then monitor_status i srv
      else send_numeric cfg i 461 (codes "MONITOR" ∷ codes "Invalid MONITOR subcommand" ∷ []) srv
