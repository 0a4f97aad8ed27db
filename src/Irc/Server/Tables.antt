-- ===== src/Irc/Server/Tables.antt =====
-- The tables of the server: the sessions, the registry and the channels, without what is sent.
use go_protocols.Common.{
  ℕ, ◌≡◌, refl, ap, ◌∙◌, inl, inr, true, false, List, [], ◌∷◌, Bool, Option, if◌then◌else◌,
  Bool-cases, Bytes, equal,
}
use go_protocols.Irc.Message.{Message}
use go_protocols.Irc.Server.State.{
  send_members, excluded, broadcast, Channel, Membership, Server, Config, send, send_numeric,
}
use go_protocols.Irc.Server.Register.{
  chunks, send_chunks, send_monitor_list, tell_watchers, notify_monitor_online, send_lines,
  send_lusers, send_motd, welcome,
}

-- The state without what was sent.
unfoldable pub tables : Server → Server
tables srv = record srv { sent = [] }

pub tables-if :
    (b : Bool) (x y : Server) → tables x ≡ tables y → tables (if b then x else y) ≡ tables y
tables-if true x y h = h
tables-if false x y h = refl

tables-send_members :
    (msg : Message) (exclude : Option ℕ) (ms : List (Bytes × Membership)) (srv : Server)
    → tables (send_members msg exclude ms srv) ≡ tables srv
unfolding tables send_members send
tables-send_members msg exclude [] srv = refl
tables-send_members msg exclude ((key, m) ∷ ms) srv =
    elim (Bool-cases (excluded m.session exclude)) [
      | inl e ↦ tables-send_members msg exclude ms _ ∙ rw e
      | inr e ↦ tables-send_members msg exclude ms _ ∙ rw e
    ]

pub tables-broadcast :
    (msg : Message) (exclude : Option ℕ) (ch : Channel) (srv : Server)
    → tables (broadcast msg exclude ch srv) ≡ tables srv
unfolding broadcast
tables-broadcast msg exclude ch srv = tables-send_members msg exclude ch.members srv

pub channels-tables : (s t : Server) → tables s ≡ tables t → s.channels ≡ t.channels
unfolding tables
channels-tables s t h = ap (λ x. x.channels) h

module _ (cfg : Config) where
  pub tables-send_numeric :
      (i n : ℕ) (ps : List Bytes) (srv : Server) → tables (send_numeric cfg i n ps srv) ≡ tables srv
  unfolding tables send_numeric
  tables-send_numeric i n ps srv = refl

  tables-send_chunks :
      (i n : ℕ) (cs : List (List Bytes)) (srv : Server)
      → tables (send_chunks cfg i n cs srv) ≡ tables srv
  unfolding send_chunks
  tables-send_chunks i n [] srv = refl
  tables-send_chunks i n (c ∷ cs) srv = tables-send_chunks i n cs _ ∙ tables-send_numeric i n _ srv

  pub tables-send_monitor_list :
      (i n : ℕ) (vs : List Bytes) (srv : Server)
      → tables (send_monitor_list cfg i n vs srv) ≡ tables srv
  unfolding send_monitor_list
  tables-send_monitor_list i n vs srv = tables-send_chunks i n (chunks 350 0 [] vs) srv

  tables-tell_watchers :
      (i : ℕ) (ws : List (Bytes × ℕ)) (srv : Server)
      → tables (tell_watchers cfg i ws srv) ≡ tables srv
  unfolding tell_watchers
  tables-tell_watchers i [] srv = refl
  tables-tell_watchers i ((key, j) ∷ ws) srv =
      tables-tell_watchers i ws _ ∙ tables-if _ _ srv (tables-send_monitor_list j 730 _ srv)

  tables-send_lines :
      (i n : ℕ) (ls : List (List Bytes)) (srv : Server)
      → tables (send_lines cfg i n ls srv) ≡ tables srv
  unfolding send_lines
  tables-send_lines i n [] srv = refl
  tables-send_lines i n (l ∷ ls) srv = tables-send_lines i n ls _ ∙ tables-send_numeric i n l srv

  tables-send_lusers : (i : ℕ) (srv : Server) → tables (send_lusers cfg i srv) ≡ tables srv
  unfolding send_lusers
  tables-send_lusers i srv = rw (tables-send_numeric, tables-send_numeric, tables-send_numeric)

  tables-send_motd : (i : ℕ) (srv : Server) → tables (send_motd cfg i srv) ≡ tables srv
  unfolding send_motd
  tables-send_motd i srv = elim (Bool-cases (equal cfg.motd [])) [
    | inl e ↦ rw (e, tables-send_numeric)
    | inr e ↦ rw (e, tables-send_numeric, tables-send_lines, tables-send_numeric)
  ]

  pub tables-notify_monitor_online :
      (i : ℕ) (srv : Server) → tables (notify_monitor_online cfg i srv) ≡ tables srv
  unfolding notify_monitor_online
  tables-notify_monitor_online i srv = tables-tell_watchers i srv.sessions srv

  pub tables-welcome : (i : ℕ) (srv : Server) → tables (welcome cfg i srv) ≡ tables srv
  unfolding welcome
  tables-welcome i srv = rw (
    tables-send_motd, tables-send_lusers, tables-send_lines, tables-send_numeric,
    tables-send_numeric, tables-send_numeric, tables-send_numeric,
  )
