-- ===== src/Irc/Server/Join/Entering.antt =====
-- Channels and their members under JOIN.
use go_protocols.Common.{
  ℕ, ◌≡◌, refl, ◌∙◌, inl, inr, not, ◌&&◌, false, List, [], ◌∷◌, Option, none, some, if◌then◌else◌,
  Bool-cases, Bytes, equal, arith,
}
use go_protocols.Common.Text.{codes, split, to_lower}
use go_protocols.Common.Maps.{bytes_key, lookup, insert, lookup-insert}
use go_protocols.Irc.ModeSet.{has, arg_of}
use go_protocols.Irc.Server.State.{
  at, send, Server, Channel, Config, Membership, no_members, add_member, set_channel, get_channel,
  get_or_create, new_channel, or_new, has_member, get_membership, cap_enabled,
}
use go_protocols.Irc.Server.Tables.{tables, tables-send_numeric}
use go_protocols.Irc.Server.Register.{chunks}
use go_protocols.Irc.Server.Names.{is_valid_channel_name}
use go_protocols.Irc.Server.Channels.{tell_topic}
use go_protocols.Irc.Server.Channels.Members.{
  HasMembers, set_channel-HasMembers, quiet-HasMembers, numeric-HasMembers,
}
use go_protocols.Irc.Server.Join.{
  shown_names, send_name_lines, send_names, tell_join, enter, wrong_key, is_full, join_in, join_one,
  join_all, handle_join,
}

insert-inhabited :
    (k : Bytes) (v : Membership) (ms : List (Bytes × Membership))
    → no_members (insert k v ms) ≡ false
unfolding insert no_members
insert-inhabited k v [] = refl
insert-inhabited k v ((j, w) ∷ ms) = elim (Bool-cases (equal j k)) [ inl e ↦ rw e | inr e ↦ rw e ]

add_member-inhabited :
    (i : ℕ) (nick prefix : Bytes) (ch : Channel)
    → no_members (add_member i nick prefix ch).members ≡ false
unfolding add_member
add_member-inhabited i nick prefix ch = insert-inhabited (to_lower nick) _ ch.members

-- A second write under a name replaces the first.
set_channel_twice :
    (name : Bytes) (c d : Channel) (srv : Server)
    → no_members d.members ≡ false
    → HasMembers srv
    → HasMembers (set_channel name d (set_channel name c srv))
unfolding set_channel
set_channel_twice name c d srv some_in all key ch h =
    elim (Bool-cases (equal (to_lower name) key)) [
      | inl e ↦
          let q = lookup-insert (to_lower name) key d (insert (to_lower name) c srv.channels) in
          let same : d ≡ ch = ground arith in
          let there : no_members ch.members ≡ no_members d.members = rw same in there ∙ some_in
      | inr e ↦
          let q = lookup-insert (to_lower name) key d (insert (to_lower name) c srv.channels) in
          let r = lookup-insert (to_lower name) key c srv.channels in all key ch (ground arith)
    ]

module _ (cfg : Config) where
  tables-send_name_lines :
      (i : ℕ) (name : Bytes) (ls : List (List Bytes)) (srv : Server)
      → tables (send_name_lines cfg i name ls srv) ≡ tables srv
  unfolding send_name_lines
  tables-send_name_lines i name [] srv = refl
  tables-send_name_lines i name (l ∷ ls) srv =
      tables-send_name_lines i name ls _ ∙ tables-send_numeric cfg i 353 _ srv

  listed : ℕ → Channel → Server → List Bytes
  listed i ch srv =
      let s = at i srv in
      shown_names (cap_enabled (codes "multi-prefix") s) (cap_enabled (codes "userhost-in-names") s)
        srv ch.members

  tables-send_names :
      (i : ℕ) (ch : Channel) (srv : Server) → tables (send_names cfg i ch srv) ≡ tables srv
  unfolding send_names listed
  tables-send_names i ch srv =
      tables-send_numeric cfg i 366 _ _
      ∙ tables-send_name_lines i ch.name (chunks 400 0 [] (listed i ch srv)) srv

  tables-tell_join :
      (i : ℕ) (name : Bytes) (ms : List (Bytes × Membership)) (srv : Server)
      → tables (tell_join cfg i name ms srv) ≡ tables srv
  unfolding tell_join tables send
  tables-tell_join i name [] srv = refl
  tables-tell_join i name ((key, m) ∷ ms) srv = tables-tell_join i name ms _

  tables-tell_topic :
      (i : ℕ) (name : Bytes) (ch : Channel) (srv : Server)
      → tables (tell_topic cfg i name ch srv) ≡ tables srv
  unfolding tell_topic
  tables-tell_topic i name ch srv = elim (Bool-cases (equal ch.topic [])) [
    | inl e ↦ rw (e, tables-send_numeric cfg)
    | inr e ↦ rw (e, tables-send_numeric cfg, tables-send_numeric cfg)
  ]

  -- What enter leaves in the table.
  enter-HasMembers :
      (i : ℕ) (name : Bytes) (c ch : Channel) (srv : Server)
      → HasMembers srv
      → HasMembers (enter cfg i name ch (set_channel name c srv))
  unfolding enter
  enter-HasMembers i name c ch srv all =
      let s = at i (set_channel name c srv) in
      let joined = add_member i s.nick (if no_members ch.members then codes "@" else []) ch in
      let base = set_channel name joined (set_channel name c srv) in
      let held = set_channel_twice name c joined srv (add_member-inhabited i s.nick _ ch) all in
      let told = tell_topic cfg i name joined (tell_join cfg i name joined.members base) in
      let quiet : tables told ≡ tables base =
        tables-tell_topic i name joined _ ∙ tables-tell_join i name joined.members base in
      elim (Bool-cases (cap_enabled (codes "no-implicit-names") s)) [
        | inl e ↦ rw e (quiet-HasMembers told base quiet held)
        | inr e ↦ rw e (
            quiet-HasMembers (send_names cfg i joined told) base
              (tables-send_names i joined told ∙ quiet) held)
      ]

  module _ (scan : Bytes → ℕ) where
    -- A new channel refuses nobody.
    join_in_new :
        (i : ℕ) (name key : Bytes) (srv : Server)
        → join_in cfg scan i name key (new_channel name) srv
          ≡ enter cfg i name (new_channel name) srv
    unfolding join_in new_channel arg_of has has_member get_membership wrong_key is_full lookup
    join_in_new i name key srv = refl

    join_in_old :
        (i : ℕ) (name key : Bytes) (ch : Channel) (srv : Server)
        → no_members ch.members ≡ false
        → HasMembers srv
        → HasMembers (join_in cfg scan i name key ch (set_channel name ch srv))
    unfolding join_in
    join_in_old i name key ch srv some_in all =
        let base = set_channel name ch srv in
        let held = set_channel-HasMembers name ch srv some_in all in
        let nick = (at i base).nick in
        elim (Bool-cases (wrong_key key (arg_of ch.modes b'k'))) [
          | inl a ↦ rw a (numeric-HasMembers cfg i 475 _ base held)
          | inr a ↦ elim (Bool-cases (has ch.modes b'i' && not (has_member nick ch))) [
            | inl b ↦ rw (a, b) (numeric-HasMembers cfg i 473 _ base held)
            | inr b ↦ elim (Bool-cases (is_full cfg scan ch (arg_of ch.modes b'l'))) [
              | inl c ↦ rw (a, b, c) (numeric-HasMembers cfg i 471 _ base held)
              | inr c ↦ elim (Bool-cases (has_member nick ch)) [
                | inl d ↦ rw (a, b, c, d) held
                | inr d ↦ rw (a, b, c, d) (enter-HasMembers i name ch ch srv all)
              ]
            ]
          ]
        ]

    join_found :
        (i : ℕ) (name key : Bytes) (o : Option Channel) (srv : Server)
        → get_channel name srv ≡ o
        → HasMembers srv
        → HasMembers
            (join_in cfg scan i name key (or_new name o) (set_channel name (or_new name o) srv))
    unfolding or_new get_channel
    join_found i name key none srv e all =
        rw (join_in_new i name key (set_channel name (new_channel name) srv))
          (enter-HasMembers i name (new_channel name) (new_channel name) srv all)
    join_found i name key (some ch) srv e all =
        join_in_old i name key ch srv (all (to_lower name) ch e) all

    join_one-HasMembers :
        (i : ℕ) (name key : Bytes) (srv : Server)
        → HasMembers srv
        → HasMembers (join_one cfg scan i name key srv)
    unfolding join_one get_or_create
    join_one-HasMembers i name key srv all = elim (Bool-cases (equal name [])) [
      | inl e ↦ rw e all
      | inr e ↦ elim (Bool-cases (is_valid_channel_name name)) [
        | inl v ↦ rw (e, v) (join_found i name key (get_channel name srv) srv refl all)
        | inr v ↦ rw (e, v) (numeric-HasMembers cfg i 403 _ srv all)
      ]
    ]

    join_all-HasMembers :
        (i : ℕ) (names keys : List Bytes) (srv : Server)
        → HasMembers srv
        → HasMembers (join_all cfg scan i names keys srv)
    unfolding join_all
    join_all-HasMembers i [] keys srv all = all
    join_all-HasMembers i (n ∷ ns) keys srv all =
        join_all-HasMembers i ns _ _ (join_one-HasMembers i n _ srv all)

    pub handle_join-HasMembers :
        (i : ℕ) (params : List Bytes) (srv : Server)
        → HasMembers srv
        → HasMembers (handle_join cfg scan i params srv)
    unfolding handle_join
    handle_join-HasMembers i [] srv all = numeric-HasMembers cfg i 461 _ srv all
    handle_join-HasMembers i (names ∷ params) srv all =
        join_all-HasMembers i (split b',' names) _ srv all
