-- ===== src/Irc/Server/Channels/Members.antt =====
-- Channels and their members under PART and KICK.
use go_protocols.Common.{
  ℕ, ◌≡◌, sym, ap, ◌∙◌, inl, inr, false, List, [], ◌∷◌, Option, none, some, Bool-cases, Bytes,
  equal, arith,
}
use go_protocols.Common.Text.{to_lower, split}
use go_protocols.Common.Maps.{bytes_key, lookup, insert, delete, lookup-insert, lookup-delete}
use go_protocols.Irc.Server.State.{
  at, has_member, get_membership, Server, Channel, Config, Membership, no_members, remove_member,
  set_channel, remove_channel, get_channel, send_numeric, broadcast,
}
use go_protocols.Irc.Server.Channels.{
  is_operator, drop_member, part, part_found, part_all, handle_part, kick, kick_by, kick_found,
  handle_kick,
}
use go_protocols.Irc.Message.{Message}
use go_protocols.Irc.Server.Tables.{tables, channels-tables, tables-send_numeric, tables-broadcast}

abbrev pub AreInhabited : List (Bytes × Channel) → Type 0
AreInhabited channels =
    (key : Bytes) (ch : Channel) → lookup key channels ≡ some ch → no_members ch.members ≡ false

-- Every channel of the table has a member.
abbrev pub HasMembers : Server → Type 0
HasMembers srv = AreInhabited srv.channels

insert-AreInhabited :
    (k : Bytes) (c : Channel) (m : List (Bytes × Channel))
    → no_members c.members ≡ false
    → AreInhabited m
    → AreInhabited (insert k c m)
insert-AreInhabited k c m some_in all key ch h = elim (Bool-cases (equal k key)) [
  | inl e ↦
      let q = lookup-insert k key c m in
      let same : c ≡ ch = ground arith in
      let there : no_members ch.members ≡ no_members c.members = rw same in there ∙ some_in
  | inr e ↦ all key ch (let q = lookup-insert k key c m in ground arith)
]

delete-AreInhabited :
    (k : Bytes) (m : List (Bytes × Channel)) → AreInhabited m → AreInhabited (delete k m)
delete-AreInhabited k m all key ch h = elim (Bool-cases (equal k key)) [
  | inl e ↦ absurd (let q = lookup-delete k key m in ground arith)
  | inr e ↦ all key ch (let q = lookup-delete k key m in ground arith)
]

remove_channel-HasMembers :
    (name : Bytes) (srv : Server) → HasMembers srv → HasMembers (remove_channel name srv)
unfolding remove_channel
remove_channel-HasMembers name srv all = delete-AreInhabited (to_lower name) srv.channels all

pub set_channel-HasMembers :
    (name : Bytes) (c : Channel) (srv : Server)
    → no_members c.members ≡ false
    → HasMembers srv
    → HasMembers (set_channel name c srv)
unfolding set_channel
set_channel-HasMembers name c srv some_in all =
    insert-AreInhabited (to_lower name) c srv.channels some_in all

pub quiet-HasMembers : (s t : Server) → tables s ≡ tables t → HasMembers t → HasMembers s
quiet-HasMembers s t h all key ch found =
    all key ch (sym (ap (lookup key) (channels-tables s t h)) ∙ found)

pub drop_member-HasMembers :
    (name nick : Bytes) (ch : Channel) (srv : Server)
    → HasMembers srv
    → HasMembers (drop_member name nick ch srv)
unfolding drop_member
drop_member-HasMembers name nick ch srv all =
    elim (Bool-cases (no_members (remove_member nick ch).members)) [
      | inl e ↦ rw e (remove_channel-HasMembers name srv all)
      | inr e ↦ rw e (set_channel-HasMembers name (remove_member nick ch) srv e all)
    ]

module _ (cfg : Config) where
  pub numeric-HasMembers :
      (i n : ℕ) (ps : List Bytes) (srv : Server)
      → HasMembers srv
      → HasMembers (send_numeric cfg i n ps srv)
  numeric-HasMembers i n ps srv all =
      quiet-HasMembers (send_numeric cfg i n ps srv) srv (tables-send_numeric cfg i n ps srv) all

  pub broadcast-HasMembers :
      (msg : Message) (x : Option ℕ) (ch : Channel) (srv : Server)
      → HasMembers srv
      → HasMembers (broadcast msg x ch srv)
  broadcast-HasMembers msg x ch srv all =
      quiet-HasMembers (broadcast msg x ch srv) srv (tables-broadcast msg x ch srv) all

  part_found-HasMembers :
      (i : ℕ) (name reason : Bytes) (o : Option Channel) (srv : Server)
      → HasMembers srv
      → HasMembers (part_found cfg i name reason o srv)
  unfolding part_found part
  part_found-HasMembers i name reason none srv all = numeric-HasMembers i 403 _ srv all
  part_found-HasMembers i name reason (some ch) srv all =
      elim (Bool-cases (has_member (at i srv).nick ch)) [
        | inl e ↦ rw e (drop_member-HasMembers name _ ch _ (broadcast-HasMembers _ none ch srv all))
        | inr e ↦ rw e (numeric-HasMembers i 442 _ srv all)
      ]

  part_all-HasMembers :
      (i : ℕ) (reason : Bytes) (names : List Bytes) (srv : Server)
      → HasMembers srv
      → HasMembers (part_all cfg i reason names srv)
  unfolding part_all
  part_all-HasMembers i reason [] srv all = all
  part_all-HasMembers i reason (n ∷ ns) srv all =
      part_all-HasMembers i reason ns _
        (part_found-HasMembers i n reason (get_channel n srv) srv all)

  pub handle_part-HasMembers :
      (i : ℕ) (params : List Bytes) (srv : Server)
      → HasMembers srv
      → HasMembers (handle_part cfg i params srv)
  unfolding handle_part
  handle_part-HasMembers i [] srv all = numeric-HasMembers i 461 _ srv all
  handle_part-HasMembers i (p ∷ ps) srv all = part_all-HasMembers i _ (split b',' p) srv all

  kick_by-HasMembers :
      (i : ℕ) (name target reason : Bytes) (ch : Channel) (o : Option Membership) (srv : Server)
      → HasMembers srv
      → HasMembers (kick_by cfg i name target reason ch o srv)
  unfolding kick_by kick
  kick_by-HasMembers i name target reason ch none srv all = numeric-HasMembers i 442 _ srv all
  kick_by-HasMembers i name target reason ch (some m) srv all = elim (Bool-cases (is_operator m)) [
    | inr e ↦ rw e (numeric-HasMembers i 482 _ srv all)
    | inl e ↦ elim (Bool-cases (has_member target ch)) [
      | inr f ↦ rw (e, f) (numeric-HasMembers i 441 _ srv all)
      | inl f ↦
          rw (e, f)
            (drop_member-HasMembers name target ch _ (broadcast-HasMembers _ none ch srv all))
    ]
  ]

  kick_found-HasMembers :
      (i : ℕ) (name target reason : Bytes) (o : Option Channel) (srv : Server)
      → HasMembers srv
      → HasMembers (kick_found cfg i name target reason o srv)
  unfolding kick_found
  kick_found-HasMembers i name target reason none srv all = numeric-HasMembers i 403 _ srv all
  kick_found-HasMembers i name target reason (some ch) srv all =
      kick_by-HasMembers i name target reason ch (get_membership (at i srv).nick ch) srv all

  pub handle_kick-HasMembers :
      (i : ℕ) (params : List Bytes) (srv : Server)
      → HasMembers srv
      → HasMembers (handle_kick cfg i params srv)
  unfolding handle_kick
  handle_kick-HasMembers i [] srv all = numeric-HasMembers i 461 _ srv all
  handle_kick-HasMembers i (a ∷ []) srv all = numeric-HasMembers i 461 _ srv all
  handle_kick-HasMembers i (a ∷ b ∷ ps) srv all =
      kick_found-HasMembers i a b _ (get_channel a srv) srv all
