-- ===== src/Examples/IrcServer.antt =====
-- Inputs for irc/server.
use go_protocols.Common.{
  false, replicate, ◌++◌, ℕ, ◌≡◌, ◌≢◌, ◌↔◌, refl, true, List, [], ◌∷◌, none, Bytes, All, equal,
  arith, inl,
}
use go_protocols.Common.Text.{codes, to_lower}
use go_protocols.Common.Maps.{bytes_key, nat_key, lookup, insert}
use go_protocols.Common.Utf8.{decode_rune}
use go_protocols.Irc.ModeString.{among}
use go_protocols.Irc.Server.Names.{contains_any, glob_match, is_valid_nick}
use go_protocols.Irc.Server.Names.Masks.{Matches, glob_match_iff}
use go_protocols.Irc.Server.State.{
  new_channel, get_membership, Session, Server, Config, no_session, store_session, state_pre_reg,
  state_registered, at, find, get_channel,
}
use go_protocols.Irc.Server.Tables.{tables}
use go_protocols.Irc.Server.Register.{batches, is_registered, chunks, handle_nick, taken}
use go_protocols.Irc.Server.Register.Registry.{IsRegistry, enter-IsRegistry}
use go_protocols.Irc.Server.Register.Nicks.{
  off_not_registered, handle_nick-IsRegistry, handle_nick_stale,
}
use go_protocols.Irc.Server.Channels.{is_operator, handle_kick, remove_session}
use go_protocols.Irc.Server.Channels.Members.{HasMembers}
use go_protocols.Irc.Server.Channels.Leaving.{operates, handle_kick-operates, find-remove_session}
use go_protocols.Irc.Server.Join.Chunks.{Fits, chunks-Fits}
use go_protocols.Irc.Server.Monitor.{handle_monitor}
use go_protocols.Irc.Server.Monitor.Limit.{IsBounded, handle_monitor-IsBounded}
use go_protocols.Irc.Server.Events.{Event, nick, user, join, part, kick, gone, run, run-HasMembers}

glob_match_iff_example :
    (glob_match (codes "*!*@host") (codes "ann!a@host") ≡ true)
    ↔ Matches (codes "*!*@host") (codes "ann!a@host")
glob_match_iff_example = glob_match_iff (codes "*!*@host") (codes "ann!a@host") (omega arith) (
  λ e b. omega arith,
  (
    λ e b. omega arith,
    (
      λ e b. omega arith,
      (λ e b. omega arith, (λ e b. omega arith, (λ e b. omega arith, (λ e b. omega arith, tt)))),
    ),
  ),
)

abbrev config : Config
config = record { name = codes "irc.test"; network = codes "Test"; motd = [] }

abbrev empty : Server
empty = record { store = []; sessions = []; channels = []; sent = [] }

abbrev scan_four : Bytes → ℕ
scan_four b = 4

abbrev meeting : List Event
meeting =
    nick 1 (codes "ann" ∷ [])
    ∷ user 1 (codes "a" ∷ codes "0" ∷ codes "*" ∷ codes "Ann" ∷ [])
    ∷ join 1 (codes "#go" ∷ [])
    ∷ nick 2 (codes "bob" ∷ [])
    ∷ user 2 (codes "b" ∷ codes "0" ∷ codes "*" ∷ codes "Bob" ∷ [])
    ∷ join 2 (codes "#go" ∷ [])
    ∷ kick 2 (codes "#go" ∷ codes "ann" ∷ [])
    ∷ kick 1 (codes "#go" ∷ codes "bob" ∷ [])
    ∷ part 1 (codes "#go" ∷ [])
    ∷ gone 1
    ∷ []

no_channels : HasMembers empty
unfolding lookup
no_channels key ch h = absurd (cc)

run-HasMembers_example : HasMembers (run config scan_four meeting empty)
run-HasMembers_example = run-HasMembers config scan_four meeting empty no_channels

empty-IsRegistry : IsRegistry empty
unfolding lookup at
empty-IsRegistry = record {
  holds = λ key i e. absurd (cc);
  listed = λ i e. absurd (off_not_registered state_pre_reg (unfold is_registered in refl) e);
}

off_empty : (at 1 empty).state ≢ state_registered
unfolding at lookup
off_empty e = off_not_registered state_pre_reg (unfold is_registered in refl) e

abbrev ann : Session
ann = record no_session { nick = codes "Ann"; user = codes "a"; state = state_registered }

abbrev with_ann : Server
with_ann =
    store_session 1 ann (record empty { sessions = insert (to_lower ann.nick) 1 empty.sessions })

with_ann-IsRegistry : IsRegistry with_ann
with_ann-IsRegistry =
    enter-IsRegistry 1 ann empty (unfold lookup in refl) off_empty refl empty-IsRegistry

abbrev bob_params : List Bytes
bob_params = codes "b" ∷ codes "0" ∷ codes "*" ∷ codes "Bob" ∷ []

handle_nick-IsRegistry_example : IsRegistry (handle_nick config 2 (codes "bob" ∷ []) with_ann)
unfolding at lookup store_session insert
handle_nick-IsRegistry_example =
    handle_nick-IsRegistry config 2 (codes "bob" ∷ []) with_ann
      (off_not_registered state_pre_reg (unfold is_registered in refl)) with_ann-IsRegistry

ann_on : (at 1 with_ann).state ≡ state_registered
unfolding at store_session lookup insert
ann_on = refl

handle_nick_stale_example : ¬ IsRegistry (handle_nick config 1 (codes "eve" ∷ []) with_ann)
unfolding at store_session lookup insert taken is_valid_nick find equal to_lower
handle_nick_stale_example =
    handle_nick_stale config 1 (codes "eve") [] with_ann ann_on refl refl
      (λ e. absurd (ground arith)) with_ann-IsRegistry

-- Bob is on the channel where Ann is operator, and kicks her.
abbrev bob : Session
bob = record no_session { nick = codes "bob"; user = codes "b"; state = state_registered }

abbrev on_channel : Server
on_channel = record with_ann {
  store = (1, ann) ∷ (2, bob) ∷ [];
  channels =
      (
        codes "#go",
        record (new_channel (codes "#go")) {
          members =
              (codes "ann", record { session = 1; prefix = codes "@" })
              ∷ (codes "bob", record { session = 2; prefix = [] })
              ∷ [];
        },
      )
      ∷ [];
}

handle_kick-operates_example :
    tables (handle_kick config 2 (codes "#go" ∷ codes "ann" ∷ []) on_channel) ≡ tables on_channel
unfolding get_channel lookup equal to_lower is_operator at get_membership contains_any among
handle_kick-operates_example =
    handle_kick-operates config 2 (codes "#go") (codes "ann" ∷ []) on_channel
      (unfold operates in refl)

-- A second connection that chose the nick before Ann registered it.
abbrev with_rival : Server
with_rival = store_session 2 (record no_session { nick = codes "ANN" }) with_ann

find-remove_session_example :
    find (at 2 with_rival).nick (remove_session config 2 with_rival) ≡ none
unfolding at equal lookup store_session insert
find-remove_session_example = find-remove_session config 2 with_rival refl

chunks-Fits_example : All (Fits 8) (chunks 8 0 [] (codes "ann" ∷ codes "bob" ∷ codes "eve" ∷ []))
chunks-Fits_example =
    chunks-Fits 8 0 [] (codes "ann" ∷ codes "bob" ∷ codes "eve" ∷ []) refl (inl (omega arith))

empty-IsBounded : IsBounded empty
unfolding at lookup
empty-IsBounded i = omega arith

abbrev unsorted : List Bytes → List Bytes
unsorted nicks = nicks

handle_monitor-IsBounded_example :
    IsBounded (handle_monitor config unsorted 1 (codes "+" ∷ codes "bob,eve" ∷ []) empty)
handle_monitor-IsBounded_example =
    handle_monitor-IsBounded config unsorted 1 (codes "+" ∷ codes "bob,eve" ∷ []) empty
      empty-IsBounded

-- A rune of two bytes has no suffix that begins in its middle.
two_byte_rune : glob_match (codes "*?") (195 ∷ 169 ∷ []) ≡ false
unfolding glob_match decode_rune
two_byte_rune = refl

-- What is left of 14 tokens for the second line.
lost_token :
    batches config 2 (replicate 14 (codes "T"))
    ≡ (replicate 13 (codes "T") ++ codes "are supported by this server" ∷ [])
      ∷ (codes "are supported by this server" ∷ codes "are supported by this server" ∷ [])
      ∷ []
unfolding batches
lost_token = refl
