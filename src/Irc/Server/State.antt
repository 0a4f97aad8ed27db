-- ===== src/Irc/Server/State.antt =====
-- The state of irc/server/server.go: sessions, the registry of nicks and the channels. A *Session is a
-- number, by which the state holds its value. `sent` holds the messages that Send was called with,
-- each with its session: the tags that Send adds and takes away and the queue behind it are left out,
-- as are histories, SASL and labelled responses. A range over a map visits the entries in their order.
use go_protocols.Common.{
  ℕ, ◌-◌, Bool, true, false, not, List, [], ◌∷◌, ◌++◌, Option, none, some, replicate, ◌==◌,
  if◌then◌else◌, Bytes, length,
}
use go_protocols.Common.Decimal.{decimal}
use go_protocols.Common.Text.{codes, to_lower}
use go_protocols.Common.Maps.{bytes_key, nat_key, lookup, insert, delete, is_none}
use go_protocols.Irc.Message.{Prefix, Message, prefix_string}
use go_protocols.Irc.ModeSet.{ModeSet, new}

pub data SessionState : Type 0 where
  state_pre_reg state_cap_neg state_registered : SessionState

-- The fields of Session that the handlers of these modules read and write.
pub record Session : Type 0 where
  pub nick : Bytes
  pub user : Bytes
  pub host : Bytes
  pub realname : Bytes
  pub account : Bytes
  pub caps : List (Bytes × Bool)
  pub state : SessionState
  pub monitor : List (Bytes × Bytes)

pub record Membership : Type 0 where
  pub session : ℕ
  pub prefix : Bytes

pub record Channel : Type 0 where
  pub name : Bytes
  pub topic : Bytes
  pub topic_set_by : Bytes
  pub topic_set_at : ℕ
  pub modes : ModeSet
  pub members : List (Bytes × Membership)

pub record Sent : Type 0 where
  pub to : ℕ
  pub msg : Message

pub record Server : Type 0 where
  pub store : List (ℕ × Session)
  pub sessions : List (Bytes × ℕ)
  pub channels : List (Bytes × Channel)
  pub sent : List Sent

-- The fields of Config that are read here.
pub record Config : Type 0 where
  pub name : Bytes
  pub network : Bytes
  pub motd : Bytes

-- A session that is not in the store: none of the program's.
abbrev pub no_session : Session
no_session = record {
  nick = [];
  user = [];
  host = [];
  realname = [];
  account = [];
  caps = [];
  state = state_pre_reg;
  monitor = [];
}

or_no_session : Option Session → Session
or_no_session none = no_session
or_no_session (some s) = s

-- *s
unfoldable pub at : ℕ → Server → Session
unfolding or_no_session
at i srv = or_no_session (lookup i srv.store)

unfoldable pub store_session : ℕ → Session → Server → Server
store_session i s srv = record srv { store = insert i s srv.store }

is_set : Option Bool → Bool
is_set none = false
is_set (some b) = b

-- capEnabled
unfoldable pub cap_enabled : Bytes → Session → Bool
unfolding is_set
cap_enabled cap s = is_set (lookup cap s.caps)

-- Prefix
unfoldable pub prefix_of : Session → Prefix
prefix_of s = record { nick = s.nick; user = s.user; host = s.host }

-- mask
unfoldable pub mask : Session → Bytes
unfolding prefix_of
mask s = prefix_string (prefix_of s)

-- A message with no tags.
unfoldable pub plain : Prefix → Bytes → List Bytes → Message
plain p command params = record { tags = []; prefix = some p; command = command; params = params }

-- Send
unfoldable pub send : ℕ → Message → Server → Server
send i msg srv = record srv { sent = srv.sent ++ (record { to = i; msg = msg }) ∷ [] }

-- Numeric.String
unfoldable pub numeric_string : ℕ → Bytes
numeric_string n = let d = decimal n in replicate (3 - length d) b'0' ++ d

unfoldable pub star_if_empty : Bytes → Bytes
star_if_empty [] = codes "*"
star_if_empty (c ∷ cs) = c ∷ cs

unfoldable pub server_prefix : Config → Prefix
server_prefix cfg = record { nick = cfg.name; user = []; host = [] }

-- SendNumeric
unfoldable pub send_numeric : Config → ℕ → ℕ → List Bytes → Server → Server
unfolding send
send_numeric cfg i n params srv =
    send i (plain (server_prefix cfg) (numeric_string n) (star_if_empty (at i srv).nick ∷ params))
      srv

-- Registry.Get
unfoldable pub find : Bytes → Server → Option ℕ
find nick srv = lookup (to_lower nick) srv.sessions

-- Registry.Add; `none` is its error.
unfoldable pub add : ℕ → Server → Option Server
add i srv =
    let key = to_lower (at i srv).nick in
    if is_none (lookup key srv.sessions)
    then some (record srv { sessions = insert key i srv.sessions })
    else none

-- Registry.Remove
unfoldable pub remove : Bytes → Server → Server
remove nick srv = record srv { sessions = delete (to_lower nick) srv.sessions }

-- newChannel; createdAt is left out.
unfoldable pub new_channel : Bytes → Channel
new_channel name = record {
  name = name;
  topic = [];
  topic_set_by = [];
  topic_set_at = 0;
  modes = new;
  members = [];
}

-- ChannelRegistry.Get
unfoldable pub get_channel : Bytes → Server → Option Channel
get_channel name srv = lookup (to_lower name) srv.channels

unfoldable pub or_new : Bytes → Option Channel → Channel
or_new name none = new_channel name
or_new name (some ch) = ch

-- The channel that GetOrCreate returns; `set_channel` stores it.
unfoldable pub get_or_create : Bytes → Server → Channel
unfolding or_new get_channel
get_or_create name srv = or_new name (get_channel name srv)

-- What is written through a *Channel that stands under this name.
unfoldable pub set_channel : Bytes → Channel → Server → Server
set_channel name ch srv = record srv { channels = insert (to_lower name) ch srv.channels }

-- ChannelRegistry.Remove
unfoldable pub remove_channel : Bytes → Server → Server
remove_channel name srv = record srv { channels = delete (to_lower name) srv.channels }

-- AddMember
unfoldable pub add_member : ℕ → Bytes → Bytes → Channel → Channel
add_member i nick prefix ch = record ch {
  members = insert (to_lower nick) (record { session = i; prefix = prefix }) ch.members;
}

-- RemoveMember: the channel behind it.
unfoldable pub remove_member : Bytes → Channel → Channel
remove_member nick ch = record ch { members = delete (to_lower nick) ch.members }

unfoldable pub no_members : List (Bytes × Membership) → Bool
no_members [] = true
no_members (m ∷ ms) = false

-- GetMembership
unfoldable pub get_membership : Bytes → Channel → Option Membership
get_membership nick ch = lookup (to_lower nick) ch.members

-- HasMember
unfoldable pub has_member : Bytes → Channel → Bool
unfolding get_membership
has_member nick ch = not (is_none (get_membership nick ch))

-- Whether a session is the excluded one.
unfoldable pub excluded : ℕ → Option ℕ → Bool
excluded i none = false
excluded i (some j) = i == j

unfoldable pub send_members : Message → Option ℕ → List (Bytes × Membership) → Server → Server
unfolding send excluded
send_members msg exclude [] srv = srv
send_members msg exclude ((key, m) ∷ ms) srv =
    send_members msg exclude ms (if excluded m.session exclude then srv else send m.session msg srv)

-- Broadcast
unfoldable pub broadcast : Message → Option ℕ → Channel → Server → Server
unfolding send_members
broadcast msg exclude ch srv = send_members msg exclude ch.members srv
