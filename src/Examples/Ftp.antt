-- ===== src/Examples/Ftp.antt =====
-- Inputs for ftp/ftp and ftp/server.
use go_protocols.Common.{
  not, ℕ, ◌+◌, ◌≡◌, refl, List, [], ◌∷◌, ◌++◌, if◌then◌else◌, arith, Bytes, All, Result, ok, err,
  equal,
}
use go_protocols.Common.Decimal.{pos}
use go_protocols.Common.Text.{codes, to_upper, to_lower, split}
use go_protocols.Ftp.Command.{Command, parse, command_string}
use go_protocols.Ftp.Command.RoundTrip.{IsCommand, parse-command_string}
use go_protocols.Ftp.Reply.{Reply, reply_string, read}
use go_protocols.Ftp.Reply.RoundTrip.{received, read-reply_string}
use go_protocols.Ftp.Backend.{User, Env}
use go_protocols.Ftp.State.{State, new_session}
use go_protocols.Ftp.Handlers.Password.{IsAuthentic, IsGuest}
use go_protocols.Ftp.Session.{serve}
use go_protocols.Ftp.Session.Login.{serve-IsAuthentic}
use go_protocols.Ftp.Session.Guest.{IsHarmless, serve-IsGuest}
use go_protocols.Ftp.Paths.{or_root, path_clean, resolve}
use go_protocols.Ftp.Paths.Clean.{IsName, path_text, walk, path_clean-walk, resolve-IsName}
use go_protocols.Ftp.Accounts.{new_static, add, authenticate}
use go_protocols.Ftp.Accounts.Rows.{authenticate-add}

abbrev store_it : Command
store_it = record { name = codes "STOR"; arg = codes "a b" }

store_it-IsCommand : IsCommand store_it
unfolding to_upper
store_it-IsCommand = record {
  name_ne_nil = λ e. cc;
  name_space = omega arith;
  name_upper = refl;
  name_line = (refl, (refl, (refl, (refl, tt))));
  arg_line = (refl, (refl, (refl, tt)));
}

parse-command_string_example : parse (command_string store_it) ≡ ok store_it
parse-command_string_example = parse-command_string store_it store_it-IsCommand

abbrev features : Reply
features = record { code = 211; text = []; lines = codes "a" ∷ codes "b" ∷ [] }

read-reply_string_example :
    read (reply_string features ++ codes "2") ≡ ok (received features, codes "2")
read-reply_string_example =
    read-reply_string features (codes "2") (omega arith) tt ((refl, tt), ((refl, tt), tt))

-- A backend whose world counts the calls, and whose authenticator takes what `check` takes.
abbrev counting_env : (Bytes → Bytes → Result Bytes User) → Env ℕ
counting_env check = record {
  welcome = [];
  range_start = 0;
  range_end = 0;
  authenticate = check;
  resolve = λ u cwd arg w. (ok arg, w + 1);
  stat = λ u path w. (err (codes "missing"), w + 1);
  list = λ u path w. (ok [], w + 1);
  mkdir = λ u path w. (ok tt, w + 1);
  remove = λ u path w. (ok tt, w + 1);
  rename = λ u from to w. (ok tt, w + 1);
  send_file = λ u path conn offset w. (ok tt, w + 1);
  recv_file = λ u path conn w. (ok tt, w + 1);
  append_file = λ u path conn w. (err (codes "full"), w + 1);
  listen = λ port w. (ok 1, w + 1);
  host_of = λ l. codes "127.0.0.1";
  port_of = λ l. 2121;
  accept = λ l w. (ok 2, w + 1);
  dial = λ remote w. (ok 3, w + 1);
  write = λ conn b w. w + 1;
  close = λ conn w. w + 1;
  join_host_port = λ host port. host ++ (b':' ∷ port);
  quote = λ s. s;
  list_time = λ t. [];
  utc_time = λ t. [];
}

-- One password for everybody, and none for anybody.
abbrev one_password : Bytes → Bytes → Result Bytes User
one_password user pass =
    if equal pass (codes "pw")
    then ok (record { name = user; home = [] })
    else err (codes "login incorrect")

abbrev locked : Bytes → Bytes → Result Bytes User
locked user pass = err (codes "login incorrect")

abbrev upload : List Bytes
upload = codes "USER ann" ∷ codes "PASS pw" ∷ codes "PASV" ∷ codes "STOR f" ∷ codes "QUIT" ∷ []

new_session-IsAuthentic : IsAuthentic (counting_env one_password) (new_session 0)
unfolding IsAuthentic new_session
new_session-IsAuthentic e = cc

serve-IsAuthentic_example :
    IsAuthentic
      (counting_env one_password)
      (serve (counting_env one_password) upload (new_session 0))
serve-IsAuthentic_example =
    serve-IsAuthentic (counting_env one_password) upload (new_session 0) new_session-IsAuthentic

upload-IsHarmless : All (IsHarmless (counting_env locked)) upload
upload-IsHarmless = (
  (λ c e v u x q. cc),
  ((λ c e v u x q. cc), ((λ c e v u x q. cc), ((λ c e v u x q. cc), ((λ c e v u x q. cc), tt)))),
)

new_session-IsGuest : IsGuest (counting_env locked) 0 (new_session 0)
unfolding new_session
new_session-IsGuest = record { same_world = refl; logged_out = refl }

serve-IsGuest_example :
    IsGuest (counting_env locked) 0 (serve (counting_env locked) upload (new_session 0))
serve-IsGuest_example =
    serve-IsGuest (counting_env locked) upload 0 (new_session 0) upload-IsHarmless
      new_session-IsGuest

path_clean-walk_example :
    path_clean (codes "/a/../../b/./c")
    ≡ or_root (path_text (walk (split b'/' (codes "/a/../../b/./c")) []))
path_clean-walk_example = path_clean-walk (codes "/a/../../b/./c")

resolve-IsName_example :
    (names : List Bytes) × (resolve (codes "/a") (codes "../../b") ≡ ok (or_root (path_text names)))
    × All IsName names
resolve-IsName_example = resolve-IsName (codes "/a") (codes "../../b") (λ e. cc)

authenticate-add_example :
    authenticate (add (codes "Ann") (codes "pw") new_static) (codes "ann") (codes "pw") ≡ (
      if equal (to_lower (codes "Ann")) (to_lower (codes "ann"))
      then (if not (equal (codes "pw") (codes "pw"))
          then err (codes "login incorrect")
          else ok (record { name = codes "Ann"; home = [] }))
      else authenticate new_static (codes "ann") (codes "pw"))
authenticate-add_example =
    authenticate-add new_static (codes "Ann") (codes "pw") (codes "ann") (codes "pw")

-- REST 5, and RNFR f.
abbrev restarted : State ℕ
restarted = record (new_session 0) { rest = pos 5; rename_to = codes "f" }
