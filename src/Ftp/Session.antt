-- ===== src/Ftp/Session.antt =====
-- dispatch and serve of ftp/server/session.go. A session reads lines from its own connection only, so
-- its steps are in sequence.
pub mod Login
pub mod Guest
use go_protocols.Common.{
  ℕ, Bool, true, false, not, ◌&&◌, List, [], ◌∷◌, ◌++◌, if◌then◌else◌, Bytes, Result, ok, err,
}
use go_protocols.Common.Text.{codes}
use go_protocols.Ftp.Command.{
  Command, Error, parse, Verb, verb_of, cmd_user, cmd_pass, cmd_quit, cmd_noop, cmd_syst, cmd_feat,
  cmd_help, cmd_pwd, cmd_cwd, cmd_cdup, cmd_type, cmd_pasv, cmd_epsv, cmd_port, cmd_eprt, cmd_list,
  cmd_nlst, cmd_retr, cmd_stor, cmd_appe, cmd_dele, cmd_rmd, cmd_mkd, cmd_rnfr, cmd_rnto, cmd_rest,
  cmd_size, cmd_mdtm, cmd_auth, cmd_pbsz, cmd_prot, cmd_ccc, cmd_other,
}
use go_protocols.Ftp.Reply.{new_multi_line}
use go_protocols.Ftp.Backend.{Env}
use go_protocols.Ftp.State.{State, send}
use go_protocols.Ftp.Handlers.{
  handle_user, handle_pass, handle_cwd, handle_type, handle_pasv, handle_epsv, handle_port,
  handle_eprt, handle_list, handle_retr, handle_stor, handle_appe, handle_dele, handle_rmd,
  handle_mkd, handle_rnfr, handle_rnto, handle_rest, handle_size, handle_mdtm, handle_prot,
}

-- The result of dispatch: nil, errQuit or another error.
pub data Outcome : Type 0 where
  continue quit : Outcome
  refused : Bytes → Outcome

-- The commands that the guard of dispatch lets through before the login.
unfoldable pub open_to_all : Verb → Bool
open_to_all cmd_user = true
open_to_all cmd_pass = true
open_to_all cmd_quit = true
open_to_all cmd_auth = true
open_to_all cmd_feat = true
open_to_all cmd_noop = true
open_to_all cmd_help = true
open_to_all cmd_syst = true
open_to_all cmd_pbsz = true
open_to_all cmd_prot = true
open_to_all cmd_ccc = true
open_to_all _ = false

module _ {World : Type 0} (env : Env World) where
  -- The switch of dispatch; QUIT is told apart below.
  unfoldable pub handle : Verb → Bytes → State World → State World
  handle cmd_user arg s = handle_user env arg s
  handle cmd_pass arg s = handle_pass env arg s
  handle cmd_quit arg s = send 221 (codes "Goodbye") s
  handle cmd_noop arg s = send 200 (codes "NOOP ok") s
  handle cmd_syst arg s = send 215 (codes "UNIX Type: L8") s
  handle cmd_feat arg s = record s { sent = s.sent ++ new_multi_line 211 (codes "End" ∷ []) ∷ [] }
  handle cmd_help arg s = send 214 (codes "Help me help you") s
  handle cmd_pwd arg s = send 257 (env.quote s.cwd) s
  handle cmd_cwd arg s = handle_cwd env arg s
  handle cmd_cdup arg s = handle_cwd env (codes "..") s
  handle cmd_type arg s = handle_type env arg s
  handle cmd_pasv arg s = handle_pasv env s
  handle cmd_epsv arg s = handle_epsv env s
  handle cmd_port arg s = handle_port env arg s
  handle cmd_eprt arg s = handle_eprt env arg s
  handle cmd_list arg s = handle_list env arg s
  handle cmd_nlst arg s = handle_list env arg s
  handle cmd_retr arg s = handle_retr env arg s
  handle cmd_stor arg s = handle_stor env arg s
  handle cmd_appe arg s = handle_appe env arg s
  handle cmd_dele arg s = handle_dele env arg s
  handle cmd_rmd arg s = handle_rmd env arg s
  handle cmd_mkd arg s = handle_mkd env arg s
  handle cmd_rnfr arg s = handle_rnfr env arg s
  handle cmd_rnto arg s = handle_rnto env arg s
  handle cmd_rest arg s = handle_rest env arg s
  handle cmd_size arg s = handle_size env arg s
  handle cmd_mdtm arg s = handle_mdtm env arg s
  handle cmd_auth arg s = send 502 (codes "AUTH not supported on this server") s
  handle cmd_pbsz arg s = send 200 (codes "PBSZ set to 0") s
  handle cmd_prot arg s = handle_prot env arg s
  handle cmd_ccc arg s = send 502 (codes "Not implemented") s
  handle cmd_other arg s = send 502 (codes "Not implemented") s

  outcome_of : Verb → Outcome
  outcome_of cmd_quit = quit
  outcome_of _ = continue

  -- dispatch
  unfoldable pub dispatch : Command → State World → Outcome × State World
  unfolding handle outcome_of open_to_all
  dispatch c s =
      if not s.logged && not (open_to_all (verb_of c.name))
      then (refused (codes "please log in"), s)
      else (outcome_of (verb_of c.name), handle (verb_of c.name) c.arg s)

  parsed : Result Error Command → State World → Outcome × State World
  unfolding dispatch
  parsed (err e) s = (continue, send 500 (codes "Syntax error") s)
  parsed (ok c) s = dispatch c s

  pub next : (State World → State World) → Outcome × State World → State World
  next again (continue, s) = again s
  next again (quit, s) = s
  next again (refused e, s) = again (send 530 e s)

  -- serve, on the lines that ReadString returns until its error.
  unfoldable pub serve : List Bytes → State World → State World
  unfolding parsed next
  serve [] s = s
  serve (line ∷ lines) s = next (serve lines) (parsed (parse line) s)
