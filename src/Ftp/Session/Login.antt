-- ===== src/Ftp/Session/Login.antt =====
-- Who is logged in, over a whole session.
use go_protocols.Common.{not, ◌&&◌, List, [], ◌∷◌, if_cases, Bytes, Result, ok, err}
use go_protocols.Common.Text.{codes}
use go_protocols.Ftp.Command.{
  Command, Error, parse, Verb, verb_of, cmd_user, cmd_pass, cmd_quit, cmd_noop, cmd_syst, cmd_feat,
  cmd_help, cmd_pwd, cmd_cwd, cmd_cdup, cmd_type, cmd_pasv, cmd_epsv, cmd_port, cmd_eprt, cmd_list,
  cmd_nlst, cmd_retr, cmd_stor, cmd_appe, cmd_dele, cmd_rmd, cmd_mkd, cmd_rnfr, cmd_rnto, cmd_rest,
  cmd_size, cmd_mdtm, cmd_auth, cmd_pbsz, cmd_prot, cmd_ccc, cmd_other,
}
use go_protocols.Ftp.Backend.{Env}
use go_protocols.Ftp.State.{State, send}
use go_protocols.Ftp.Handlers.Keeps.{
  Keeps, handle_appe-Keeps, handle_cwd-Keeps, handle_dele-Keeps, handle_eprt-Keeps,
  handle_epsv-Keeps, handle_list-Keeps, handle_mdtm-Keeps, handle_mkd-Keeps, handle_pasv-Keeps,
  handle_port-Keeps, handle_prot-Keeps, handle_rest-Keeps, handle_retr-Keeps, handle_rmd-Keeps,
  handle_rnfr-Keeps, handle_rnto-Keeps, handle_size-Keeps, handle_stor-Keeps, handle_type-Keeps,
}
use go_protocols.Ftp.Handlers.Password.{
  IsAuthentic, handle_user-IsAuthentic, handle_pass-IsAuthentic,
}
use go_protocols.Ftp.Session.{
  Outcome, continue, quit, refused, open_to_all, handle, dispatch, parsed, next, serve,
}

-- What holds of the state behind a line holds where `next` goes on, when a reply keeps it.
pub next_cases :
    {World : Type 0} (P : State World → Type 0) (env : Env World)
    (again : State World → State World) (o : Outcome) (s : State World)
    → ((e : Bytes) (t : State World) → P t → P (send 530 e t))
    → ((t : State World) → P t → P (again t))
    → P s
    → P (next env again (o, s))
unfolding next
next_cases P env again continue s reply rest h = rest s h
next_cases P env again quit s reply rest h = h
next_cases P env again (refused e) s reply rest h = rest _ (reply e s h)

module _ {World : Type 0} (env : Env World) where
  kept-IsAuthentic : (s t : State World) → Keeps s t → IsAuthentic env s → IsAuthentic env t
  unfolding IsAuthentic
  kept-IsAuthentic s t k h = rw (k.same_logged, k.same_user, k.same_auth) h

  handle-IsAuthentic :
      (v : Verb) (arg : Bytes) (s : State World)
      → IsAuthentic env s
      → IsAuthentic env (handle env v arg s)
  unfolding handle send IsAuthentic
  handle-IsAuthentic cmd_user arg s h = handle_user-IsAuthentic env arg s
  handle-IsAuthentic cmd_pass arg s h = handle_pass-IsAuthentic env arg s h
  handle-IsAuthentic cmd_quit arg s h = h
  handle-IsAuthentic cmd_noop arg s h = h
  handle-IsAuthentic cmd_syst arg s h = h
  handle-IsAuthentic cmd_feat arg s h = h
  handle-IsAuthentic cmd_help arg s h = h
  handle-IsAuthentic cmd_pwd arg s h = h
  handle-IsAuthentic cmd_cwd arg s h = kept-IsAuthentic s _ (handle_cwd-Keeps env arg s) h
  handle-IsAuthentic cmd_cdup arg s h = kept-IsAuthentic s _ (handle_cwd-Keeps env (codes "..") s) h
  handle-IsAuthentic cmd_type arg s h = kept-IsAuthentic s _ (handle_type-Keeps env arg s) h
  handle-IsAuthentic cmd_pasv arg s h = kept-IsAuthentic s _ (handle_pasv-Keeps env s) h
  handle-IsAuthentic cmd_epsv arg s h = kept-IsAuthentic s _ (handle_epsv-Keeps env s) h
  handle-IsAuthentic cmd_port arg s h = kept-IsAuthentic s _ (handle_port-Keeps env arg s) h
  handle-IsAuthentic cmd_eprt arg s h = kept-IsAuthentic s _ (handle_eprt-Keeps env arg s) h
  handle-IsAuthentic cmd_list arg s h = kept-IsAuthentic s _ (handle_list-Keeps env arg s) h
  handle-IsAuthentic cmd_nlst arg s h = kept-IsAuthentic s _ (handle_list-Keeps env arg s) h
  handle-IsAuthentic cmd_retr arg s h = kept-IsAuthentic s _ (handle_retr-Keeps env arg s) h
  handle-IsAuthentic cmd_stor arg s h = kept-IsAuthentic s _ (handle_stor-Keeps env arg s) h
  handle-IsAuthentic cmd_appe arg s h = kept-IsAuthentic s _ (handle_appe-Keeps env arg s) h
  handle-IsAuthentic cmd_dele arg s h = kept-IsAuthentic s _ (handle_dele-Keeps env arg s) h
  handle-IsAuthentic cmd_rmd arg s h = kept-IsAuthentic s _ (handle_rmd-Keeps env arg s) h
  handle-IsAuthentic cmd_mkd arg s h = kept-IsAuthentic s _ (handle_mkd-Keeps env arg s) h
  handle-IsAuthentic cmd_rnfr arg s h = kept-IsAuthentic s _ (handle_rnfr-Keeps env arg s) h
  handle-IsAuthentic cmd_rnto arg s h = kept-IsAuthentic s _ (handle_rnto-Keeps env arg s) h
  handle-IsAuthentic cmd_rest arg s h = kept-IsAuthentic s _ (handle_rest-Keeps env arg s) h
  handle-IsAuthentic cmd_size arg s h = kept-IsAuthentic s _ (handle_size-Keeps env arg s) h
  handle-IsAuthentic cmd_mdtm arg s h = kept-IsAuthentic s _ (handle_mdtm-Keeps env arg s) h
  handle-IsAuthentic cmd_auth arg s h = h
  handle-IsAuthentic cmd_pbsz arg s h = h
  handle-IsAuthentic cmd_prot arg s h = kept-IsAuthentic s _ (handle_prot-Keeps env arg s) h
  handle-IsAuthentic cmd_ccc arg s h = h
  handle-IsAuthentic cmd_other arg s h = h

  dispatch-IsAuthentic :
      (c : Command) (s : State World) → IsAuthentic env s → IsAuthentic env (dispatch env c s).1
  unfolding dispatch
  dispatch-IsAuthentic c s h =
      if_cases {A = Outcome × State World} (λ r. IsAuthentic env r.1)
        (not s.logged && not (open_to_all (verb_of c.name))) _ _ (λ e. h)
        (λ e. handle-IsAuthentic (verb_of c.name) c.arg s h)

  send-IsAuthentic :
      (e : Bytes) (t : State World) → IsAuthentic env t → IsAuthentic env (send 530 e t)
  unfolding send IsAuthentic
  send-IsAuthentic e t h = h

  parsed-IsAuthentic :
      (r : Result Error Command) (s : State World)
      → IsAuthentic env s
      → IsAuthentic env (parsed env r s).1
  unfolding parsed send IsAuthentic
  parsed-IsAuthentic (err e) s h = h
  parsed-IsAuthentic (ok c) s h = dispatch-IsAuthentic c s h

  -- Over any lines, a session that is logged in has the account that the authenticator gave for
  -- its user name and some password, if that held before.
  pub serve-IsAuthentic :
      (lines : List Bytes) (s : State World)
      → IsAuthentic env s
      → IsAuthentic env (serve env lines s)
  unfolding serve
  serve-IsAuthentic [] s h = h
  serve-IsAuthentic (line ∷ lines) s h =
      next_cases (IsAuthentic env) env (serve env lines) (parsed env (parse line) s).0
        (parsed env (parse line) s).1 send-IsAuthentic (serve-IsAuthentic lines)
        (parsed-IsAuthentic (parse line) s h)
