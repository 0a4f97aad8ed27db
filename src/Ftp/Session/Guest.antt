-- ===== src/Ftp/Session/Guest.antt =====
-- A session in which no password is right.
use go_protocols.Common.{
  ◌≡◌, ◌≢◌, refl, true, not, ◌&&◌, List, [], ◌∷◌, if_cases, Bytes, Result, ok, err, All, arith,
}
use go_protocols.Ftp.Command.{
  Command, Error, parse, Verb, verb_of, cmd_user, cmd_pass, cmd_quit, cmd_noop, cmd_syst, cmd_feat,
  cmd_help, cmd_pwd, cmd_cwd, cmd_cdup, cmd_type, cmd_pasv, cmd_epsv, cmd_port, cmd_eprt, cmd_list,
  cmd_nlst, cmd_retr, cmd_stor, cmd_appe, cmd_dele, cmd_rmd, cmd_mkd, cmd_rnfr, cmd_rnto, cmd_rest,
  cmd_size, cmd_mdtm, cmd_auth, cmd_pbsz, cmd_prot, cmd_ccc, cmd_other,
}
use go_protocols.Ftp.Backend.{User, Env}
use go_protocols.Ftp.State.{State, send}
use go_protocols.Ftp.Handlers.Password.{
  IsGuest, handle_user-IsGuest, handle_pass-IsGuest, handle_prot-IsGuest,
}
use go_protocols.Ftp.Session.{Outcome, open_to_all, handle, dispatch, parsed, serve}
use go_protocols.Ftp.Session.Login.{next_cases}

module _ {World : Type 0} (env : Env World) where
  -- The authenticator takes this password from nobody.
  abbrev pub IsWrong : Bytes → Type 0
  IsWrong pass = (u : Bytes) (x : User) → env.authenticate u pass ≢ ok x

  -- The line is no PASS command with a password that is right for somebody.
  abbrev pub IsHarmless : Bytes → Type 0
  IsHarmless line = (c : Command) → parse line ≡ ok c → verb_of c.name ≡ cmd_pass → IsWrong c.arg

  handle-IsGuest :
      (v : Verb) (arg : Bytes) (w : World) (s : State World)
      → open_to_all v ≡ true
      → (v ≡ cmd_pass → IsWrong arg)
      → IsGuest env w s
      → IsGuest env w (handle env v arg s)
  unfolding handle send open_to_all
  handle-IsGuest cmd_user arg w s o r g = handle_user-IsGuest env arg w s g
  handle-IsGuest cmd_pass arg w s o r g = handle_pass-IsGuest env arg w s (r refl) g
  handle-IsGuest cmd_quit arg w s o r g = record {
    same_world = g.same_world;
    logged_out = g.logged_out;
  }
  handle-IsGuest cmd_noop arg w s o r g = record {
    same_world = g.same_world;
    logged_out = g.logged_out;
  }
  handle-IsGuest cmd_syst arg w s o r g = record {
    same_world = g.same_world;
    logged_out = g.logged_out;
  }
  handle-IsGuest cmd_feat arg w s o r g = record {
    same_world = g.same_world;
    logged_out = g.logged_out;
  }
  handle-IsGuest cmd_help arg w s o r g = record {
    same_world = g.same_world;
    logged_out = g.logged_out;
  }
  handle-IsGuest cmd_pwd arg w s o r g = cc
  handle-IsGuest cmd_cwd arg w s o r g = cc
  handle-IsGuest cmd_cdup arg w s o r g = cc
  handle-IsGuest cmd_type arg w s o r g = cc
  handle-IsGuest cmd_pasv arg w s o r g = cc
  handle-IsGuest cmd_epsv arg w s o r g = cc
  handle-IsGuest cmd_port arg w s o r g = cc
  handle-IsGuest cmd_eprt arg w s o r g = cc
  handle-IsGuest cmd_list arg w s o r g = cc
  handle-IsGuest cmd_nlst arg w s o r g = cc
  handle-IsGuest cmd_retr arg w s o r g = cc
  handle-IsGuest cmd_stor arg w s o r g = cc
  handle-IsGuest cmd_appe arg w s o r g = cc
  handle-IsGuest cmd_dele arg w s o r g = cc
  handle-IsGuest cmd_rmd arg w s o r g = cc
  handle-IsGuest cmd_mkd arg w s o r g = cc
  handle-IsGuest cmd_rnfr arg w s o r g = cc
  handle-IsGuest cmd_rnto arg w s o r g = cc
  handle-IsGuest cmd_rest arg w s o r g = cc
  handle-IsGuest cmd_size arg w s o r g = cc
  handle-IsGuest cmd_mdtm arg w s o r g = cc
  handle-IsGuest cmd_auth arg w s o r g = record {
    same_world = g.same_world;
    logged_out = g.logged_out;
  }
  handle-IsGuest cmd_pbsz arg w s o r g = record {
    same_world = g.same_world;
    logged_out = g.logged_out;
  }
  handle-IsGuest cmd_prot arg w s o r g = handle_prot-IsGuest env arg w s g
  handle-IsGuest cmd_ccc arg w s o r g = record {
    same_world = g.same_world;
    logged_out = g.logged_out;
  }
  handle-IsGuest cmd_other arg w s o r g = cc

  dispatch-IsGuest :
      (c : Command) (w : World) (s : State World)
      → (verb_of c.name ≡ cmd_pass → IsWrong c.arg)
      → IsGuest env w s
      → IsGuest env w (dispatch env c s).1
  unfolding dispatch
  dispatch-IsGuest c w s r g =
      if_cases {A = Outcome × State World} (λ t. IsGuest env w t.1)
        (not s.logged && not (open_to_all (verb_of c.name))) _ _ (λ e. g)
        (λ e.
          handle-IsGuest (verb_of c.name) c.arg w s (let l = g.logged_out in ground (arith, e, l)) r
            g)

  send-IsGuest :
      (w : World) (e : Bytes) (t : State World) → IsGuest env w t → IsGuest env w (send 530 e t)
  unfolding send
  send-IsGuest w e t g = record { same_world = g.same_world; logged_out = g.logged_out }

  parsed-IsGuest :
      (line : Bytes) (r : Result Error Command) (w : World) (s : State World)
      → parse line ≡ r
      → IsHarmless line
      → IsGuest env w s
      → IsGuest env w (parsed env r s).1
  unfolding parsed send
  parsed-IsGuest line (err e) w s q h g = record {
    same_world = g.same_world;
    logged_out = g.logged_out;
  }
  parsed-IsGuest line (ok c) w s q h g = dispatch-IsGuest c w s (h c q) g

  -- While no line is a PASS command with a password that is right for somebody, a session that is
  -- not logged in stays so, and does nothing to the filesystem or the network.
  pub serve-IsGuest :
      (lines : List Bytes) (w : World) (s : State World)
      → All IsHarmless lines
      → IsGuest env w s
      → IsGuest env w (serve env lines s)
  unfolding serve
  serve-IsGuest [] w s h g = g
  serve-IsGuest (line ∷ lines) w s h g =
      next_cases (IsGuest env w) env (serve env lines) (parsed env (parse line) s).0
        (parsed env (parse line) s).1 (send-IsGuest w) (λ t. serve-IsGuest lines w t h.1)
        (parsed-IsGuest line (parse line) w s refl h.0 g)
