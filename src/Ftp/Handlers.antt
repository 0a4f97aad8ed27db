-- ===== src/Ftp/Handlers.antt =====
-- The handlers of ftp/server/session.go, one function each.
pub mod Keeps
pub mod Password
pub mod Answers
pub mod Restart
use go_protocols.Common.{
  ℕ, zero, suc, ◌+◌, ◌-◌, ◌/◌, ◌%◌, Bool, true, false, not, ◌&&◌, ◌||◌, List, [], ◌∷◌, ◌++◌, Option,
  none, some, map, replicate, length, equal, ltb, ◌==◌, if◌then◌else◌, Bytes, Result, ok, err,
}
use go_protocols.Common.Decimal.{ℤ, decimal, format_int, parse_int}
use go_protocols.Common.Text.{codes, split, to_upper}
use go_protocols.Ftp.Backend.{User, Entry, Op, Env}
use go_protocols.Ftp.State.{Passive, State, nobody, is_empty, send, on, with_data, open_passive}
use go_protocols.Ftp.Address.{parse_port, trim_space}

unfoldable pad_right : ℕ → Bytes → Bytes
pad_right n s = s ++ replicate (n - length s) b' '

unfoldable pad_left : ℕ → Bytes → Bytes
pad_left n s = replicate (n - length s) b' ' ++ s

unfoldable to_comma : ℕ → ℕ
to_comma c = if c == b'.' then b',' else c

module _ {World : Type 0} (env : Env World) where
  -- handleUSER
  pub handle_user : Bytes → State World → State World
  handle_user arg s =
      send 331 (codes "Password required") (record s { user = arg; auth = nobody; logged = false })

  login : Result Bytes User → State World → State World
  login (err e) s = send 530 e s
  login (ok u) s =
      send 230 (if is_empty env.welcome then codes "Login successful" else env.welcome)
        (record s { auth = u; logged = true; cwd = codes "/" })

  -- handlePASS
  pub handle_pass : Bytes → State World → State World
  handle_pass arg s =
      if is_empty s.user
      then send 530 (codes "Login with USER first") s
      else login (env.authenticate s.user arg) s

  enter : Bytes → Entry → State World → State World
  enter target st s =
      if not st.is_dir
      then send 550 (codes "Not a directory") s
      else send 250 (codes "CWD successful") (record s { cwd = target })

  -- cwd2
  pub handle_cwd : Bytes → State World → State World
  handle_cwd arg s =
      on (env.resolve s.auth s.cwd arg) 550
        (λ target t. on (env.stat t.auth target) 550 (enter target) t) s

  set_type : Bytes → State World → State World
  set_type arg s =
      if equal arg (codes "A") || equal arg (codes "I")
      then send 200 (codes "Type set to " ++ arg) (record s { type = arg })
      else send 500 (codes "Unsupported type") s

  -- type2
  pub handle_type : Bytes → State World → State World
  handle_type arg s = set_type (to_upper arg) s

  unfoldable listening : ℕ → Passive
  listening l = record { ln = some l; remote = [] }

  -- pasv
  pub handle_pasv : State World → State World
  handle_pasv s =
      on (open_passive env) 425
        (λ l t.
          send 227
            (codes "Entering Passive Mode ("
              ++ (map to_comma (env.host_of l)
                  ++ (b','
                      ∷ (decimal (env.port_of l / 256)
                          ++ (b',' ∷ (decimal (env.port_of l % 256) ++ codes ")."))))))
            (record t { passive = some (listening l) }))
        s

  -- epsv
  pub handle_epsv : State World → State World
  handle_epsv s =
      on (open_passive env) 425
        (λ l t.
          send 229
            (codes "Entering Extended Passive Mode (|||"
              ++ (decimal (env.port_of l) ++ codes "|)."))
            (record t { passive = some (listening l) }))
        s

  connect_to : Bytes → Bytes → State World → State World
  connect_to text remote s =
      send 200 text (record s { passive = some (record { ln = none; remote = remote }) })

  port_parsed : Option (Bytes × ℤ) → State World → State World
  port_parsed none s = send 500 (codes "bad PORT") s
  port_parsed (some (host, port)) s =
      connect_to (codes "PORT command successful") (env.join_host_port host (format_int port)) s

  -- port
  pub handle_port : Bytes → State World → State World
  handle_port arg s = port_parsed (parse_port arg) s

  eprt_parsed : Bytes → Option ℤ → State World → State World
  eprt_parsed host none s = send 500 (codes "Bad EPRT port") s
  eprt_parsed host (some port) s =
      connect_to (codes "EPRT command successful") (env.join_host_port host (format_int port)) s

  four_parts : List Bytes → State World → State World
  four_parts (a ∷ host ∷ port ∷ d ∷ []) s = eprt_parsed host (parse_int port) s
  four_parts _ s = send 500 (codes "Bad EPRT") s

  -- eprt
  pub handle_eprt : Bytes → State World → State World
  handle_eprt arg s = four_parts (split b'|' arg) s

  -- formatListEntry
  unfoldable format_list_entry : Entry → Bytes
  format_list_entry e =
      (if e.is_dir then codes "drwxr-xr-x" else codes "-rw-r--r--")
      ++ (codes "   1 "
          ++ (pad_right 8 e.owner
              ++ (b' '
                  ∷ (pad_right 8 e.group
                      ++ (b' '
                          ∷ (pad_left 12 (format_int e.size)
                              ++ (b' ' ∷ (env.list_time e.mod_time ++ (b' ' ∷ e.name)))))))))

  unfoldable write_entries : ℕ → List Entry → World → World
  write_entries conn [] w = w
  write_entries conn (e ∷ es) w =
      write_entries conn es (env.write conn (format_list_entry e ++ (13 ∷ 10 ∷ [])) w)

  send_entries : List Entry → State World → State World
  send_entries entries s =
      with_data env
        (λ conn t.
          send 226 (codes "Transfer complete")
            (record t { world = write_entries conn entries t.world }))
        s

  list_target : Bytes → State World → State World
  list_target target s = on (env.list s.auth target) 550 send_entries s

  -- list
  pub handle_list : Bytes → State World → State World
  handle_list arg s =
      if is_empty arg
      then list_target s.cwd s
      else on (env.resolve s.auth s.cwd arg) 550 list_target s

  -- The body of a transfer: an error of the operation is a reply with the code `failure`.
  finish : ℕ → Op World (Unit {0}) → State World → State World
  finish failure op s = on op failure (λ _ t. send 226 (codes "Transfer complete") t) s

  -- retr
  pub handle_retr : Bytes → State World → State World
  handle_retr arg s =
      on (env.resolve s.auth s.cwd arg) 550
        (λ target t.
          with_data env (λ conn u. finish 426 (env.send_file u.auth target conn u.rest) u) t)
        s

  -- stor
  pub handle_stor : Bytes → State World → State World
  handle_stor arg s =
      on (env.resolve s.auth s.cwd arg) 550
        (λ target t. with_data env (λ conn u. finish 552 (env.recv_file u.auth target conn) u) t) s

  -- appe
  pub handle_appe : Bytes → State World → State World
  handle_appe arg s =
      on (env.resolve s.auth s.cwd arg) 550
        (λ target t. with_data env (λ conn u. finish 552 (env.append_file u.auth target conn) u) t)
        s

  -- dele
  pub handle_dele : Bytes → State World → State World
  handle_dele arg s =
      on (env.resolve s.auth s.cwd arg) 550
        (λ target t. on (env.remove t.auth target) 550 (λ _ u. send 250 (codes "Deleted") u) t) s

  -- rmd
  pub handle_rmd : Bytes → State World → State World
  handle_rmd arg s =
      on (env.resolve s.auth s.cwd arg) 550
        (λ target t. on (env.remove t.auth target) 550 (λ _ u. send 250 (codes "Removed") u) t) s

  -- mkd
  pub handle_mkd : Bytes → State World → State World
  handle_mkd arg s =
      on (env.resolve s.auth s.cwd arg) 550
        (λ target t.
          on (env.mkdir t.auth target) 550
            (λ _ u. send 257 (env.quote target ++ codes " created") u) t)
        s

  -- rnfr
  pub handle_rnfr : Bytes → State World → State World
  handle_rnfr arg s =
      on (env.resolve s.auth s.cwd arg) 550
        (λ target t. send 350 (codes "RNFR accepted") (record t { rename_to = target })) s

  -- rnto
  pub handle_rnto : Bytes → State World → State World
  handle_rnto arg s =
      if is_empty s.rename_to
      then send 500 (codes "Bad sequence") s
      else on (env.resolve s.auth s.cwd arg) 550
          (λ target t.
            on (env.rename t.auth t.rename_to target) 550
              (λ _ u. send 250 (codes "Rename ok") (record u { rename_to = [] })) t)
          s

  restart : Option ℤ → State World → State World
  restart none s = send 500 (codes "Bad REST") s
  restart (some off) s = send 350 (codes "Restart ok") (record s { rest = off })

  -- rest2
  pub handle_rest : Bytes → State World → State World
  handle_rest arg s = restart (parse_int (trim_space arg)) s

  -- size
  pub handle_size : Bytes → State World → State World
  handle_size arg s =
      on (env.resolve s.auth s.cwd arg) 550
        (λ target t. on (env.stat t.auth target) 550 (λ st u. send 213 (format_int st.size) u) t) s

  -- mdtm
  pub handle_mdtm : Bytes → State World → State World
  handle_mdtm arg s =
      on (env.resolve s.auth s.cwd arg) 550
        (λ target t.
          on (env.stat t.auth target) 550 (λ st u. send 213 (env.utc_time st.mod_time) u) t)
        s

  protect : Bytes → State World → State World
  protect arg s =
      if equal arg (codes "C")
      then send 200 (codes "PROT " ++ arg) (record s { data_tls = false })
      else if equal arg (codes "P")
      then send 200 (codes "PROT " ++ arg) (record s { data_tls = true })
      else send 500 (codes "Bad PROT") s

  -- prot
  pub handle_prot : Bytes → State World → State World
  handle_prot arg s = protect (to_upper arg) s
