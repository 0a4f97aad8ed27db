-- ===== src/Ftp/Handlers/Keeps.antt =====
-- What each handler leaves of the login.
use go_protocols.Common.{
  ℕ, ◌≡◌, refl, not, ◌||◌, List, [], ◌∷◌, Option, none, some, equal, if_cases, Bytes,
}
use go_protocols.Common.Decimal.{ℤ, parse_int}
use go_protocols.Common.Text.{codes, split, to_upper}
use go_protocols.Ftp.Backend.{Entry, Op, Env}
use go_protocols.Ftp.State.{State, is_empty, send, with_world, open_passive}
use go_protocols.Ftp.State.Cases.{on_cases, with_data_cases}
use go_protocols.Ftp.Address.{parse_port, trim_space}
use go_protocols.Ftp.Handlers.{
  enter, handle_cwd, set_type, handle_type, handle_pasv, handle_epsv, connect_to, port_parsed,
  handle_port, eprt_parsed, four_parts, handle_eprt, send_entries, list_target, handle_list, finish,
  handle_retr, handle_stor, handle_appe, handle_dele, handle_rmd, handle_mkd, handle_rnfr,
  handle_rnto, restart, handle_rest, handle_size, handle_mdtm, protect, handle_prot,
}

module _ {World : Type 0} where
  -- The same user, under the same login.
  pub record Keeps (s t : State World) : Type 0 where
    pub same_user : t.user ≡ s.user
    pub same_auth : t.auth ≡ s.auth
    pub same_logged : t.logged ≡ s.logged

  kept : {s t : State World} → t.user ≡ s.user → t.auth ≡ s.auth → t.logged ≡ s.logged → Keeps s t
  kept u a l = record { same_user = u; same_auth = a; same_logged = l }

module _ {World : Type 0} (env : Env World) where
  enter-Keeps :
      (target : Bytes) (st : Entry) (s t : State World)
      → Keeps s t
      → Keeps s (enter env target st t)
  unfolding enter send
  enter-Keeps target st s t h =
      if_cases (Keeps s) (not st.is_dir) _ _ (λ e. kept h.same_user h.same_auth h.same_logged)
        (λ e. kept h.same_user h.same_auth h.same_logged)

  pub handle_cwd-Keeps : (arg : Bytes) (s : State World) → Keeps s (handle_cwd env arg s)
  unfolding handle_cwd send
  handle_cwd-Keeps arg s =
      on_cases (Keeps s) _ 550 _ s (λ e w. kept refl refl refl)
        λ target w.
          on_cases (Keeps s) _ 550 _ _ (λ e w. kept refl refl refl)
            λ st w. enter-Keeps target st s _ (kept refl refl refl)

  pub handle_dele-Keeps : (arg : Bytes) (s : State World) → Keeps s (handle_dele env arg s)
  unfolding handle_dele send
  handle_dele-Keeps arg s =
      on_cases (Keeps s) _ 550 _ s (λ e w. kept refl refl refl)
        λ target w.
          on_cases (Keeps s) _ 550 _ _ (λ e w. kept refl refl refl) λ a w. kept refl refl refl

  pub handle_rmd-Keeps : (arg : Bytes) (s : State World) → Keeps s (handle_rmd env arg s)
  unfolding handle_rmd send
  handle_rmd-Keeps arg s =
      on_cases (Keeps s) _ 550 _ s (λ e w. kept refl refl refl)
        λ target w.
          on_cases (Keeps s) _ 550 _ _ (λ e w. kept refl refl refl) λ a w. kept refl refl refl

  pub handle_mkd-Keeps : (arg : Bytes) (s : State World) → Keeps s (handle_mkd env arg s)
  unfolding handle_mkd send
  handle_mkd-Keeps arg s =
      on_cases (Keeps s) _ 550 _ s (λ e w. kept refl refl refl)
        λ target w.
          on_cases (Keeps s) _ 550 _ _ (λ e w. kept refl refl refl) λ a w. kept refl refl refl

  pub handle_size-Keeps : (arg : Bytes) (s : State World) → Keeps s (handle_size env arg s)
  unfolding handle_size send
  handle_size-Keeps arg s =
      on_cases (Keeps s) _ 550 _ s (λ e w. kept refl refl refl)
        λ target w.
          on_cases (Keeps s) _ 550 _ _ (λ e w. kept refl refl refl) λ a w. kept refl refl refl

  pub handle_mdtm-Keeps : (arg : Bytes) (s : State World) → Keeps s (handle_mdtm env arg s)
  unfolding handle_mdtm send
  handle_mdtm-Keeps arg s =
      on_cases (Keeps s) _ 550 _ s (λ e w. kept refl refl refl)
        λ target w.
          on_cases (Keeps s) _ 550 _ _ (λ e w. kept refl refl refl) λ a w. kept refl refl refl

  pub handle_rnfr-Keeps : (arg : Bytes) (s : State World) → Keeps s (handle_rnfr env arg s)
  unfolding handle_rnfr send
  handle_rnfr-Keeps arg s =
      on_cases (Keeps s) _ 550 _ s (λ e w. kept refl refl refl) (λ target w. kept refl refl refl)

  pub handle_rnto-Keeps : (arg : Bytes) (s : State World) → Keeps s (handle_rnto env arg s)
  unfolding handle_rnto send
  handle_rnto-Keeps arg s =
      if_cases (Keeps s) (is_empty s.rename_to) _ _ (λ e. kept refl refl refl)
        λ e.
          on_cases (Keeps s) _ 550 _ s (λ e w. kept refl refl refl)
            λ target w.
              on_cases (Keeps s) _ 550 _ _ (λ e w. kept refl refl refl) λ a w. kept refl refl refl

  set_type-Keeps : (arg : Bytes) (s : State World) → Keeps s (set_type env arg s)
  unfolding set_type send
  set_type-Keeps arg s =
      if_cases (Keeps s) (equal arg (codes "A") || equal arg (codes "I")) _ _
        (λ e. kept refl refl refl) (λ e. kept refl refl refl)

  pub handle_type-Keeps : (arg : Bytes) (s : State World) → Keeps s (handle_type env arg s)
  unfolding handle_type
  handle_type-Keeps arg s = set_type-Keeps (to_upper arg) s

  pub handle_pasv-Keeps : (s : State World) → Keeps s (handle_pasv env s)
  unfolding handle_pasv send
  handle_pasv-Keeps s =
      on_cases (Keeps s) (open_passive env) 425 _ s (λ e w. kept refl refl refl)
        (λ l w. kept refl refl refl)

  pub handle_epsv-Keeps : (s : State World) → Keeps s (handle_epsv env s)
  unfolding handle_epsv send
  handle_epsv-Keeps s =
      on_cases (Keeps s) (open_passive env) 425 _ s (λ e w. kept refl refl refl)
        (λ l w. kept refl refl refl)

  port_parsed-Keeps : (r : Option (Bytes × ℤ)) (s : State World) → Keeps s (port_parsed env r s)
  unfolding port_parsed connect_to send
  port_parsed-Keeps none s = kept refl refl refl
  port_parsed-Keeps (some r) s = kept refl refl refl

  pub handle_port-Keeps : (arg : Bytes) (s : State World) → Keeps s (handle_port env arg s)
  unfolding handle_port
  handle_port-Keeps arg s = port_parsed-Keeps (parse_port arg) s

  eprt_parsed-Keeps :
      (host : Bytes) (r : Option ℤ) (s : State World) → Keeps s (eprt_parsed env host r s)
  unfolding eprt_parsed connect_to send
  eprt_parsed-Keeps host none s = kept refl refl refl
  eprt_parsed-Keeps host (some r) s = kept refl refl refl

  four_parts-Keeps : (parts : List Bytes) (s : State World) → Keeps s (four_parts env parts s)
  unfolding four_parts send
  four_parts-Keeps [] s = kept refl refl refl
  four_parts-Keeps (a ∷ []) s = kept refl refl refl
  four_parts-Keeps (a ∷ b ∷ []) s = kept refl refl refl
  four_parts-Keeps (a ∷ b ∷ c ∷ []) s = kept refl refl refl
  four_parts-Keeps (a ∷ b ∷ c ∷ d ∷ []) s = eprt_parsed-Keeps b (parse_int c) s
  four_parts-Keeps (a ∷ b ∷ c ∷ d ∷ e ∷ f) s = kept refl refl refl

  pub handle_eprt-Keeps : (arg : Bytes) (s : State World) → Keeps s (handle_eprt env arg s)
  unfolding handle_eprt
  handle_eprt-Keeps arg s = four_parts-Keeps (split b'|' arg) s

  pub world-Keeps : {s t : State World} (w : World) → Keeps s t → Keeps s (with_world w t)
  unfolding with_world
  world-Keeps w h = kept h.same_user h.same_auth h.same_logged

  list_target-Keeps :
      (target : Bytes) (s t : State World) → Keeps s t → Keeps s (list_target env target t)
  unfolding list_target send_entries send
  list_target-Keeps target s t h =
      on_cases (Keeps s) _ 550 _ t (λ e w. kept h.same_user h.same_auth h.same_logged)
        λ entries w.
          with_data_cases (Keeps s) env _ _ (λ e w p. kept h.same_user h.same_auth h.same_logged)
            (λ conn w w' p. world-Keeps w' (kept h.same_user h.same_auth h.same_logged))

  pub handle_list-Keeps : (arg : Bytes) (s : State World) → Keeps s (handle_list env arg s)
  unfolding handle_list send
  handle_list-Keeps arg s =
      if_cases (Keeps s) (is_empty arg) _ _ (λ e. list_target-Keeps s.cwd s s (kept refl refl refl))
        λ e.
          on_cases (Keeps s) _ 550 _ s (λ e w. kept refl refl refl)
            λ target w. list_target-Keeps target s _ (kept refl refl refl)

  finish-Keeps :
      (failure : ℕ) (op : Op World (Unit {0})) (s t : State World)
      → Keeps s t
      → Keeps s (finish env failure op t)
  unfolding finish send
  finish-Keeps failure op s t h =
      on_cases (Keeps s) op failure _ t (λ e w. kept h.same_user h.same_auth h.same_logged)
        (λ a w. kept h.same_user h.same_auth h.same_logged)

  pub handle_retr-Keeps : (arg : Bytes) (s : State World) → Keeps s (handle_retr env arg s)
  unfolding handle_retr send
  handle_retr-Keeps arg s =
      on_cases (Keeps s) _ 550 _ s (λ e w. kept refl refl refl)
        λ target w.
          with_data_cases (Keeps s) env _ _ (λ e w p. kept refl refl refl)
            (λ conn w w' p. world-Keeps w' (finish-Keeps _ _ s _ (kept refl refl refl)))

  pub handle_stor-Keeps : (arg : Bytes) (s : State World) → Keeps s (handle_stor env arg s)
  unfolding handle_stor send
  handle_stor-Keeps arg s =
      on_cases (Keeps s) _ 550 _ s (λ e w. kept refl refl refl)
        λ target w.
          with_data_cases (Keeps s) env _ _ (λ e w p. kept refl refl refl)
            (λ conn w w' p. world-Keeps w' (finish-Keeps _ _ s _ (kept refl refl refl)))

  pub handle_appe-Keeps : (arg : Bytes) (s : State World) → Keeps s (handle_appe env arg s)
  unfolding handle_appe send
  handle_appe-Keeps arg s =
      on_cases (Keeps s) _ 550 _ s (λ e w. kept refl refl refl)
        λ target w.
          with_data_cases (Keeps s) env _ _ (λ e w p. kept refl refl refl)
            (λ conn w w' p. world-Keeps w' (finish-Keeps _ _ s _ (kept refl refl refl)))

  restart-Keeps : (r : Option ℤ) (s : State World) → Keeps s (restart env r s)
  unfolding restart send
  restart-Keeps none s = kept refl refl refl
  restart-Keeps (some off) s = kept refl refl refl

  pub handle_rest-Keeps : (arg : Bytes) (s : State World) → Keeps s (handle_rest env arg s)
  unfolding handle_rest
  handle_rest-Keeps arg s = restart-Keeps (parse_int (trim_space arg)) s

  protect-Keeps : (arg : Bytes) (s : State World) → Keeps s (protect env arg s)
  unfolding protect send
  protect-Keeps arg s =
      if_cases (Keeps s) (equal arg (codes "C")) _ _ (λ e. kept refl refl refl)
        λ e.
          if_cases (Keeps s) (equal arg (codes "P")) _ _ (λ e. kept refl refl refl)
            (λ e. kept refl refl refl)

  pub handle_prot-Keeps : (arg : Bytes) (s : State World) → Keeps s (handle_prot env arg s)
  unfolding handle_prot
  handle_prot-Keeps arg s = protect-Keeps (to_upper arg) s
