-- ===== src/Ftp/Handlers/Password.antt =====
-- What USER and PASS do to the login.
use go_protocols.Common.{◌≡◌, ◌≢◌, refl, true, false, if_cases, equal, Bytes, Result, ok, err}
use go_protocols.Common.Text.{codes, to_upper}
use go_protocols.Ftp.Backend.{User, Env}
use go_protocols.Ftp.State.{State, is_empty, send}
use go_protocols.Ftp.Handlers.{handle_user, login, handle_pass, protect, handle_prot}

module _ {World : Type 0} (env : Env World) where
  -- A session that is logged in has the account that a password opened for its user name.
  unfoldable pub IsAuthentic : State World → Type 0
  IsAuthentic s = s.logged ≡ true → (pass : Bytes) × (env.authenticate s.user pass ≡ ok s.auth)

  -- Nobody is logged in and the world is w.
  pub record IsGuest (w : World) (s : State World) : Type 0 where
    pub same_world : s.world ≡ w
    pub logged_out : s.logged ≡ false

  pub handle_user-IsAuthentic :
      (arg : Bytes) (s : State World) → IsAuthentic (handle_user env arg s)
  unfolding handle_user send IsAuthentic
  handle_user-IsAuthentic arg s e = cc

  pub handle_user-IsGuest :
      (arg : Bytes) (w : World) (s : State World) → IsGuest w s → IsGuest w (handle_user env arg s)
  unfolding handle_user send
  handle_user-IsGuest arg w s g = record { same_world = g.same_world; logged_out = refl }

  login-IsAuthentic :
      (arg : Bytes) (r : Result Bytes User) (s : State World)
      → env.authenticate s.user arg ≡ r
      → IsAuthentic s
      → IsAuthentic (login env r s)
  unfolding login send IsAuthentic
  login-IsAuthentic arg (err e) s q h = h
  login-IsAuthentic arg (ok u) s q h = λ e. (arg, q)

  pub handle_pass-IsAuthentic :
      (arg : Bytes) (s : State World) → IsAuthentic s → IsAuthentic (handle_pass env arg s)
  unfolding handle_pass send IsAuthentic
  handle_pass-IsAuthentic arg s h =
      if_cases IsAuthentic (is_empty s.user) _ _ (λ e. h)
        (λ e. login-IsAuthentic arg (env.authenticate s.user arg) s refl h)

  login-IsGuest :
      (r : Result Bytes User) (w : World) (s : State World)
      → ((x : User) → r ≢ ok x)
      → IsGuest w s
      → IsGuest w (login env r s)
  unfolding login send
  login-IsGuest (err e) w s q g = record { same_world = g.same_world; logged_out = g.logged_out }
  login-IsGuest (ok u) w s q g = absurd (q u refl)

  pub handle_pass-IsGuest :
      (arg : Bytes) (w : World) (s : State World)
      → ((u : Bytes) (x : User) → env.authenticate u arg ≢ ok x)
      → IsGuest w s
      → IsGuest w (handle_pass env arg s)
  unfolding handle_pass send
  handle_pass-IsGuest arg w s q g =
      if_cases (IsGuest w) (is_empty s.user) _ _
        (λ e. record { same_world = g.same_world; logged_out = g.logged_out })
        (λ e. login-IsGuest (env.authenticate s.user arg) w s (q s.user) g)

  pub handle_prot-IsGuest :
      (arg : Bytes) (w : World) (s : State World) → IsGuest w s → IsGuest w (handle_prot env arg s)
  unfolding handle_prot protect send
  handle_prot-IsGuest arg w s g =
      if_cases (IsGuest w) (equal (to_upper arg) (codes "C")) _ _
        (λ e. record { same_world = g.same_world; logged_out = g.logged_out })
        λ e.
          if_cases (IsGuest w) (equal (to_upper arg) (codes "P")) _ _
            (λ e. record { same_world = g.same_world; logged_out = g.logged_out })
            (λ e. record { same_world = g.same_world; logged_out = g.logged_out })
