-- ===== src/Ftp/State/Cases.antt =====
-- The cases of the shared steps of a session, for any predicate of the state.
use go_protocols.Common.{ℕ, [], ◌∷◌, Option, none, some, Bytes, Result, ok, err}
use go_protocols.Common.Text.{codes}
use go_protocols.Ftp.Backend.{Op, Env}
use go_protocols.Ftp.State.{
  Passive, State, send, on_result, on, used, connect, open_data, accept_data, opened, with_data,
  with_world,
}

module _ {World : Type 0} (P : State World → Type 0) where
  on_result_cases :
      {A : Type 0} (r : Result Bytes A × World) (s : State World) (code : ℕ)
      (k : A → State World → State World)
      → ((e : Bytes) (w : World) → P (send code e (record s { world = w })))
      → ((a : A) (w : World) → P (k a (record s { world = w })))
      → P (on_result r s code k)
  unfolding on_result
  on_result_cases (err e, w) s code k failed done = failed e w
  on_result_cases (ok a, w) s code k failed done = done a w

  -- An operation fails with a reply, or goes on with its result.
  pub on_cases :
      {A : Type 0} (op : Op World A) (code : ℕ) (k : A → State World → State World)
      (s : State World)
      → ((e : Bytes) (w : World) → P (send code e (record s { world = w })))
      → ((a : A) (w : World) → P (k a (record s { world = w })))
      → P (on op code k s)
  unfolding on
  on_cases op code k s failed done = on_result_cases (op s.world) s code k failed done

  module _ (env : Env World) (body : ℕ → State World → State World) (s : State World)
      (failed : (e : Bytes) (w : World) (p : Option Passive)
        → P (send 425 e (record s { world = w; passive = p })))
      (done : (conn : ℕ) (w w' : World) (p : Option Passive)
        → P (
            with_world w' (
              body conn (
                send 150
                  (codes "Opening data connection")
                  (record s { world = w; passive = p }))))) where
    opened-used_cases : (r : Result Bytes ℕ × World) → P (opened env body (used r s))
    unfolding opened used
    opened-used_cases (err e, w) = failed e w none
    opened-used_cases (ok conn, w) = done conn w _ none

    connect_cases : (l : Option ℕ) (remote : Bytes) → P (opened env body (connect env l remote s))
    unfolding opened connect
    connect_cases (some l) remote = opened-used_cases (env.accept l s.world)
    connect_cases none [] = failed (codes "no data channel") s.world s.passive
    connect_cases none (c ∷ remote) = opened-used_cases (env.dial (c ∷ remote) s.world)

    opened_cases : (p : Option Passive) → P (opened env body (open_data env p s))
    unfolding opened open_data
    opened_cases none = failed (codes "no data channel set up") s.world s.passive
    opened_cases (some p) = connect_cases p.ln p.remote

    -- A transfer has no data connection, or runs its body behind the reply 150.
    pub with_data_cases : P (with_data env body s)
    unfolding with_data accept_data
    with_data_cases = opened_cases s.passive
