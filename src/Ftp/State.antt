-- ===== src/Ftp/State.antt =====
-- The state of a session in ftp/server/session.go with the steps that its handlers share. The writer
-- takes every reply: errors of the control connection are not modelled.
pub mod Cases
use go_protocols.Common.{
  ℕ, zero, suc, ◌+◌, ◌-◌, Bool, true, false, List, [], ◌∷◌, ◌++◌, Option, none, some, ltb,
  if◌then◌else◌, Bytes, Result, ok, err,
}
use go_protocols.Common.Decimal.{ℤ, pos}
use go_protocols.Common.Text.{codes}
use go_protocols.Ftp.Reply.{Reply, new_reply}
use go_protocols.Ftp.Backend.{User, Op, Env}

-- passiveListener; `none` is a nil listener.
pub record Passive : Type 0 where
  pub ln : Option ℕ
  pub remote : Bytes

-- The fields of session that change, the world and the replies that were sent.
pub record State (World : Type 0) : Type 0 where
  pub user : Bytes
  pub auth : User
  pub logged : Bool
  pub cwd : Bytes
  pub rename_to : Bytes
  pub rest : ℤ
  pub type : Bytes
  pub passive : Option Passive
  pub data_tls : Bool
  pub world : World
  pub sent : List Reply

abbrev pub nobody : User
nobody = record { name = []; home = [] }

abbrev pub is_empty : Bytes → Bool
is_empty [] = true
is_empty (c ∷ cs) = false

module _ {World : Type 0} where
  -- newSession
  unfoldable pub new_session : World → State World
  new_session w = record {
    user = [];
    auth = nobody;
    logged = false;
    cwd = codes "/";
    rename_to = [];
    rest = pos 0;
    type = codes "A";
    passive = none;
    data_tls = false;
    world = w;
    sent = [];
  }

  -- s.reply
  unfoldable pub send : ℕ → Bytes → State World → State World
  send code text s = record s { sent = s.sent ++ new_reply code text ∷ [] }

  on_result :
      {A : Type 0}
      → Result Bytes A × World
      → State World
      → ℕ
      → (A → State World → State World)
      → State World
  unfolding send
  on_result (err e, w) s code k = send code e (record s { world = w })
  on_result (ok a, w) s code k = k a (record s { world = w })

  -- a, err := op(); if err != nil { return s.reply(NewReply(code, err.Error())) }
  unfoldable pub on :
      {A : Type 0} → Op World A → ℕ → (A → State World → State World) → State World → State World
  unfolding on_result
  on op code k s = on_result (op s.world) s code k

  used : Result Bytes ℕ × World → State World → Result Bytes ℕ × State World
  used (r, w) s = (r, record s { world = w; passive = none })

  connect : Env World → Option ℕ → Bytes → State World → Result Bytes ℕ × State World
  unfolding used
  connect env (some l) remote s = used (env.accept l s.world) s
  connect env none [] s = (err (codes "no data channel"), s)
  connect env none (c ∷ remote) s = used (env.dial (c ∷ remote) s.world) s

  open_data : Env World → Option Passive → State World → Result Bytes ℕ × State World
  unfolding connect
  open_data env none s = (err (codes "no data channel set up"), s)
  open_data env (some p) s = connect env p.ln p.remote s

  -- acceptData
  unfoldable pub accept_data : Env World → State World → Result Bytes ℕ × State World
  unfolding open_data
  accept_data env s = open_data env s.passive s

  unfoldable pub with_world : World → State World → State World
  with_world w s = record s { world = w }

  opened : Env World → (ℕ → State World → State World) → Result Bytes ℕ × State World → State World
  unfolding send
  opened env body (err e, s) = send 425 e s
  opened env body (ok conn, s) =
      let t = body conn (send 150 (codes "Opening data connection") s) in
      with_world (env.close conn t.world) t

  -- The part that the transfers share: the data connection, which is closed in the end.
  unfoldable pub with_data : Env World → (ℕ → State World → State World) → State World → State World
  unfolding opened accept_data
  with_data env body s = opened env body (accept_data env s)

  tried : Result Bytes ℕ × World → Op World ℕ → Result Bytes ℕ × World
  tried (ok l, w) again = (ok l, w)
  tried (err e, w) again = again w

  -- The loop over n ports of PassivePortRange.
  unfoldable pub try_ports : Env World → ℕ → ℕ → Op World ℕ
  unfolding tried
  try_ports env zero port w = (err (codes "no passive port available"), w)
  try_ports env (suc n) port w = tried (env.listen port w) (try_ports env n (port + 1))

  -- openPassive
  unfoldable pub open_passive : Env World → Op World ℕ
  unfolding try_ports
  open_passive env w =
      if ltb 0 env.range_end
      then try_ports env (env.range_end + 1 - env.range_start) env.range_start w
      else env.listen 0 w
