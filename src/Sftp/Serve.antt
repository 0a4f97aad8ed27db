-- ===== src/Sftp/Serve.antt =====
-- The loop of Serve in sftp/server/server.go. It reads the bytes that the channel will deliver; a
-- packet takes five at least, so one round more than their number is enough fuel.
pub mod Replies
pub mod Stream
pub mod Ends
pub mod Table
pub mod Unknown
pub mod Listing
use go_protocols.Common.{
  ℕ, zero, suc, ◌+◌, Bool, true, false, not, [], ◌∷◌, ◌++◌, ltb, ◌==◌, if◌then◌else◌, Bytes, length,
  take, drop, Result, ok, err,
}
use go_protocols.Common.Text.{codes}
use go_protocols.Sftp.Constants.{
  type_init, type_version, type_open, type_close, type_read, type_write, type_lstat, type_opendir,
  type_readdir, type_remove, type_mkdir, type_rmdir, type_rename, type_stat, status_op_unsupported,
}
use go_protocols.Sftp.Packet.{
  Packet, Error, eof, big_endian, read_packet, append_uint32, unexpected_eof, unreasonable_length,
  zero_length, short_string, short_uint32, short_uint64,
}
use go_protocols.Sftp.Init.{version, read_init}
use go_protocols.Sftp.Backend.{Backend}
use go_protocols.Sftp.Server.{State, Next, goes, stops, panics, write, send_status}
use go_protocols.Sftp.Handlers.{
  handle_open, handle_close, handle_read, handle_write, handle_stat, handle_lstat, handle_opendir,
  handle_readdir, handle_mkdir, handle_rmdir, handle_remove, handle_rename,
}

-- The cases of the switch.
pub data Request : Type 0 where
  req_open req_close req_read req_write req_stat req_lstat req_opendir req_readdir : Request
  req_mkdir req_rmdir req_remove req_rename req_other : Request

unfoldable pub request_of : ℕ → Request
request_of t =
    if t == type_open
    then req_open
    else if t == type_close
    then req_close
    else if t == type_read
    then req_read
    else if t == type_write
    then req_write
    else if t == type_stat
    then req_stat
    else if t == type_lstat
    then req_lstat
    else if t == type_opendir
    then req_opendir
    else if t == type_readdir
    then req_readdir
    else if t == type_mkdir
    then req_mkdir
    else if t == type_rmdir
    then req_rmdir
    else if t == type_remove
    then req_remove
    else if t == type_rename
    then req_rename
    else req_other

-- How Serve ends: with nil at the end of the input, with an error of ReadPacket or of the
-- negotiation, with the return behind a malformed request, with a panic.
pub data Ended : Type 0 where
  finished stopped panicked out_of_fuel : Ended
  broken : Error → Ended
  expected_init unsupported_version : ℕ → Ended

ended_by : Error → Ended
ended_by eof = finished
ended_by unexpected_eof = broken unexpected_eof
ended_by unreasonable_length = broken unreasonable_length
ended_by zero_length = broken zero_length
ended_by short_string = broken short_string
ended_by short_uint32 = broken short_uint32
ended_by short_uint64 = broken short_uint64

-- The id that begins a payload.
unfoldable pub id_of : Packet → ℕ
id_of p = big_endian 0 (take 4 p.payload)

module _ {World : Type 0} (b : Backend World) where
  -- The switch.
  unfoldable pub handle : Request → ℕ → Bytes → State World → Next World
  handle req_open id rest s = handle_open b id rest s
  handle req_close id rest s = handle_close b id rest s
  handle req_read id rest s = handle_read b id rest s
  handle req_write id rest s = handle_write b id rest s
  handle req_stat id rest s = handle_stat b id rest s
  handle req_lstat id rest s = handle_lstat b id rest s
  handle req_opendir id rest s = handle_opendir b id rest s
  handle req_readdir id rest s = handle_readdir b id rest s
  handle req_mkdir id rest s = handle_mkdir b id rest s
  handle req_rmdir id rest s = handle_rmdir b id rest s
  handle req_remove id rest s = handle_remove b id rest s
  handle req_rename id rest s = handle_rename b id rest s
  handle req_other id rest s = goes (send_status id status_op_unsupported (codes "unsupported") s)

  -- One round, behind ReadPacket.
  unfoldable pub step : Packet → State World → Next World
  step p s =
      if ltb (length p.payload) 4
      then goes s
      else handle (request_of p.type) (id_of p) (drop 4 p.payload) s

  pub turn : (State World → Ended × State World) → Next World → Ended × State World
  turn again (goes s) = again s
  turn again (stops s) = (stopped, s)
  turn again (panics s) = (panicked, s)

  after :
      (Bytes → State World → Ended × State World)
      → Result Error (Packet × Bytes)
      → State World
      → Ended × State World
  after again (err e) s = (ended_by e, s)
  after again (ok (p, input)) s = turn (again input) (step p s)

  unfoldable pub loop : ℕ → Bytes → State World → Ended × State World
  unfolding after ended_by turn
  loop zero input s = (out_of_fuel, s)
  loop (suc f) input s = after (loop f) (read_packet input) s

  unfoldable pub first_state : World → State World
  first_state w = record { handles = []; drained = []; next_id = 0; world = w; sent = [] }

  begin : Packet → Bytes → State World → Ended × State World
  begin p input s =
      if not (p.type == type_init)
      then (expected_init p.type, s)
      else elim (read_init p) as (λ r. Ended × State World) [
        | err e ↦ (broken e, s)
        | ok v ↦
            if not (v == version)
            then (unsupported_version v, s)
            else loop (suc (length input)) input (write type_version (append_uint32 [] version) s)
      ]

  greeted : Result Error (Packet × Bytes) → State World → Ended × State World
  greeted (err e) s = (broken e, s)
  greeted (ok (p, input)) s = begin p input s

  -- Serve
  unfoldable pub serve : Bytes → World → Ended × State World
  unfolding greeted begin
  serve input w = greeted (read_packet input) (first_state w)
