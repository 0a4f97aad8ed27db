-- ===== src/Sftp/Server.antt =====
-- The state of Serve in sftp/server/server.go and the steps that its cases share. The channel takes
-- every packet: the results of WritePacket are dropped in the source, too.
pub mod Cases
pub mod Handles
use go_protocols.Common.{
  ℕ, ◌+◌, ◌%◌, ◌^◌, Bool, true, false, not, List, [], ◌∷◌, ◌++◌, Option, none, some, ◌==◌,
  if◌then◌else◌, Bytes, Result, ok, err,
}
use go_protocols.Common.Decimal.{ℤ, pos, decimal}
use go_protocols.Common.Text.{codes}
use go_protocols.Common.Maps.{bytes_key, lookup, insert, delete}
use go_protocols.Sftp.Constants.{
  type_status, type_attrs, type_handle, status_ok, status_no_such_file, status_permission_denied,
  status_failure, status_bad_message,
}
use go_protocols.Sftp.Packet.{
  Packet, Error, short_string, short_uint32, short_uint64, eof, unexpected_eof, unreasonable_length,
  zero_length, append_uint32, append_string,
}
use go_protocols.Sftp.Attr.{FileAttr, zero_time, encode, encode_status}
use go_protocols.Sftp.Backend.{Failure, Op, FileStat}

-- The variables of Serve, the world, and the packets that were written.
pub record State (World : Type 0) : Type 0 where
  pub handles : List (Bytes × Bytes)
  pub drained : List (Bytes × Bool)
  pub next_id : ℕ
  pub world : World
  pub sent : List Packet

-- How a case ends: with the next round, with a return, or with a panic.
pub data Next (World : Type 0) : Type 0 where
  goes stops panics : State World → Next World

-- mapErr, of an error that is not nil.
unfoldable pub map_err : Failure → ℕ
map_err e =
    if e.is_not_exist
    then status_no_such_file
    else if e.is_permission
    then status_permission_denied
    else status_failure

-- The texts of the errors of the reading functions; the others do not reach the client.
unfoldable pub error_text : Error → Bytes
error_text short_string = codes "sftp: read string: short buffer"
error_text short_uint32 = codes "sftp: read u32: short buffer"
error_text short_uint64 = codes "sftp: read u64: short buffer"
error_text eof = []
error_text unexpected_eof = []
error_text unreasonable_length = []
error_text zero_length = []

-- time.Unix(t, 0) unless t is 0
unfoldable pub time_of : ℤ → ℤ
time_of (pos n) = if n == 0 then zero_time else pos n
time_of t = t

-- The attributes of an entry.
unfoldable pub attr_of : FileStat → FileAttr
unfolding time_of
attr_of st = record {
  size = st.size;
  uid = st.uid;
  gid = st.gid;
  mode = st.mode;
  mtime = time_of st.mtime;
  atime = zero_time;
}

-- A key of the map, whose value is false where it has none.
unfoldable pub or_false : Option Bool → Bool
or_false none = false
or_false (some b) = b

module _ {World : Type 0} where
  unfoldable pub write : ℕ → Bytes → State World → State World
  write type payload s = record s {
    sent = s.sent ++ (record { type = type; payload = payload }) ∷ [];
  }

  -- sendStatus
  unfoldable pub send_status : ℕ → ℕ → Bytes → State World → State World
  unfolding write
  send_status id code msg s = write type_status (encode_status id code msg []) s

  -- sendAttrs
  unfoldable pub send_attrs : ℕ → FileStat → State World → State World
  unfolding write attr_of
  send_attrs id st s = write type_attrs (append_uint32 [] id ++ encode (attr_of st)) s

  -- The reply HANDLE.
  unfoldable pub send_handle : ℕ → Bytes → State World → State World
  unfolding write
  send_handle id h s = write type_handle (append_string (append_uint32 [] id) h) s

  -- newHandle: the handle, and the state behind it.
  unfoldable pub new_handle : Bytes → State World → Bytes × State World
  new_handle real s =
      let n = (s.next_id + 1) % 2 ^ 32 in
      let h = b'h' ∷ decimal n in (h, record s { next_id = n; handles = insert h real s.handles })

  -- resolve
  unfoldable pub resolve : Bytes → State World → Option Bytes
  resolve h s = lookup h s.handles

  -- markDrained
  unfoldable pub mark_drained : Bytes → State World → State World
  mark_drained h s = record s { drained = insert h true s.drained }

  -- isDrained
  unfoldable pub is_drained : Bytes → State World → Bool
  unfolding or_false
  is_drained h s = or_false (lookup h s.drained)

  -- drop
  unfoldable pub forget : Bytes → State World → State World
  forget h s = record s { handles = delete h s.handles; drained = delete h s.drained }

  -- if err != nil { return s.sendStatus(ch, id, sftp.StatusBadMessage, err) }
  unfoldable pub field :
      {A : Type 0}
      → ℕ
      → Result Error (A × ℕ)
      → (A → ℕ → State World → Next World)
      → State World
      → Next World
  field id (err e) k s = stops (send_status id status_bad_message (error_text e) s)
  field id (ok (a, off)) k s = k a off s

  on_result :
      {A : Type 0}
      → ℕ
      → Result Failure A × World
      → (A → State World → Next World)
      → State World
      → Next World
  on_result id (err e, w) k s = goes (send_status id (map_err e) e.text (record s { world = w }))
  on_result id (ok a, w) k s = k a (record s { world = w })

  -- if err != nil { _ = s.sendStatus(ch, id, mapErr(err), err.Error()); continue }
  unfoldable pub on :
      {A : Type 0} → ℕ → Op World A → (A → State World → Next World) → State World → Next World
  unfolding on_result
  on id op k s = on_result id (op s.world) k s

  found : ℕ → Option Bytes → (Bytes → State World → Next World) → State World → Next World
  found id none k s = goes (send_status id status_failure (codes "invalid handle") s)
  found id (some real) k s = k real s

  -- real, err := resolve(h), with its error reply
  unfoldable pub resolving :
      ℕ → Bytes → (Bytes → State World → Next World) → State World → Next World
  unfolding found resolve
  resolving id h k s = found id (resolve h s) k s

  -- The reply OK.
  unfoldable pub done : {A : Type 0} → ℕ → A → State World → Next World
  done id a s = goes (send_status id status_ok [] s)
