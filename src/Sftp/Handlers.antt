-- ===== src/Sftp/Handlers.antt =====
-- The cases of the switch of Serve in sftp/server/server.go, one function each: the request id, the
-- payload behind it, and the state.
use go_protocols.Common.{
  ℕ, Bool, false, leb, take, List, [], ◌∷◌, ◌++◌, ltb, if◌then◌else◌, Bytes, length, drop, Result,
  ok, err,
}
use go_protocols.Common.Decimal.{ℤ, pos, negsuc}
use go_protocols.Common.Text.{codes}
use go_protocols.Sftp.Constants.{type_data, type_name, status_eof}
use go_protocols.Sftp.Packet.{read_string, read_uint32, read_uint64, append_uint32, append_string}
use go_protocols.Sftp.Attr.{encode}
use go_protocols.Sftp.Backend.{Failure, FileStat, Backend}
use go_protocols.Sftp.Server.{
  State, Next, goes, panics, map_err, attr_of, write, send_status, send_attrs, send_handle,
  new_handle, mark_drained, is_drained, forget, field, on, resolving, done,
}

-- The loop over the entries.
unfoldable pub name_list : List FileStat → Bytes → Bytes
name_list [] payload = payload
name_list (e ∷ es) payload =
    name_list es (append_string (append_string payload e.name) [] ++ encode (attr_of e))

-- Whether buf[:n] is within a buffer of this size.
unfoldable pub in_buffer : ℕ → ℤ → Bool
in_buffer size (pos n) = leb n size
in_buffer size (negsuc n) = false

unfoldable pub count_of : ℤ → ℕ
count_of (pos n) = n
count_of (negsuc n) = 0

module _ {World : Type 0} where
  unfoldable pub grant : ℕ → Bytes × State World → Next World
  grant id (h, s) = goes (send_handle id h s)

  -- The handle of a file or directory, sent to the client.
  unfoldable pub give_handle : ℕ → Bytes → State World → Next World
  give_handle id real s = grant id (new_handle real s)

  -- buf[:n] panics for an n that is negative or beyond the buffer.
  unfoldable pub read_result : ℕ → ℕ → Result Failure (ℤ × Bytes) × World → State World → Next World
  unfolding in_buffer count_of
  read_result id size (err e, w) s = goes (
      if e.is_eof
      then send_status id status_eof [] (record s { world = w })
      else send_status id (map_err e) e.text (record s { world = w }))
  read_result id size (ok (n, buf), w) s =
      if in_buffer size n
      then goes (
          write type_data
            (append_uint32 (append_uint32 [] id) (count_of n) ++ take (count_of n) buf)
            (record s { world = w }))
      else panics (record s { world = w })

  unfoldable pub sent_attrs : ℕ → FileStat → State World → Next World
  sent_attrs id st s = goes (send_attrs id st s)

  unfoldable pub sent_names : ℕ → Bytes → List FileStat → State World → Next World
  sent_names id h entries s =
      goes (mark_drained h (write type_name (name_list entries (append_uint32 [] id)) s))

module _ {World : Type 0} (b : Backend World) (id : ℕ) (rest : Bytes) where
  -- case sftp.TypeOpen
  unfoldable pub handle_open : State World → Next World
  handle_open = field id (read_string rest 0) λ path off.
      field id (read_uint32 rest off) λ flags _. on id (b.open_file path flags) (give_handle id)

  unfoldable pub closed : Bytes → Bytes → State World → Next World
  closed h real s = done id tt (forget h (record s { world = (b.close real s.world).1 }))

  -- case sftp.TypeClose
  unfoldable pub handle_close : State World → Next World
  handle_close = field id (read_string rest 0) λ h _. resolving id h (closed h)

  -- case sftp.TypeRead
  unfoldable pub handle_read : State World → Next World
  handle_read = field id (read_string rest 0) λ h off.
      field id (read_uint64 rest off) λ offset off'.
        field id (read_uint32 rest off')
          λ size _. resolving id h λ real s. read_result id size (b.read real offset size s.world) s

  -- case sftp.TypeWrite
  unfoldable pub handle_write : State World → Next World
  handle_write = field id (read_string rest 0) λ h off.
      field id (read_uint64 rest off) λ offset off'.
        field id (read_string rest off')
          λ bytes _. resolving id h λ real. on id (b.write real offset bytes) (done id)

  -- case sftp.TypeStat
  unfoldable pub handle_stat : State World → Next World
  handle_stat = field id (read_string rest 0) λ path _. on id (b.stat path) (sent_attrs id)

  -- case sftp.TypeLstat
  unfoldable pub handle_lstat : State World → Next World
  handle_lstat = field id (read_string rest 0) λ path _. on id (b.lstat path) (sent_attrs id)

  -- case sftp.TypeOpendir
  unfoldable pub handle_opendir : State World → Next World
  handle_opendir =
      field id (read_string rest 0)
        λ path _. on id (b.readdir path) λ entries. give_handle id (codes "dir:" ++ path)

  -- string(real)[4:] panics on a shorter text.
  unfoldable pub listing : Bytes → Bytes → State World → Next World
  listing h real s =
      if ltb (length real) 4 then panics s else on id (b.readdir (drop 4 real)) (sent_names id h) s

  -- case sftp.TypeReaddir
  unfoldable pub handle_readdir : State World → Next World
  handle_readdir = field id (read_string rest 0) λ h _ s.
      if is_drained h s then goes (send_status id status_eof [] s) else resolving id h (listing h) s

  -- case sftp.TypeMkdir
  unfoldable pub handle_mkdir : State World → Next World
  handle_mkdir = field id (read_string rest 0) λ path _. on id (b.mkdir path) (done id)

  -- case sftp.TypeRmdir
  unfoldable pub handle_rmdir : State World → Next World
  handle_rmdir = field id (read_string rest 0) λ path _. on id (b.rmdir path) (done id)

  -- case sftp.TypeRemove
  unfoldable pub handle_remove : State World → Next World
  handle_remove = field id (read_string rest 0) λ path _. on id (b.remove path) (done id)

  -- case sftp.TypeRename
  unfoldable pub handle_rename : State World → Next World
  handle_rename =
      field id (read_string rest 0)
        λ from off. field id (read_string rest off) λ to _. on id (b.rename from to) (done id)
