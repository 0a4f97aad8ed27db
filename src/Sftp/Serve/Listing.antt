-- ===== src/Sftp/Serve/Listing.antt =====
-- A directory is listed once.
use go_protocols.Common.{
  ℕ, ◌≤◌, ◌≡◌, refl, true, false, List, [], ◌∷◌, ◌++◌, some, ltb, Bytes, length, drop, ok,
  equal_refl, arith,
}
use go_protocols.Common.Maps.{bytes_key, lookup-insert}
use go_protocols.Sftp.Constants.{type_name, status_eof}
use go_protocols.Sftp.Packet.{read_string, append_uint32}
use go_protocols.Sftp.Backend.{FileStat, Backend}
use go_protocols.Sftp.Server.{
  State, goes, or_false, write, send_status, mark_drained, is_drained, field, on, resolve,
  resolving,
}
use go_protocols.Sftp.Handlers.{name_list, sent_names, listing, handle_readdir}

module _ {World : Type 0} (b : Backend World) (rest : Bytes) (s : State World) (h real : Bytes)
    (off : ℕ) (e : read_string rest 0 ≡ ok (h, off)) where
  -- The state behind the reply NAME.
  abbrev named_state : ℕ → List FileStat → World → State World
  named_state id es w =
      mark_drained h (write type_name (name_list es (append_uint32 [] id)) (record s { world = w }))

  lists :
      (id : ℕ) (es : List FileStat) (w : World)
      → is_drained h s ≡ false
      → resolve h s ≡ some real
      → 4 ≤ length real
      → b.readdir (drop 4 real) s.world ≡ (ok es, w)
      → handle_readdir b id rest s ≡ goes (named_state id es w)
  unfolding handle_readdir field resolving listing on sent_names
  lists id es w fresh known long done =
      let enough : ltb (length real) 4 ≡ false = ground arith in
      rw (e) (rw fresh (rw known (rw enough (rw done))))

  ends :
      (id : ℕ)
      → is_drained h s ≡ true
      → handle_readdir b id rest s ≡ goes (send_status id status_eof [] s)
  unfolding handle_readdir field
  ends id d = rw (e) (rw d)

named-drained :
    {World : Type 0} (s : State World) (h : Bytes) (type : ℕ) (payload : Bytes) (w : World)
    → is_drained h (mark_drained h (write type payload (record s { world = w }))) ≡ true
unfolding is_drained mark_drained or_false write
named-drained s h type payload w = rw (lookup-insert h h true s.drained, equal_refl h)

-- READDIR of an open directory that is not drained, and that the backend lists, sends its
-- entries; the next READDIR of the same handle answers with the end of file, and leaves all else
-- as it is.
pub handle_readdir-once :
    {World : Type 0} (b : Backend World) (id id' : ℕ) (rest rest' : Bytes) (s : State World)
    (h real : Bytes) (off off' : ℕ) (es : List FileStat) (w : World)
    → read_string rest 0 ≡ ok (h, off)
    → read_string rest' 0 ≡ ok (h, off')
    → is_drained h s ≡ false
    → resolve h s ≡ some real
    → 4 ≤ length real
    → b.readdir (drop 4 real) s.world ≡ (ok es, w)
    → (t : State World) × (handle_readdir b id rest s ≡ goes t)
      × (t.sent
          ≡ s.sent
            ++ (record { type = type_name; payload = name_list es (append_uint32 [] id) }) ∷ [])
      × (handle_readdir b id' rest' t ≡ goes (send_status id' status_eof [] t))
unfolding mark_drained write
handle_readdir-once b id id' rest rest' s h real off off' es w e e' fresh known long done =
    let t = named_state b rest s h real off e id es w in
    (
      t,
      lists b rest s h real off e id es w fresh known long done,
      refl,
      ends b rest' t h real off' e' id' (named-drained s h _ _ w),
    )
