-- ===== src/Sftp/Attr/RoundTrip.antt =====
-- Attributes come back as they were written.
use go_protocols.Common.{
  ℕ, ◌^◌, ◌<◌, ◌≡◌, refl, ap, ◌∙◌, ◌⊎◌, inl, inr, Bool, true, false, not, ◌||◌, ◌++◌, ◌==◌, sym,
  if◌then◌else◌, Bytes, length, append-nil, append_assoc, ok, ◌>>=◌, arith,
}
use go_protocols.Common.Decimal.{ℤ, pos, negsuc}
use go_protocols.Sftp.Packet.{put_uint32, append_uint32, append_uint64}
use go_protocols.Sftp.Packet.Reads.{put_uint64, read_uint32-at}
use go_protocols.Sftp.Attr.{
  zero_time, is_zero, to_uint32, FileAttr, no_attr, raise, has, flags_of, put_size, put_ids,
  put_mode, put_mtime, put_atime, put_fields, encode, get_size, get_uid_gid, get_mode, get_mtime,
  get_atime, decode_attrs,
}
use go_protocols.Sftp.Attr.Fields.{
  word, IsWord, word-IsWord, Reads, field, number, get_size-Reads, get_uid_gid-Reads,
  get_mode-Reads, get_mtime-Reads, get_atime-Reads, then_Reads,
}

unfoldable pub IsTime : ℤ → Type 0
IsTime t = (t ≡ zero_time) ⊎ ((n : ℕ) × (t ≡ pos n) × (n < 2 ^ 32))

-- Numbers that fit the wire format: a time is the zero time, or one from 1970 to 2106.
pub record IsWire (a : FileAttr) : Type 0 where
  pub size_small : a.size < 2 ^ 64
  pub uid_small : a.uid < 2 ^ 32
  pub gid_small : a.gid < 2 ^ 32
  pub mode_small : a.mode < 2 ^ 32
  pub mtime_time : IsTime a.mtime
  pub atime_time : IsTime a.atime

time_kept : (t : ℤ) → IsTime t → (if not (is_zero t) then pos (to_uint32 t) else zero_time) ≡ t
unfolding is_zero to_uint32 IsTime
time_kept t (inl e) = rw e
time_kept t (inr (n, e, h)) = rw e (ap pos (omega arith))

to_uint32_small : (t : ℤ) → to_uint32 t < 2 ^ 32
unfolding to_uint32
to_uint32_small (pos n) = omega arith
to_uint32_small (negsuc n) = omega arith

number_kept : (v : ℕ) → (if not (v == 0) then v else 0) ≡ v
number_kept v = ground arith

add_field : (b : Bool) (buf w : Bytes) → (if b then buf ++ w else buf) ≡ buf ++ field b w
add_field true buf w = refl
add_field false buf w = sym (append-nil buf)

module _ (a : FileAttr) where
  abbrev has_size : Bool
  has_size = not (a.size == 0)

  abbrev has_ids : Bool
  has_ids = not (a.uid == 0) || not (a.gid == 0)

  abbrev has_mode : Bool
  has_mode = not (a.mode == 0)

  abbrev has_mtime : Bool
  has_mtime = not (is_zero a.mtime)

  abbrev has_atime : Bool
  has_atime = not (is_zero a.atime)

  -- The bytes behind the flags.
  abbrev fields : Bytes
  fields =
      field has_size (put_uint64 a.size)
      ++ (field has_ids (put_uint32 a.uid ++ put_uint32 a.gid)
          ++ (field has_mode (put_uint32 a.mode)
              ++ (field has_mtime (put_uint32 (to_uint32 a.mtime))
                  ++ field has_atime (put_uint32 (to_uint32 a.atime)))))

  flags_of-IsWord : IsWord (flags_of a) has_size has_ids has_mode has_mtime has_atime
  unfolding flags_of raise
  flags_of-IsWord = unfold word in word-IsWord has_size has_ids has_mode has_mtime has_atime

  put_size-field :
      (w : ℕ) (buf : Bytes)
      → has w 0x01 ≡ has_size
      → put_size w a buf ≡ buf ++ field has_size (put_uint64 a.size)
  unfolding put_size append_uint64
  put_size-field w buf e = rw e (add_field has_size buf (put_uint64 a.size))

  put_ids-field :
      (w : ℕ) (buf : Bytes)
      → has w 0x02 ≡ has_ids
      → put_ids w a buf ≡ buf ++ field has_ids (put_uint32 a.uid ++ put_uint32 a.gid)
  unfolding put_ids append_uint32
  put_ids-field w buf e = rw e (
      rw (append_assoc buf (put_uint32 a.uid) (put_uint32 a.gid))
        (add_field has_ids buf (put_uint32 a.uid ++ put_uint32 a.gid)))

  put_mode-field :
      (w : ℕ) (buf : Bytes)
      → has w 0x04 ≡ has_mode
      → put_mode w a buf ≡ buf ++ field has_mode (put_uint32 a.mode)
  unfolding put_mode append_uint32
  put_mode-field w buf e = rw e (add_field has_mode buf (put_uint32 a.mode))

  put_mtime-field :
      (w : ℕ) (buf : Bytes)
      → has w 0x08 ≡ has_mtime
      → put_mtime w a buf ≡ buf ++ field has_mtime (put_uint32 (to_uint32 a.mtime))
  unfolding put_mtime append_uint32
  put_mtime-field w buf e = rw e (add_field has_mtime buf (put_uint32 (to_uint32 a.mtime)))

  put_atime-field :
      (w : ℕ) (buf : Bytes)
      → has w 0x10 ≡ has_atime
      → put_atime w a buf ≡ buf ++ field has_atime (put_uint32 (to_uint32 a.atime))
  unfolding put_atime append_uint32
  put_atime-field w buf e = rw e (add_field has_atime buf (put_uint32 (to_uint32 a.atime)))

  put_fields-eq :
      (w : ℕ) (buf : Bytes)
      → IsWord w has_size has_ids has_mode has_mtime has_atime
      → put_fields w a buf ≡ buf ++ fields
  unfolding put_fields
  put_fields-eq w buf k = simp (
    put_size-field w _ k.bit0,
    put_ids-field w _ k.bit1,
    put_mode-field w _ k.bit2,
    put_mtime-field w _ k.bit3,
    put_atime-field w _ k.bit4,
    append_assoc,
  )

  encode-fields : encode a ≡ put_uint32 (flags_of a) ++ fields
  unfolding encode append_uint32
  encode-fields = put_fields-eq (flags_of a) (put_uint32 (flags_of a)) flags_of-IsWord

  ids_kept : ((if has_ids then a.uid else 0) ≡ a.uid) × ((if has_ids then a.gid else 0) ≡ a.gid)
  ids_kept = ground arith

  abbrev decoded : FileAttr
  decoded = record {
    size = if has_size then a.size else 0;
    uid = if has_ids then a.uid else 0;
    gid = if has_ids then a.gid else 0;
    mode = if has_mode then a.mode else 0;
    mtime = if has_mtime then pos (to_uint32 a.mtime) else zero_time;
    atime = if has_atime then pos (to_uint32 a.atime) else zero_time;
  }

  decoded_lem : IsWire a → decoded ≡ a
  decoded_lem h i = record {
    size = number_kept a.size i;
    uid = ids_kept.0 i;
    gid = ids_kept.1 i;
    mode = number_kept a.mode i;
    mtime = time_kept a.mtime h.mtime_time i;
    atime = time_kept a.atime h.atime_time i;
  }

  module _ (w : ℕ) (h : IsWire a) (k : IsWord w has_size has_ids has_mode has_mtime has_atime) where
    all_Reads :
        Reads
          (λ buf x off. get_size w buf x off >>= λ p. get_uid_gid w buf p.0 p.1 >>= λ q.
            get_mode w buf q.0 q.1 >>= λ r.
            get_mtime w buf r.0 r.1 >>= λ s. get_atime w buf s.0 s.1)
          fields
          no_attr
          decoded
    all_Reads = then_Reads _ _ _ _ _ _ _ (get_size-Reads w _ a.size no_attr k.bit0 h.size_small) (
        then_Reads _ _ _ _ _ _ _
          (get_uid_gid-Reads w _ a.uid a.gid _ k.bit1 h.uid_small h.gid_small)
          (then_Reads _ _ _ _ _ _ _ (get_mode-Reads w _ a.mode _ k.bit2 h.mode_small) (
            then_Reads _ _ _ _ _ _ _
              (get_mtime-Reads w _ (to_uint32 a.mtime) _ k.bit3 (to_uint32_small a.mtime))
              (get_atime-Reads w _ (to_uint32 a.atime) _ k.bit4 (to_uint32_small a.atime)))))

    decode_fields :
        (pre rest : Bytes)
        → decode_attrs (pre ++ ((put_uint32 w ++ fields) ++ rest)) (length pre)
          ≡ ok (a, length (pre ++ (put_uint32 w ++ fields)))
    unfolding decode_attrs
    decode_fields pre rest = rw (append_assoc (put_uint32 w) fields rest) (
        rw (read_uint32-at pre w (fields ++ rest) k.small) (
          rw (number pre w) (
            rw (← append_assoc pre (put_uint32 w) (fields ++ rest)) (
              all_Reads.at (pre ++ put_uint32 w) rest
              ∙ rw (decoded_lem h, append_assoc pre (put_uint32 w) fields)))))

-- DecodeAttrs reads back, from any place in a buffer, what Encode wrote there, with the offset
-- behind it, when every number fits the wire format.
pub decode_attrs-encode :
    (pre : Bytes) (a : FileAttr) (rest : Bytes)
    → IsWire a
    → decode_attrs (pre ++ (encode a ++ rest)) (length pre) ≡ ok (a, length (pre ++ encode a))
decode_attrs-encode pre a rest h =
    rw (encode-fields a) (decode_fields a (flags_of a) h (flags_of-IsWord a) pre rest)
