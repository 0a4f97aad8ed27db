-- ===== src/Sftp/Attr.antt =====
-- sftp/sftp/attr.go: file attributes and the status reply. A time is its Unix seconds, without the
-- fraction of a second, which the wire format does not hold.
pub mod Fields
pub mod RoundTrip
pub mod StatusReply
use go_protocols.Common.{
  ℕ, ◌+◌, ◌-◌, ◌%◌, ◌^◌, Bool, true, false, not, ◌||◌, [], ◌∷◌, ltb, ◌==◌, if◌then◌else◌, Bytes,
  length, take, drop, Result, ok, err, ◌>>=◌,
}
use Prim.Native.Nat.{bit_and, bit_or}
use go_protocols.Common.Decimal.{ℤ, pos, negsuc}
use go_protocols.Sftp.Packet.{
  Error, big_endian, read_string, append_string, read_uint32, append_uint32, read_uint64,
  append_uint64,
}

-- time.Time{} in Unix seconds: the year 1.
abbrev pub zero_time : ℤ
zero_time = negsuc 62135596799

-- IsZero
unfoldable pub is_zero : ℤ → Bool
is_zero (pos n) = false
is_zero (negsuc n) = n == 62135596799

-- uint32(t.Unix())
unfoldable pub to_uint32 : ℤ → ℕ
to_uint32 (pos n) = n % 2 ^ 32
to_uint32 (negsuc n) = 2 ^ 32 - 1 - n % 2 ^ 32

pub record FileAttr : Type 0 where
  pub size : ℕ
  pub uid : ℕ
  pub gid : ℕ
  pub mode : ℕ
  pub mtime : ℤ
  pub atime : ℤ

-- FileAttr{}
abbrev pub no_attr : FileAttr
no_attr = record { size = 0; uid = 0; gid = 0; mode = 0; mtime = zero_time; atime = zero_time }

abbrev attr_size : ℕ
attr_size = 0x01

abbrev attr_uid_gid : ℕ
attr_uid_gid = 0x02

abbrev attr_mode : ℕ
attr_mode = 0x04

abbrev attr_mtime : ℕ
attr_mtime = 0x08

abbrev attr_atime : ℕ
attr_atime = 0x10

-- if b { flags |= bit }
unfoldable pub raise : Bool → ℕ → ℕ → ℕ
raise b bit flags = if b then bit_or flags bit else flags

-- flags&bit != 0
unfoldable pub has : ℕ → ℕ → Bool
has flags bit = not (bit_and flags bit == 0)

flags_of : FileAttr → ℕ
flags_of a = raise (not (is_zero a.atime)) attr_atime (
    raise (not (is_zero a.mtime)) attr_mtime (
      raise (not (a.mode == 0)) attr_mode (
        raise (not (a.uid == 0) || not (a.gid == 0)) attr_uid_gid
          (raise (not (a.size == 0)) attr_size 0))))

put_size : ℕ → FileAttr → Bytes → Bytes
put_size flags a buf = if has flags attr_size then append_uint64 buf a.size else buf

put_ids : ℕ → FileAttr → Bytes → Bytes
put_ids flags a buf =
    if has flags attr_uid_gid then append_uint32 (append_uint32 buf a.uid) a.gid else buf

put_mode : ℕ → FileAttr → Bytes → Bytes
put_mode flags a buf = if has flags attr_mode then append_uint32 buf a.mode else buf

put_mtime : ℕ → FileAttr → Bytes → Bytes
put_mtime flags a buf = if has flags attr_mtime then append_uint32 buf (to_uint32 a.mtime) else buf

put_atime : ℕ → FileAttr → Bytes → Bytes
put_atime flags a buf = if has flags attr_atime then append_uint32 buf (to_uint32 a.atime) else buf

put_fields : ℕ → FileAttr → Bytes → Bytes
put_fields flags a buf =
    put_atime flags a
      (put_mtime flags a (put_mode flags a (put_ids flags a (put_size flags a buf))))

-- Encode
unfoldable pub encode : FileAttr → Bytes
unfolding flags_of put_fields put_size put_ids put_mode put_mtime put_atime
encode a = let flags = flags_of a in put_fields flags a (append_uint32 [] flags)

-- What DecodeAttrs has read so far: the attributes and the next offset.
abbrev pub Step : Type 0
Step = Result Error (FileAttr × ℕ)

pub get_size : ℕ → Bytes → FileAttr → ℕ → Step
get_size flags buf a off =
    if has flags attr_size
    then (read_uint64 buf off >>= λ r. ok (record a { size = r.0 }, r.1))
    else ok (a, off)

pub get_uid_gid : ℕ → Bytes → FileAttr → ℕ → Step
get_uid_gid flags buf a off =
    if has flags attr_uid_gid
    then (read_uint32 buf off >>= λ r.
        read_uint32 buf r.1 >>= λ q. ok (record a { uid = r.0; gid = q.0 }, q.1))
    else ok (a, off)

pub get_mode : ℕ → Bytes → FileAttr → ℕ → Step
get_mode flags buf a off =
    if has flags attr_mode
    then (read_uint32 buf off >>= λ r. ok (record a { mode = r.0 }, r.1))
    else ok (a, off)

pub get_mtime : ℕ → Bytes → FileAttr → ℕ → Step
get_mtime flags buf a off =
    if has flags attr_mtime
    then (read_uint32 buf off >>= λ r. ok (record a { mtime = pos r.0 }, r.1))
    else ok (a, off)

pub get_atime : ℕ → Bytes → FileAttr → ℕ → Step
get_atime flags buf a off =
    if has flags attr_atime
    then (read_uint32 buf off >>= λ r. ok (record a { atime = pos r.0 }, r.1))
    else ok (a, off)

-- DecodeAttrs
unfoldable pub decode_attrs : Bytes → ℕ → Step
unfolding get_size get_uid_gid get_mode get_mtime get_atime
decode_attrs buf off = read_uint32 buf off >>= λ f. get_size f.0 buf no_attr f.1 >>= λ p.
    get_uid_gid f.0 buf p.0 p.1 >>= λ q.
    get_mode f.0 buf q.0 q.1 >>= λ r. get_mtime f.0 buf r.0 r.1 >>= λ s. get_atime f.0 buf s.0 s.1

-- EncodeStatus
unfoldable pub encode_status : ℕ → ℕ → Bytes → Bytes → Bytes
unfolding append_uint32 append_string
encode_status id code msg lang =
    append_string (append_string (append_uint32 (append_uint32 [] id) code) msg) lang

pub record Status : Type 0 where
  pub id : ℕ
  pub code : ℕ
  pub msg : Bytes

pub data StatusError : Type 0 where
  short_status : StatusError
  in_message : Error → StatusError

message : ℕ → ℕ → Result Error (Bytes × ℕ) → Result StatusError Status
message id code (err e) = err (in_message e)
message id code (ok (msg, off)) = ok (record { id = id; code = code; msg = msg })

-- DecodeStatus
unfoldable pub decode_status : Bytes → Result StatusError Status
unfolding message
decode_status buf =
    if ltb (length buf) 8
    then err short_status
    else message (big_endian 0 (take 4 buf)) (big_endian 0 (take 4 (drop 4 buf)))
        (read_string buf 8)
