-- ===== src/Sftp/Attr/Fields.antt =====
-- The flags of the attributes, and the reading of their fields one after another.
use go_protocols.Common.{
  ℕ, ◌+◌, ◌^◌, ◌<◌, ◌≡◌, ap, ◌∙◌, Bool, true, false, [], ◌++◌, if◌then◌else◌, Bytes, length,
  length-append, append_assoc, ok, ◌>>=◌, arith,
}
use go_protocols.Common.Decimal.{pos}
use go_protocols.Sftp.Packet.{read_uint32, put_uint32}
use go_protocols.Sftp.Packet.RoundTrip.{length-put_uint32}
use go_protocols.Sftp.Packet.Reads.{put_uint64, read_uint32-at, read_uint64-at, length-put_uint64}
use go_protocols.Sftp.Attr.{
  FileAttr, raise, has, get_size, get_uid_gid, get_mode, get_mtime, get_atime, Step,
}

-- The flag word of five tests.
unfoldable pub word : Bool → Bool → Bool → Bool → Bool → ℕ
unfolding raise
word a b c d e = raise e 0x10 (raise d 0x08 (raise c 0x04 (raise b 0x02 (raise a 0x01 0))))

-- The flags of a word are the tests.
pub record IsWord (w : ℕ) (a b c d e : Bool) : Type 0 where
  pub small : w < 2 ^ 32
  pub bit0 : has w 0x01 ≡ a
  pub bit1 : has w 0x02 ≡ b
  pub bit2 : has w 0x04 ≡ c
  pub bit3 : has w 0x08 ≡ d
  pub bit4 : has w 0x10 ≡ e

pub word-IsWord : (a b c d e : Bool) → IsWord (word a b c d e) a b c d e
unfolding word has
word-IsWord true b c d e = ground arith
word-IsWord false b c d e = ground arith

-- g reads w from any place of a buffer, and makes a to b.
pub record Reads (g : Bytes → FileAttr → ℕ → Step) (w : Bytes) (a b : FileAttr) : Type 0 where
  pub at : (pre rest : Bytes) → g (pre ++ (w ++ rest)) a (length pre) ≡ ok (b, length (pre ++ w))

abbrev pub field : Bool → Bytes → Bytes
field b w = if b then w else []

nothing : (pre : Bytes) → length pre ≡ length (pre ++ [])
nothing pre = omega (arith, length-append pre [])

pub number : (pre : Bytes) (v : ℕ) → length pre + 4 ≡ length (pre ++ put_uint32 v)
number pre v = omega (arith, length-append pre (put_uint32 v), length-put_uint32 v)

read_then :
    (f : ℕ → FileAttr) (pre : Bytes) (v : ℕ) (rest : Bytes)
    → v < 2 ^ 32
    → (read_uint32 (pre ++ (put_uint32 v ++ rest)) (length pre) >>= λ (r : ℕ × ℕ).
        let b : FileAttr × ℕ = (f r.0, r.1) in ok b)
      ≡ ok (f v, length (pre ++ put_uint32 v))
read_then f pre v rest h =
    rw (read_uint32-at pre v rest h) (ap (λ (n : ℕ). ok (f v, n)) (number pre v))

pub get_size-Reads :
    (flags : ℕ) (b : Bool) (v : ℕ) (a : FileAttr)
    → has flags 0x01 ≡ b
    → v < 2 ^ 64
    → Reads
        (get_size flags)
        (field b (put_uint64 v))
        a
        (record a { size = if b then v else a.size })
unfolding get_size
get_size-Reads flags true v a e h = record {
  at = λ pre rest. rw e (
      rw (read_uint64-at pre v rest h) (
        ap (λ (n : ℕ). ok (record a { size = v }, n))
          (omega (arith, length-append pre (put_uint64 v), length-put_uint64 v))));
}
get_size-Reads flags false v a e h = record {
  at = λ pre rest. rw e (ap (λ (n : ℕ). ok (a, n)) (nothing pre));
}

pub get_uid_gid-Reads :
    (flags : ℕ) (b : Bool) (u g : ℕ) (a : FileAttr)
    → has flags 0x02 ≡ b
    → u < 2 ^ 32
    → g < 2 ^ 32
    → Reads
        (get_uid_gid flags)
        (field b (put_uint32 u ++ put_uint32 g))
        a
        (record a { uid = if b then u else a.uid; gid = if b then g else a.gid })
unfolding get_uid_gid
get_uid_gid-Reads flags true u g a e h k = record {
  at = λ pre rest.
      let second = read_uint32-at (pre ++ put_uint32 u) g rest k in
      let first = read_uint32-at pre u (put_uint32 g ++ rest) h in
      let regroup = append_assoc (put_uint32 u) (put_uint32 g) rest in
      rw e (
        rw regroup (
          rw first (
            rw (number pre u) (
              rw (← append_assoc pre (put_uint32 u) (put_uint32 g ++ rest)) (
                rw second (
                  ap (λ (n : ℕ). ok (record a { uid = u; gid = g }, n))
                    (number (pre ++ put_uint32 u) g
                      ∙ ap length (append_assoc pre (put_uint32 u) (put_uint32 g)))))))));
}
get_uid_gid-Reads flags false u g a e h k = record {
  at = λ pre rest. rw e (ap (λ (n : ℕ). ok (a, n)) (nothing pre));
}

pub get_mode-Reads :
    (flags : ℕ) (b : Bool) (v : ℕ) (a : FileAttr)
    → has flags 0x04 ≡ b
    → v < 2 ^ 32
    → Reads
        (get_mode flags)
        (field b (put_uint32 v))
        a
        (record a { mode = if b then v else a.mode })
unfolding get_mode
get_mode-Reads flags true v a e h = record {
  at = λ pre rest. rw e (read_then (λ n. record a { mode = n }) pre v rest h);
}
get_mode-Reads flags false v a e h = record {
  at = λ pre rest. rw e (ap (λ (n : ℕ). ok (a, n)) (nothing pre));
}

pub get_mtime-Reads :
    (flags : ℕ) (b : Bool) (v : ℕ) (a : FileAttr)
    → has flags 0x08 ≡ b
    → v < 2 ^ 32
    → Reads
        (get_mtime flags)
        (field b (put_uint32 v))
        a
        (record a { mtime = if b then pos v else a.mtime })
unfolding get_mtime
get_mtime-Reads flags true v a e h = record {
  at = λ pre rest. rw e (read_then (λ n. record a { mtime = pos n }) pre v rest h);
}
get_mtime-Reads flags false v a e h = record {
  at = λ pre rest. rw e (ap (λ (n : ℕ). ok (a, n)) (nothing pre));
}

pub get_atime-Reads :
    (flags : ℕ) (b : Bool) (v : ℕ) (a : FileAttr)
    → has flags 0x10 ≡ b
    → v < 2 ^ 32
    → Reads
        (get_atime flags)
        (field b (put_uint32 v))
        a
        (record a { atime = if b then pos v else a.atime })
unfolding get_atime
get_atime-Reads flags true v a e h = record {
  at = λ pre rest. rw e (read_then (λ n. record a { atime = pos n }) pre v rest h);
}
get_atime-Reads flags false v a e h = record {
  at = λ pre rest. rw e (ap (λ (n : ℕ). ok (a, n)) (nothing pre));
}

-- One after the other.
pub then_Reads :
    (g h : Bytes → FileAttr → ℕ → Step) (w v : Bytes) (a b c : FileAttr)
    → Reads g w a b
    → Reads h v b c
    → Reads (λ buf x off. g buf x off >>= λ p. h buf p.0 p.1) (w ++ v) a c
then_Reads g h w v a b c r s = record {
  at = λ pre rest. rw (append_assoc w v rest) (
      rw (r.at pre (v ++ rest))
        (rw (← append_assoc pre w (v ++ rest)) (s.at (pre ++ w) rest ∙ rw (append_assoc pre w v))));
}
