-- ===== src/Torrent/Piece.antt =====
-- torrent/piece/piece.go. Offsets and lengths are not negative; `data` is the field `bytes`.
pub mod Fetch
pub mod Repeats
use go_protocols.Common.{
  ℕ, zero, suc, ◌+◌, ◌-◌, Bool, true, false, [], ◌∷◌, Option, some, none, ltb, leb, if◌then◌else◌,
  Bytes, length, replicate, equal, Result, ok, err,
}

-- BlockSize
abbrev pub block_size : ℕ
block_size = 16384

pub record State : Type 0 where
  pub bytes : Bytes
  pub index : ℕ
  pub size : ℕ
  pub downloaded : ℕ
  pub requested : ℕ
  pub hash : Bytes

pub data Error : Type 0 where
  overflows hash_mismatch : Error

-- New
unfoldable pub new : ℕ → Bytes → ℕ → State
new index hash size = record {
  bytes = replicate size 0;
  index = index;
  size = size;
  downloaded = 0;
  requested = 0;
  hash = hash;
}

-- Complete
unfoldable pub complete : State → Bool
complete s = leb s.size s.downloaded

-- NextRequest: `none` is the result (0, 0, false).
unfoldable pub next_request : State → Option (ℕ × ℕ) × State
next_request s =
    if leb s.size s.requested
    then (none, s)
    else (let block =
          if ltb s.size (s.requested + block_size) then s.size - s.requested else block_size in
        (some (s.requested, block), record s { requested = s.requested + block }))

-- copy(dst[i:], src)
unfoldable pub copy_at : ℕ → Bytes → Bytes → Bytes
copy_at i [] src = []
copy_at zero (x ∷ dst) [] = x ∷ dst
copy_at zero (x ∷ dst) (y ∷ src) = y ∷ copy_at zero dst src
copy_at (suc i) (x ∷ dst) src = x ∷ copy_at i dst src

-- Store
unfoldable pub store : ℕ → Bytes → State → Result Error State
store begin block s =
    if ltb s.size (begin + length block)
    then err overflows
    else ok
        (record s { bytes = copy_at begin s.bytes block; downloaded = s.downloaded + length block })

-- Verify; SHA-1 is a parameter.
unfoldable pub verify : (Bytes → Bytes) → State → Result Error (Unit {0})
verify sha1 s = if equal (sha1 s.bytes) s.hash then ok tt else err hash_mismatch
