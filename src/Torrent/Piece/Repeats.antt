-- ===== src/Torrent/Piece/Repeats.antt =====
-- Store, for a block that arrives twice.
use go_protocols.Common.{
  ℕ, ◌+◌, ◌-◌, ◌*◌, ◌≤◌, ◌<◌, ◌≡◌, refl, ap, true, false, [], ◌∷◌, ◌++◌, ltb, Bytes, length,
  replicate, ok, ◌>>=◌, arith,
}
use go_protocols.Torrent.Piece.{State, new, complete, copy_at, store}
use go_protocols.Torrent.Piece.Fetch.{copy_at-replicate}

copy_at_again : (src z : Bytes) → copy_at 0 (src ++ z) src ≡ src ++ z
unfolding copy_at
copy_at_again [] [] = refl
copy_at_again [] (x ∷ z) = refl
copy_at_again (y ∷ src) z = ap (◌∷◌ y) (copy_at_again src z)

-- When the first block of a piece, at least half of it and not all, is stored twice, Complete
-- reports the piece as downloaded although everything behind the block is still zero.
pub complete-store_twice :
    (index size : ℕ) (hash block : Bytes)
    → length block < size
    → size ≤ 2 * length block
    → (t : State) × ((store 0 block (new index hash size) >>= store 0 block) ≡ ok t)
      × (complete t ≡ true)
      × (t.bytes ≡ block ++ replicate (size - length block) 0)
unfolding store new complete
complete-store_twice index size hash block short half =
    let fits : ltb size (0 + length block) ≡ false = ground arith in
    let first = copy_at-replicate block size 0 (omega arith) in
    (
      record {
        bytes = block ++ replicate (size - length block) 0;
        index = index;
        size = size;
        downloaded = 0 + length block + length block;
        requested = 0;
        hash = hash;
      },
      rw (fits, first) (rw (fits, copy_at_again)),
      ground arith,
      refl,
    )
