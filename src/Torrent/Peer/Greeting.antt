-- ===== src/Torrent/Peer/Greeting.antt =====
-- The handshake between two peers.
use go_protocols.Common.{
  ◌≡◌, refl, true, false, not, [], ◌++◌, append-nil, Bool, ltb, if◌then◌else◌, Bytes, length,
  length-append, take, drop, take-append, drop-append, equal, ok, err, arith,
}
use go_protocols.Common.Wire.{big_endian}
use go_protocols.Torrent.Peer.{send_handshake, check_handshake, recv_handshake, hash_mismatch}

take_all : (a : Bytes) → take (length a) a ≡ a
take_all a = rw (append-nil a) at (take-append a [])

negated : {A : Type 0} (b : Bool) (x y : A) → (if not b then x else y) ≡ (if b then y else x)
negated true x y = refl
negated false x y = refl

module _ (hash peer : Bytes) (h : length hash ≡ 20) (p : length peer ≡ 20) where
  take_hash : take 20 (hash ++ peer) ≡ hash
  take_hash = rw h at (take-append hash peer)

  drop_hash : drop 20 (hash ++ peer) ≡ peer
  drop_hash = rw h at (drop-append hash peer)

  take_peer : take 20 peer ≡ peer
  take_peer = rw p at (take_all peer)

  length-send_handshake : length (send_handshake hash peer) ≡ 68
  unfolding send_handshake
  length-send_handshake = omega (arith, length-append hash peer)

  check_handshake-send_handshake :
      (expected : Bytes)
      → check_handshake (send_handshake hash peer) expected
        ≡ (if equal hash expected then ok peer else err hash_mismatch)
  unfolding check_handshake send_handshake big_endian equal
  check_handshake-send_handshake expected =
      rw (take_hash, drop_hash)
        (rw take_peer (negated (equal hash expected) (err hash_mismatch) (ok peer)))

-- A peer that receives the handshake of another takes its peer id when both have the same info
-- hash, and fails with the mismatch otherwise.
pub recv_handshake-send_handshake :
    (hash peer expected rest : Bytes)
    → length hash ≡ 20
    → length peer ≡ 20
    → recv_handshake (send_handshake hash peer ++ rest) expected
      ≡ (if equal hash expected then ok peer else err hash_mismatch)
unfolding recv_handshake
recv_handshake-send_handshake hash peer expected rest h p =
    let size = length-send_handshake hash peer h p in
    let room : ltb (length (send_handshake hash peer ++ rest)) 68 ≡ false =
      ground (arith, size, length-append (send_handshake hash peer) rest) in
    let front : take 68 (send_handshake hash peer ++ rest) ≡ send_handshake hash peer =
      rw size at (take-append (send_handshake hash peer) rest) in
    rw room (rw front (check_handshake-send_handshake hash peer h p expected))
