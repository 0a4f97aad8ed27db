-- ===== src/Torrent/Tracker/Compact.antt =====
-- The compact form of a list of peers.
use go_protocols.Common.{
  ℕ, ◌*◌, ◌/◌, ◌%◌, ◌^◌, ◌<◌, ◌≡◌, refl, ap, List, [], ◌∷◌, ◌++◌, none, some, true, ◌==◌, Bytes,
  All, length, length-append, take, drop, take-append, drop-append, drop-append_more, ok, arith,
}
use go_protocols.Common.Text.{codes}
use go_protocols.Common.Wire.{big_endian}
use go_protocols.Torrent.Bencode.{str, dict, Entries, encode}
use go_protocols.Torrent.Bencode.Canonical.{IsCanonical}
use go_protocols.Torrent.Bencode.RoundTrip.{decode_all-encode}
use go_protocols.Torrent.Metainfo.{get, text_or_empty, int_or_zero}
use go_protocols.Torrent.Tracker.{
  Peer, AnnounceResponse, compact_peers, peers_of, response_of, of_value, parse_response,
}

-- BEP 23: four bytes of address and two of port for each peer.
unfoldable pub compact : List Peer → Bytes
compact [] = []
compact (p ∷ ps) = p.ip ++ p.port / 256 ∷ p.port % 256 ∷ compact ps

-- An IPv4 address and a port of 16 bits.
pub record IsCompact (p : Peer) : Type 0 where
  pub address : length p.ip ≡ 4
  pub small : p.port < 2 ^ 16

length-compact : (ps : List Peer) → All IsCompact ps → length (compact ps) ≡ length ps * 6
unfolding compact
length-compact [] a = refl
length-compact (p ∷ ps) a =
    let four = a.0 in
    omega (
      arith,
      length-append p.ip (p.port / 256 ∷ p.port % 256 ∷ compact ps),
      four.address,
      length-compact ps a.1,
    )

compact_peers-compact :
    (ps : List Peer) → All IsCompact ps → compact_peers (length ps) (compact ps) ≡ ps
unfolding compact_peers compact
compact_peers-compact [] a = refl
compact_peers-compact (p ∷ ps) a =
    let tail : Bytes = p.port / 256 ∷ p.port % 256 ∷ compact ps in
    let four = a.0.address in
    let head : take 4 (p.ip ++ tail) ≡ p.ip = rw four at (take-append p.ip tail) in
    let back : drop 4 (p.ip ++ tail) ≡ tail = rw four at (drop-append p.ip tail) in
    let rest : drop 6 (p.ip ++ tail) ≡ compact ps = rw four at (drop-append_more p.ip tail 2) in
    rw (head, back, rest)
      (rw (compact_peers-compact ps a.1)
        (ap (λ (n : ℕ). record { ip = p.ip; port = n } ∷ ps) (unfold big_endian in omega arith)))

-- From a response in canonical form, without a failure reason and with peers in the compact form
-- of BEP 23, parseResponse gives exactly those peers, and the interval that stands there or 0.
pub parse_response-compact :
    (parse_ip : Bytes → Bytes) (d : Entries) (ps : List Peer) (rest : Bytes)
    → IsCanonical (dict d)
    → get (codes "failure reason") d ≡ none
    → get (codes "peers") d ≡ some (str (compact ps))
    → All IsCompact ps
    → (r : AnnounceResponse) × (parse_response parse_ip (encode (dict d) ++ rest) ≡ ok r)
      × (r.peers ≡ ps)
      × (r.interval ≡ int_or_zero (get (codes "interval") d))
unfolding parse_response of_value response_of peers_of
parse_response-compact parse_ip d ps rest h f g a =
    let size = length-compact ps a in
    let even : (length (compact ps) % 6 == 0) ≡ true = ground (arith, size) in
    let count : length (compact ps) / 6 ≡ length ps = omega (arith, size) in
    let back = compact_peers-compact ps a in
    let r : AnnounceResponse = record {
      tracker_id = text_or_empty (get (codes "tracker id") d);
      peers = ps;
      interval = int_or_zero (get (codes "interval") d);
      min_interval = int_or_zero (get (codes "min interval") d);
      complete = int_or_zero (get (codes "complete") d);
      incomplete = int_or_zero (get (codes "incomplete") d);
    } in
    (
      r,
      rw (decode_all-encode (dict d) rest h) (rw f (rw g (rw (even, count) (rw back)))),
      refl,
      refl,
    )
