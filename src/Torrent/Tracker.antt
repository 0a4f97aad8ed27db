-- ===== src/Torrent/Tracker.antt =====
-- torrent/tracker/tracker.go: the response of a tracker. The HTTP request of Announce is left out;
-- net.ParseIP is a parameter.
pub mod Compact
use go_protocols.Common.{
  ℕ, zero, suc, ◌+◌, ◌/◌, ◌%◌, ◌^◌, Bool, true, false, not, List, [], ◌∷◌, ◌++◌, Option, none, some,
  ◌==◌, if◌then◌else◌, Bytes, length, take, drop, Result, ok, err, ◌>>=◌,
}
use go_protocols.Common.Decimal.{ℤ, pos, negsuc, to_word}
use go_protocols.Common.Text.{codes}
use go_protocols.Common.Wire.{big_endian}
use go_protocols.Torrent.Bencode.{
  Value, int, str, list, dict, Items, nil, cons, Entries, Error, decode_all,
}
use go_protocols.Torrent.Metainfo.{get, text_or_empty, int_or_zero}

-- Peer; a nil address is the empty text.
pub record Peer : Type 0 where
  pub ip : Bytes
  pub port : ℕ

pub record AnnounceResponse : Type 0 where
  pub tracker_id : Bytes
  pub peers : List Peer
  pub interval : ℤ
  pub min_interval : ℤ
  pub complete : ℤ
  pub incomplete : ℤ

pub data Failure : Type 0 where
  bad_bencode : Error → Failure
  not_a_dictionary : Failure
  failure_reason : Value → Failure
  uneven_peers : ℕ → Failure

-- The loop over n entries of the compact form.
unfoldable pub compact_peers : ℕ → Bytes → List Peer
compact_peers zero s = []
compact_peers (suc n) s =
    record { ip = take 4 s; port = big_endian 0 (take 2 (drop 4 s)) } ∷ compact_peers n (drop 6 s)

module _ (parse_ip : Bytes → Bytes) where
  ip_of : Option Value → Bytes
  ip_of (some (str s)) = parse_ip s
  ip_of _ = []

  -- uint16(port) of an int64, or 0.
  unfoldable port_of : Option Value → ℕ
  unfolding int_or_zero to_word
  port_of v = to_word (int_or_zero v) % 2 ^ 16

  -- The loop over dictionaries; other items are passed over.
  dict_peers : Items → List Peer
  unfolding get
  dict_peers nil = []
  dict_peers (cons (dict d) vs) =
      record { ip = ip_of (get (codes "ip") d); port = port_of (get (codes "port") d) }
      ∷ dict_peers vs
  dict_peers (cons (str s) vs) = dict_peers vs
  dict_peers (cons (int n) vs) = dict_peers vs
  dict_peers (cons (list xs) vs) = dict_peers vs

  peers_of : Option Value → Result Failure (List Peer)
  peers_of (some (str s)) =
      if not (length s % 6 == 0)
      then err (uneven_peers (length s))
      else ok (compact_peers (length s / 6) s)
  peers_of (some (list xs)) = ok (dict_peers xs)
  peers_of _ = ok []

  response_of : Entries → Option Value → Result Failure AnnounceResponse
  response_of d (some reason) = err (failure_reason reason)
  response_of d none = peers_of (get (codes "peers") d) >>= λ ps. ok (record {
    tracker_id = text_or_empty (get (codes "tracker id") d);
    peers = ps;
    interval = int_or_zero (get (codes "interval") d);
    min_interval = int_or_zero (get (codes "min interval") d);
    complete = int_or_zero (get (codes "complete") d);
    incomplete = int_or_zero (get (codes "incomplete") d);
  })

  of_value : Result Error (Value × Bytes) → Result Failure AnnounceResponse
  of_value (err e) = err (bad_bencode e)
  of_value (ok (dict d, rest)) = response_of d (get (codes "failure reason") d)
  of_value (ok (str s, rest)) = err not_a_dictionary
  of_value (ok (int n, rest)) = err not_a_dictionary
  of_value (ok (list xs, rest)) = err not_a_dictionary

  -- parseResponse
  unfoldable pub parse_response : Bytes → Result Failure AnnounceResponse
  unfolding of_value response_of peers_of dict_peers ip_of port_of
  parse_response body = of_value (decode_all body)
