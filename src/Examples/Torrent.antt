-- ===== src/Examples/Torrent.antt =====
-- Inputs for torrent/bencode, torrent/bitfield and torrent/piece.
use go_protocols.Common.{
  ◌+◌, ◌≡◌, refl, true, ◌||◌, some, [], ◌∷◌, ◌++◌, arith, equal, if◌then◌else◌, Bytes, length, ok,
  err,
}
use go_protocols.Common.Decimal.{pos, negsuc, format_int, decimal, parse_int}
use go_protocols.Common.Utf8.{pieces, decode_rune, joined}
use go_protocols.Common.Text.{trim_space, is_space, codes, cut}
use go_protocols.Torrent.Bencode.{
  Value, Entries, int, str, list, dict, nil, cons, end, entry, decode_all, encode, panicked, less,
}
use go_protocols.Torrent.Bencode.Canonical.{IsCanonical}
use go_protocols.Torrent.Bencode.Total.{Within, decode_all-Within}
use go_protocols.Torrent.Bencode.RoundTrip.{decode_all-encode}
use go_protocols.Torrent.Bencode.Panics.{decode_all-negative_key}
use go_protocols.Torrent.Bitfield.{has, mark}
use go_protocols.Torrent.Bitfield.Laws.{same_piece, has-mark}
use go_protocols.Torrent.Piece.{State, new, complete, verify}
use go_protocols.Torrent.Piece.Fetch.{fetch, fetch-new}
use go_protocols.Torrent.Peer.{
  msg_have, hash_mismatch, send_handshake, recv_handshake, read_message, write_message,
}
use go_protocols.Torrent.Peer.Messages.{read_message-write_message}
use go_protocols.Torrent.Peer.Greeting.{recv_handshake-send_handshake}
use go_protocols.Torrent.Metainfo.{
  Info, MetaInfo, get, text_or_empty, int_or_zero, slices, parse_info, decode, trackers,
}
use go_protocols.Torrent.Bencode.Order.{same_dict, swapped, written}
use go_protocols.Torrent.Metainfo.Pieces.{decode-info_hash}
use go_protocols.Torrent.Metainfo.Trackers.{flatten, cleaned, firsts, trackers-firsts}
use go_protocols.Torrent.Tracker.{Peer, AnnounceResponse, parse_response}
use go_protocols.Torrent.Tracker.Compact.{compact, parse_response-compact}

-- d3:agei-7e4:listl1:xi0eee
abbrev record_value : Value
record_value = dict (
    entry (codes "age") (int (negsuc 6))
      (entry (codes "list") (list (cons (str (codes "x")) (cons (int (pos 0)) nil))) end))

record_value-IsCanonical : IsCanonical record_value
unfolding IsCanonical less
record_value-IsCanonical =
    (omega arith, omega arith, (refl, tt), (omega arith, (omega arith, (omega arith, tt)), tt, tt))

encode_record : encode record_value ≡ codes "d3:agei-7e4:listl1:xi0eee"
unfolding encode format_int decimal
encode_record = refl

decode_all-encode_example :
    decode_all (encode record_value ++ codes "ie") ≡ ok (record_value, codes "ie")
decode_all-encode_example = decode_all-encode record_value (codes "ie") record_value-IsCanonical

decode_all-Within_example : Within 3 (decode_all (codes "l1:"))
decode_all-Within_example = decode_all-Within (codes "l1:")

decode_all-negative_key_example :
    decode_all (b'd' ∷ (format_int (negsuc 0) ++ b':' ∷ codes "e")) ≡ err panicked
decode_all-negative_key_example = decode_all-negative_key 0 (codes "e") (omega arith)

abbrev two_bytes : Bytes
two_bytes = 130 ∷ 64 ∷ []

has-mark_example :
    has (mark two_bytes (pos 3)) (pos 6)
    ≡ (same_piece two_bytes (pos 3) (pos 6) || has two_bytes (pos 6))
has-mark_example = has-mark two_bytes (pos 3) (pos 6) (omega arith)

-- A stand-in for SHA-1.
abbrev checksum : Bytes → Bytes
checksum b = length b ∷ []

fetch-new_example :
    (t : State) × (fetch
        (length (codes "block") + 1)
        (codes "block")
        (new 2 (checksum (codes "block")) (length (codes "block")))
      ≡ some t)
    × (t.bytes ≡ codes "block")
    × (complete t ≡ true)
    × (verify checksum t ≡ ok tt)
fetch-new_example = fetch-new checksum 2 (codes "block")

read_message-write_message_example :
    read_message
      (write_message (record { id = msg_have; payload = 0 ∷ 0 ∷ 0 ∷ 9 ∷ [] }) ++ (7 ∷ []))
    ≡ ok (some (record { id = msg_have; payload = 0 ∷ 0 ∷ 0 ∷ 9 ∷ [] }), 7 ∷ [])
read_message-write_message_example =
    read_message-write_message (record { id = msg_have; payload = 0 ∷ 0 ∷ 0 ∷ 9 ∷ [] }) (7 ∷ [])
      (omega arith)

abbrev twenty : Bytes
twenty = codes "aaaaabbbbbcccccddddd"

recv_handshake-send_handshake_example :
    recv_handshake (send_handshake twenty twenty ++ (7 ∷ [])) twenty
    ≡ (if equal twenty twenty then ok twenty else err hash_mismatch)
recv_handshake-send_handshake_example =
    recv_handshake-send_handshake twenty twenty twenty (7 ∷ []) refl refl

abbrev info_entries : Entries
info_entries = entry (codes "length") (int (pos 5)) (
    entry (codes "name") (str (codes "f"))
      (entry (codes "piece length") (int (pos 8)) (entry (codes "pieces") (str twenty) end)))

abbrev torrent_entries : Entries
torrent_entries =
    entry (codes "announce") (str (codes "u")) (entry (codes "info") (dict info_entries) end)

torrent-IsCanonical : IsCanonical (dict torrent_entries)
unfolding IsCanonical less
torrent-IsCanonical = (
  omega arith,
  omega arith,
  (refl, tt),
  (
    omega arith,
    (
      omega arith,
      omega arith,
      (refl, (refl, (refl, tt))),
      (
        omega arith,
        omega arith,
        (refl, (refl, tt)),
        (omega arith, omega arith, (refl, tt), (omega arith, omega arith, tt, tt)),
      ),
    ),
    tt,
    tt,
  ),
)

abbrev one_info : Info
one_info = record {
  name = codes "f";
  pieces = twenty ∷ [];
  files = [];
  piece_length = pos 8;
  size = pos 5;
}

one_info_parsed : parse_info info_entries ≡ ok one_info
unfolding parse_info get equal text_or_empty int_or_zero slices
one_info_parsed = refl

-- A digest that keeps the length only.
abbrev short_sum : Bytes → Bytes
short_sum s = length s ∷ []

abbrev one_torrent : MetaInfo
one_torrent = record {
  announce = codes "u";
  comment = [];
  created_by = [];
  announce_list = [];
  info = one_info;
  creation_date = pos 0;
  info_hash = short_sum (encode (dict info_entries));
}

one_torrent_decoded : decode short_sum (encode (dict torrent_entries) ++ []) ≡ ok one_torrent
unfolding decode get equal text_or_empty int_or_zero parse_info slices
one_torrent_decoded = rw (decode_all-encode (dict torrent_entries) [] torrent-IsCanonical)

-- A file whose info dictionary has its keys in another order than the ascending one.
abbrev shuffled_file : Bytes
shuffled_file = codes "d4:infod6:pieces0:4:name1:fee"

abbrev shuffled_info : Entries
shuffled_info = entry (codes "pieces") (str []) (entry (codes "name") (str (codes "f")) end)

abbrev sorted_info : Entries
sorted_info = entry (codes "name") (str (codes "f")) (entry (codes "pieces") (str []) end)

abbrev shuffled_torrent : MetaInfo
shuffled_torrent = record {
  announce = [];
  comment = [];
  created_by = [];
  announce_list = [];
  info = record { name = codes "f"; pieces = []; files = []; piece_length = pos 0; size = pos 0 };
  creation_date = pos 0;
  info_hash = codes "d4:name1:f6:pieces0:e";
}

-- The digest that keeps its text.
abbrev no_sum : Bytes → Bytes
no_sum s = s

shuffled_read :
    decode_all shuffled_file ≡ ok (dict (entry (codes "info") (dict shuffled_info) end), [])
unfolding decode_all cut parse_int equal
shuffled_read = refl

shuffled_decoded : decode no_sum shuffled_file ≡ ok shuffled_torrent
unfolding decode get equal text_or_empty int_or_zero parse_info slices encode decimal
shuffled_decoded = rw shuffled_read

sorted_info-IsCanonical : IsCanonical (dict sorted_info)
unfolding IsCanonical less
sorted_info-IsCanonical = (omega arith, omega arith, (refl, tt), (omega arith, omega arith, tt, tt))

decode-info_hash_example : codes "d4:name1:f6:pieces0:e" ≡ no_sum (written (dict sorted_info))
decode-info_hash_example =
    decode-info_hash no_sum shuffled_file [] (entry (codes "info") (dict shuffled_info) end)
      shuffled_info sorted_info shuffled_torrent shuffled_read (unfold get equal in refl)
      (same_dict shuffled_info sorted_info
        (swapped (codes "pieces") (codes "name") (str []) (str (codes "f")) end (λ e. absurd (cc))))
      sorted_info-IsCanonical shuffled_decoded

trackers-firsts_example : trackers one_torrent ≡ firsts (cleaned (codes "u" ∷ flatten []))
trackers-firsts_example = trackers-firsts one_torrent

abbrev one_peer : Peer
one_peer = record { ip = 127 ∷ 0 ∷ 0 ∷ 1 ∷ []; port = 6881 }

abbrev answer_entries : Entries
answer_entries =
    entry (codes "interval") (int (pos 1800))
      (entry (codes "peers") (str (127 ∷ 0 ∷ 0 ∷ 1 ∷ 26 ∷ 225 ∷ [])) end)

answer-IsCanonical : IsCanonical (dict answer_entries)
unfolding IsCanonical less
answer-IsCanonical = (omega arith, (omega arith), (refl, tt), (omega arith, omega arith, tt, tt))

parse_response-compact_example :
    (r : AnnounceResponse) × (parse_response (λ s. s) (encode (dict answer_entries) ++ []) ≡ ok r)
    × (r.peers ≡ one_peer ∷ [])
    × (r.interval ≡ int_or_zero (get (codes "interval") answer_entries))
parse_response-compact_example =
    parse_response-compact (λ s. s) answer_entries (one_peer ∷ []) [] answer-IsCanonical
      (unfold get equal in refl) (unfold get equal compact in refl)
      (record { address = refl; small = omega arith }, tt)

-- A no-break space before the text and a blank behind it.
trimmed : trim_space (194 ∷ 160 ∷ codes "u ") ≡ codes "u"
unfolding trim_space pieces decode_rune joined is_space
trimmed = refl
