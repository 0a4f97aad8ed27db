-- ===== src/Torrent/Bencode/Panics.antt =====
-- A length below zero: decodeString hands it to `make`.
use go_protocols.Common.{
  ℕ, suc, ◌+◌, ◌*◌, ◌<◌, ◌^◌, ◌≡◌, refl, ◌∷◌, ◌++◌, arith, Bytes, length, err,
}
use go_protocols.Common.Decimal.{negsuc, format_int, decimal, parse_int-format_int}
use go_protocols.Common.Text.{cut-append, Free}
use go_protocols.Torrent.Bencode.{panicked, decode_string, decode, decode_dict, decode_all}
use go_protocols.Torrent.Bencode.RoundTrip.{decimal-Free}

negative-Free : (n : ℕ) → Free b':' (format_int (negsuc n))
unfolding format_int
negative-Free n = (omega arith, decimal-Free b':' (n + 1) refl)

decode_string-negative :
    (n : ℕ) (rest : Bytes)
    → n < 2 ^ 63
    → decode_string (format_int (negsuc n) ++ b':' ∷ rest) ≡ err panicked
unfolding decode_string
decode_string-negative n rest h = rw (
  cut-append b':' (format_int (negsuc n)) rest (negative-Free n),
  parse_int-format_int (negsuc n) h,
  decode_string,
)

negative_key :
    (fuel f : ℕ) (cs : Bytes)
    → fuel ≡ suc (suc f)
    → decode_string (b'-' ∷ cs) ≡ err panicked
    → decode fuel (b'd' ∷ b'-' ∷ cs) ≡ err panicked
unfolding decode
negative_key fuel f cs e h = rw e (rw (h, decode_dict))

-- Decode panics on a dictionary whose first key has a length from -1 down to the least int64,
-- whatever follows that length.
pub decode_all-negative_key :
    (n : ℕ) (rest : Bytes)
    → n < 2 ^ 63
    → decode_all (b'd' ∷ (format_int (negsuc n) ++ b':' ∷ rest)) ≡ err panicked
unfolding decode_all
decode_all-negative_key n rest h =
    let cs : Bytes = decimal (n + 1) ++ b':' ∷ rest in
    let key : decode_string (b'-' ∷ cs) ≡ err panicked =
      unfold format_int in (decode_string-negative n rest h) in
    unfold format_int in (negative_key _ (2 * length cs + 3) cs (omega arith) key)
