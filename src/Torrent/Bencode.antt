-- ===== src/Torrent/Bencode.antt =====
-- torrent/bencode/bencode.go: `decode` and its parts read the bytes left in the reader and return
-- them; `encode` is `Encode` on the types that `Decode` returns. Entries of a Go map are a list, in an
-- order in which a range over the map may visit it; Order has the relation of values that differ in it.
pub mod Total
pub mod Canonical
pub mod RoundTrip
pub mod Panics
pub mod Order
use go_protocols.Common.{
  ℕ, zero, suc, ◌+◌, ◌*◌, Bool, true, false, Option, none, some, List, [], ◌∷◌, ◌++◌, ltb, leb,
  ◌==◌, if◌then◌else◌, Bytes, length, take, drop, equal, Result, ok, err, ◌>>=◌,
}
use go_protocols.Common.Decimal.{ℤ, pos, negsuc, decimal, format_int, parse_int, is_digit}
use go_protocols.Common.Text.{cut, codes}

mutual
  pub data Value : Type 0 where
    int : ℤ → Value
    str : Bytes → Value
    list : Items → Value
    dict : Entries → Value

  pub data Items : Type 0 where
    nil : Items
    cons : Value → Items → Items

  pub data Entries : Type 0 where
    end : Entries
    entry : Bytes → Value → Entries → Entries

-- The errors by their message. `panicked` is the run-time panic of `make` with a negative length;
-- `stuck` is no outcome of the program: the model ran out of fuel.
pub data Error : Type 0 where
  eof unexpected_byte read_integer negative_zero invalid_integer : Error
  read_length invalid_length read_data read_list read_dict panicked stuck : Error
  dict_key dict_value : Error → Error

-- m[k] = v
unfoldable pub put : Bytes → Value → Entries → Entries
put k v end = entry k v end
put k v (entry j w m) = if equal j k then entry k v m else entry j w (put k v m)

read_number : Option ℤ → Bytes → Result Error (Value × Bytes)
read_number none rest = err invalid_integer
read_number (some n) rest = ok (int n, rest)

-- decodeInt, after the leading 'i'.
pub decode_int : Bytes → Result Error (Value × Bytes)
unfolding read_number
decode_int r = elim (cut b'e' r) [
  | none ↦ err read_integer
  | some (s, rest) ↦
      if equal s (codes "-0") then err negative_zero else read_number (parse_int s) rest
]

-- buf := make([]byte, n) and io.ReadFull.
read_full : Option ℤ → Bytes → Result Error (Bytes × Bytes)
read_full none r = err invalid_length
read_full (some (negsuc n)) r = err panicked
read_full (some (pos n)) r = if leb n (length r) then ok (take n r, drop n r) else err read_data

-- decodeString, from the first digit.
pub decode_string : Bytes → Result Error (Bytes × Bytes)
unfolding read_full
decode_string r = elim (cut b':' r) [
  | none ↦ err read_length
  | some (s, rest) ↦ read_full (parse_int s) rest
]

abbrev wrap : {A : Type 0} → (Error → Error) → Result Error A → Result Error A
wrap f (ok a) = ok a
wrap f (err panicked) = err panicked
wrap f (err stuck) = err stuck
wrap f (err e) = err (f e)

string_value : Bytes × Bytes → Result Error (Value × Bytes)
string_value (s, rest) = ok (str s, rest)

list_value : Items × Bytes → Result Error (Value × Bytes)
list_value (xs, rest) = ok (list xs, rest)

dict_value_of : Entries × Bytes → Result Error (Value × Bytes)
dict_value_of (m, rest) = ok (dict m, rest)

unfoldable mutual
  unfolding decode_int decode_string string_value list_value dict_value_of put

  -- decode
  pub decode : ℕ → Bytes → Result Error (Value × Bytes)
  decode zero r = err stuck
  decode (suc f) [] = err eof
  decode (suc f) (b ∷ r) =
      let items = decode_list f r in
      let entries = decode_dict f end r in
      if b == b'i'
      then decode_int r
      else if b == b'l'
      then items >>= list_value
      else if b == b'd'
      then entries >>= dict_value_of
      else if is_digit b
      then decode_string (b ∷ r) >>= string_value
      else err unexpected_byte

  -- decodeList, after the leading 'l': the items up to the closing 'e'.
  pub decode_list : ℕ → Bytes → Result Error (Items × Bytes)
  decode_list zero r = err stuck
  decode_list (suc f) [] = err read_list
  decode_list (suc f) (b ∷ r) = elim (b == b'e') [
    | true ↦ ok (nil, r)
    | false ↦ do (v, r') ← decode f (b ∷ r); (vs, r'') ← decode_list f r'; ok (cons v vs, r'')
  ]

  -- decodeDict, after the leading 'd', with the entries stored so far.
  pub decode_dict : ℕ → Entries → Bytes → Result Error (Entries × Bytes)
  decode_dict zero m r = err stuck
  decode_dict (suc f) m [] = err read_dict
  decode_dict (suc f) m (b ∷ r) = elim (b == b'e') [
    | true ↦ ok (m, r)
    | false ↦ do
      (k, r') ← wrap dict_key (decode_string (b ∷ r))
      (v, r'') ← wrap dict_value (decode f r')
      decode_dict f (put k v m) r''
  ]

-- Decode: every step but the last of a loop consumes a byte, so this fuel is enough.
unfoldable pub decode_all : Bytes → Result Error (Value × Bytes)
unfolding decode
decode_all r = decode (2 * length r + 1) r

-- The order of sort.Strings.
unfoldable pub less : Bytes → Bytes → Bool
less xs [] = false
less [] (y ∷ ys) = true
less (x ∷ xs) (y ∷ ys) =
    let rest = less xs ys in if ltb x y then true else if ltb y x then false else rest

pub insert_sorted : Bytes × Bytes → List (Bytes × Bytes) → List (Bytes × Bytes)
insert_sorted p [] = p ∷ []
insert_sorted p (q ∷ qs) = if less p.0 q.0 then p ∷ q ∷ qs else q ∷ insert_sorted p qs

-- sort.Strings on the keys, each with its encoded value.
pub sort_keys : List (Bytes × Bytes) → List (Bytes × Bytes)
unfolding insert_sorted less
sort_keys [] = []
sort_keys (p ∷ ps) = insert_sorted p (sort_keys ps)

unfoldable pub encode_string : Bytes → Bytes
encode_string s = decimal (length s) ++ b':' ∷ s

pub join : List (Bytes × Bytes) → Bytes
unfolding encode_string
join [] = []
join ((k, v) ∷ ps) = encode_string k ++ (v ++ join ps)

unfoldable mutual
  unfolding sort_keys encode_string join

  -- Encode
  pub encode : Value → Bytes
  encode (int n) = b'i' ∷ (format_int n ++ b'e' ∷ [])
  encode (str s) = encode_string s
  encode (list xs) = b'l' ∷ (encode_items xs ++ b'e' ∷ [])
  encode (dict m) = b'd' ∷ (join (sort_keys (encode_entries m)) ++ b'e' ∷ [])

  pub encode_items : Items → Bytes
  encode_items nil = []
  encode_items (cons v vs) = encode v ++ encode_items vs

  pub encode_entries : Entries → List (Bytes × Bytes)
  encode_entries end = []
  encode_entries (entry k v m) = (k, encode v) ∷ encode_entries m
