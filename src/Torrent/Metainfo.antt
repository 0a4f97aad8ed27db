-- ===== src/Torrent/Metainfo.antt =====
-- torrent/metainfo/metainfo.go: the .torrent file, on top of the bencoded values. The SHA-1 function is
-- a parameter. A piece that the loop over `pieces` copies has its 20 bytes.
pub mod Pieces
pub mod Trackers
use go_protocols.Common.{
  ℕ, zero, suc, ◌+◌, ◌/◌, ◌%◌, ◌^◌, Bool, true, false, not, ◌||◌, List, [], ◌∷◌, ◌++◌, Option, none,
  some, ◌==◌, if◌then◌else◌, Bytes, length, take, drop, equal, Result, ok, err, ◌>>=◌,
}
use go_protocols.Common.Decimal.{ℤ, pos, negsuc, to_word, of_word}
use go_protocols.Common.Text.{codes, trim_space}
use go_protocols.Torrent.Bencode.{
  Value, int, str, list, dict, Items, nil, cons, Entries, end, entry, Error, decode_all, encode,
}

pub record FileInfo : Type 0 where
  pub path : List Bytes
  pub size : ℤ

pub record Info : Type 0 where
  pub name : Bytes
  pub pieces : List Bytes
  pub files : List FileInfo
  pub piece_length : ℤ
  pub size : ℤ

pub record MetaInfo : Type 0 where
  pub announce : Bytes
  pub comment : Bytes
  pub created_by : Bytes
  pub announce_list : List (List Bytes)
  pub info : Info
  pub creation_date : ℤ
  pub info_hash : Bytes

pub data Failure : Type 0 where
  bad_bencode : Error → Failure
  not_a_dictionary missing_info info_not_a_dictionary missing_pieces pieces_not_a_string : Failure
  uneven_pieces : ℕ → Failure
  files_not_a_list file_not_a_dictionary : Failure

-- a + b on int64
unfoldable pub add_int64 : ℤ → ℤ → ℤ
unfolding to_word of_word
add_int64 a b = of_word ((to_word a + to_word b) % 2 ^ 64)

-- n > 0
unfoldable pub positive : ℤ → Bool
positive (pos n) = not (n == 0)
positive (negsuc n) = false

unfoldable pub sum_lengths : ℤ → List FileInfo → ℤ
unfolding add_int64
sum_lengths total [] = total
sum_lengths total (f ∷ fs) = sum_lengths (add_int64 total f.size) fs

-- TotalLength
unfoldable pub total_length : Info → ℤ
unfolding positive sum_lengths
total_length i = if positive i.size then i.size else sum_lengths (pos 0) i.files

-- PieceCount
unfoldable pub piece_count : Info → ℕ
piece_count i = length i.pieces

unfoldable pub mem : Bytes → List Bytes → Bool
mem u [] = false
mem u (v ∷ vs) = equal v u || mem u vs

-- The closure `add` of Trackers; the keys of `seen` are the texts of the result.
unfoldable pub add_tracker : List Bytes → Bytes → List Bytes
unfolding mem
add_tracker result u =
    let v = trim_space u in
    if equal v [] then result else if mem v result then result else result ++ v ∷ []

unfoldable pub add_tier : List Bytes → List Bytes → List Bytes
unfolding add_tracker
add_tier result [] = result
add_tier result (u ∷ us) = add_tier (add_tracker result u) us

unfoldable pub add_tiers : List Bytes → List (List Bytes) → List Bytes
unfolding add_tier
add_tiers result [] = result
add_tiers result (t ∷ ts) = add_tiers (add_tier result t) ts

-- Trackers
unfoldable pub trackers : MetaInfo → List Bytes
unfolding add_tracker add_tiers
trackers m = add_tiers (add_tracker [] m.announce) m.announce_list

-- v, ok := d[k]
unfoldable pub get : Bytes → Entries → Option Value
get k end = none
get k (entry j v d) = if equal j k then some v else get k d

-- v.(string), with the empty text otherwise.
unfoldable pub text_or_empty : Option Value → Bytes
text_or_empty (some (str s)) = s
text_or_empty _ = []

-- v.(int64), with 0 otherwise.
unfoldable pub int_or_zero : Option Value → ℤ
int_or_zero (some (int n)) = n
int_or_zero _ = pos 0

-- The strings of a list; other items are passed over.
unfoldable pub strings : Items → List Bytes
strings nil = []
strings (cons (str s) vs) = s ∷ strings vs
strings (cons (int n) vs) = strings vs
strings (cons (list xs) vs) = strings vs
strings (cons (dict d) vs) = strings vs

-- The lists of a list.
unfoldable pub tiers : Items → List (List Bytes)
unfolding strings
tiers nil = []
tiers (cons (list xs) vs) = strings xs ∷ tiers vs
tiers (cons (str s) vs) = tiers vs
tiers (cons (int n) vs) = tiers vs
tiers (cons (dict d) vs) = tiers vs

strings_or_none : Option Value → List Bytes
strings_or_none (some (list xs)) = strings xs
strings_or_none _ = []

tiers_or_none : Option Value → List (List Bytes)
tiers_or_none (some (list xs)) = tiers xs
tiers_or_none _ = []

-- parseFileInfo, which never returns nil.
unfoldable pub parse_file_info : Entries → FileInfo
unfolding strings_or_none strings int_or_zero get
parse_file_info d = record {
  path = strings_or_none (get (codes "path") d);
  size = int_or_zero (get (codes "length") d);
}

unfoldable pub parse_files : Items → Result Failure (List FileInfo)
unfolding parse_file_info
parse_files nil = ok []
parse_files (cons (dict d) vs) = parse_files vs >>= λ fs. ok (parse_file_info d ∷ fs)
parse_files (cons (str s) vs) = err file_not_a_dictionary
parse_files (cons (int n) vs) = err file_not_a_dictionary
parse_files (cons (list xs) vs) = err file_not_a_dictionary

files_of : Option Value → Result Failure (List FileInfo)
files_of none = ok []
files_of (some (list xs)) = parse_files xs
files_of (some (str s)) = err files_not_a_list
files_of (some (int n)) = err files_not_a_list
files_of (some (dict d)) = err files_not_a_list

-- n hashes of 20 bytes.
unfoldable pub slices : ℕ → Bytes → List Bytes
slices zero s = []
slices (suc n) s = take 20 s ∷ slices n (drop 20 s)

pieces_of : Option Value → Result Failure (List Bytes)
unfolding slices
pieces_of none = err missing_pieces
pieces_of (some (str s)) =
    if not (length s % 20 == 0)
    then err (uneven_pieces (length s))
    else ok (slices (length s / 20) s)
pieces_of (some (int n)) = err pieces_not_a_string
pieces_of (some (list xs)) = err pieces_not_a_string
pieces_of (some (dict d)) = err pieces_not_a_string

-- parseInfo
unfoldable pub parse_info : Entries → Result Failure Info
unfolding pieces_of files_of
parse_info d = pieces_of (get (codes "pieces") d) >>= λ hashes.
    files_of (get (codes "files") d) >>= λ fs. ok (record {
      name = text_or_empty (get (codes "name") d);
      pieces = hashes;
      files = fs;
      piece_length = int_or_zero (get (codes "piece length") d);
      size = int_or_zero (get (codes "length") d);
    })

module _ (sha1 : Bytes → Bytes) where
  meta_of : Entries → Entries → Info → MetaInfo
  meta_of d info_dict i = record {
    announce = text_or_empty (get (codes "announce") d);
    comment = text_or_empty (get (codes "comment") d);
    created_by = text_or_empty (get (codes "created by") d);
    announce_list = tiers_or_none (get (codes "announce-list") d);
    info = i;
    creation_date = int_or_zero (get (codes "creation date") d);
    info_hash = sha1 (encode (dict info_dict));
  }

  with_info : Entries → Option Value → Result Failure MetaInfo
  with_info d none = err missing_info
  with_info d (some (dict e)) = parse_info e >>= λ i. ok (meta_of d e i)
  with_info d (some (str s)) = err info_not_a_dictionary
  with_info d (some (int n)) = err info_not_a_dictionary
  with_info d (some (list xs)) = err info_not_a_dictionary

  of_value : Result Error (Value × Bytes) → Result Failure MetaInfo
  of_value (err e) = err (bad_bencode e)
  of_value (ok (dict d, rest)) = with_info d (get (codes "info") d)
  of_value (ok (str s, rest)) = err not_a_dictionary
  of_value (ok (int n, rest)) = err not_a_dictionary
  of_value (ok (list xs, rest)) = err not_a_dictionary

  -- Decode, on all the bytes of the file.
  unfoldable pub decode : Bytes → Result Failure MetaInfo
  unfolding of_value with_info meta_of tiers_or_none
  decode input = of_value (decode_all input)
