-- ===== src/Torrent/Bencode/RoundTrip.antt =====
-- `encode` and `decode_all` together.
use go_protocols.Common.{
  ℕ, zero, suc, ◌+◌, ◌*◌, ◌≤◌, ◌<◌, ◌≡◌, ◌≢◌, refl, sym, ◌∙◌, true, false, some, [], ◌∷◌, ◌++◌, ◌^◌,
  ◌==◌, inl, inr, arith, Bytes, length, length-append, take-append, drop-append, ok, ◌>>=◌,
  Bool-cases, append_assoc, equal, equal_iff, All, leb,
}
use go_protocols.Common.Decimal.{
  is_digit, ℤ, pos, negsuc, IsInt64, format_int, decimal, decimal-digits, digits_value,
  digits_value-decimal, decimal-cons, parse_int-format_int, parse_int-decimal_lt,
}
use go_protocols.Common.Text.{codes, cut-append, Free}
use go_protocols.Torrent.Bencode.{
  Value, int, str, list, dict, Items, nil, cons, Entries, end, entry, decode_int, read_full,
  decode_string, string_value, list_value, dict_value_of, decode, decode_list, decode_dict,
  decode_all, put, encode_string, join, encode, encode_items, encode_entries,
}
use go_protocols.Torrent.Bencode.Canonical.{
  IsCanonical, AreCanonical, IsAscending, Apart, append, sort_keys-IsAscending, put-Absent,
  append_assoc_entries, Apart-put, Apart-end, append_end,
}

digit-ne : (c x : ℕ) → is_digit x ≡ true → is_digit c ≡ false → x ≢ c
digit-ne c x h k = ground arith

digits-Free : (c : ℕ) (s : Bytes) → is_digit c ≡ false → All (λ x. is_digit x ≡ true) s → Free c s
digits-Free c [] h a = tt
digits-Free c (x ∷ s) h a = (digit-ne c x a.0 h, digits-Free c s h a.1)

pub decimal-Free : (c n : ℕ) → is_digit c ≡ false → Free c (decimal n)
decimal-Free c n h = digits-Free c (decimal n) h (decimal-digits n)

format_int-Free : (n : ℤ) → Free b'e' (format_int n)
unfolding format_int
format_int-Free (pos n) = decimal-Free b'e' n refl
format_int-Free (negsuc n) = (omega arith, decimal-Free b'e' (n + 1) refl)

digits_of_zero : (n : ℕ) → decimal n ≡ b'0' ∷ [] → n ≡ 0
digits_of_zero n e = unfold digits_value in ground (arith, rw e at (digits_value-decimal n))

format_int-ne : (n : ℤ) → format_int n ≢ codes "-0"
unfolding format_int
format_int-ne (pos n) e =
    let (c, cs, split, d) = decimal-cons n in
    let same : c ∷ cs ≡ codes "-0" = sym split ∙ e in absurd (digit-ne b'-' c d refl (cc))
format_int-ne (negsuc n) e = absurd (ground (arith, digits_of_zero (n + 1)))

not_minus_zero : (n : ℤ) → equal (format_int n) (codes "-0") ≡ false
not_minus_zero n = elim (Bool-cases (equal (format_int n) (codes "-0"))) [
  | inl e ↦ absurd (format_int-ne n ((equal_iff _ _).0 e))
  | inr e ↦ e
]

decode_int-format_int :
    (n : ℤ) (rest : Bytes) → IsInt64 n → decode_int (format_int n ++ b'e' ∷ rest) ≡ ok (int n, rest)
unfolding decode_int
decode_int-format_int n rest h = rw (
  cut-append b'e' (format_int n) rest (format_int-Free n),
  not_minus_zero n,
  parse_int-format_int n h,
  decode_int,
)

read_full-exact : (s rest : Bytes) → read_full (some (pos (length s))) (s ++ rest) ≡ ok (s, rest)
unfolding read_full
read_full-exact s rest =
    let fits : leb (length s) (length (s ++ rest)) ≡ true = ground (arith, length-append s rest) in
    rw (fits, take-append s rest, drop-append s rest)

decode_string-encode :
    (s rest : Bytes) → length s < 2 ^ 63 → decode_string (encode_string s ++ rest) ≡ ok (s, rest)
unfolding decode_string encode_string
decode_string-encode s rest h =
    rw
      (
        append_assoc (decimal (length s)) (b':' ∷ s) rest,
        cut-append b':' (decimal (length s)) (s ++ rest) (decimal-Free b':' (length s) refl),
        decode_string,
      )
      (rw (parse_int-decimal_lt (length s) h) (read_full-exact s rest))

-- The first byte of a value is no 'e', and that of a key is a digit.
abbrev Starts : Bytes → Type 0
Starts s = (c : ℕ) × (cs : Bytes) × (s ≡ c ∷ cs) × ((c == b'e') ≡ false)

encode_string-Starts : (s : Bytes) → Starts (encode_string s)
unfolding encode_string
encode_string-Starts s =
    let (c, cs, e, d) = decimal-cons (length s) in (c, cs ++ b':' ∷ s, rw e, ground arith)

encode-Starts : (v : Value) → Starts (encode v)
unfolding encode
encode-Starts (int n) = (b'i', _, refl, refl)
encode-Starts (str s) = encode_string-Starts s
encode-Starts (list xs) = (b'l', _, refl, refl)
encode-Starts (dict m) = (b'd', _, refl, refl)

decode_list_step :
    (f : ℕ) (v : Value) (vs : Items) (r rest : Bytes)
    → decode f (encode v ++ r) ≡ ok (v, r)
    → decode_list f r ≡ ok (vs, rest)
    → decode_list (suc f) (encode v ++ r) ≡ ok (cons v vs, rest)
decode_list_step f v vs r rest h g =
    let (c, cs, e, ne) = encode-Starts v in
    let h' : decode f (c ∷ cs ++ r) ≡ ok (v, r) = rw e at h in
    rw e (unfold decode in rw (ne, h', g, decode_list))

decode_dict_step :
    (f : ℕ) (m n : Entries) (k : Bytes) (v : Value) (r rest : Bytes)
    → length k < 2 ^ 63
    → decode f (encode v ++ r) ≡ ok (v, r)
    → decode_dict f (put k v m) r ≡ ok (n, rest)
    → decode_dict (suc f) m (encode_string k ++ (encode v ++ r)) ≡ ok (n, rest)
decode_dict_step f m n k v r rest fits h g =
    let (c, cs, e, ne) = encode_string-Starts k in
    let key : decode_string (c ∷ cs ++ (encode v ++ r)) ≡ ok (k, encode v ++ r) =
      rw e at (decode_string-encode k (encode v ++ r) fits) in
    rw e (unfold decode in rw (ne, key, h, g, decode_dict))

encode_pos : (v : Value) → 1 ≤ length (encode v)
encode_pos v = let (c, cs, e, ne) = encode-Starts v in rw e (omega arith)

encode_string_pos : (s : Bytes) → 1 ≤ length (encode_string s)
encode_string_pos s = let (c, cs, e, ne) = encode_string-Starts s in rw e (omega arith)

decode_digit :
    (f c : ℕ) (r : Bytes)
    → is_digit c ≡ true
    → decode (suc f) (c ∷ r) ≡ (decode_string (c ∷ r) >>= string_value)
unfolding decode
decode_digit f c r h =
    let i : (c == b'i') ≡ false = ground arith in
    let l : (c == b'l') ≡ false = ground arith in
    let d : (c == b'd') ≡ false = ground arith in rw (i, l, d, h)

decode-encode_string :
    (f : ℕ) (s rest : Bytes)
    → length s < 2 ^ 63
    → decode (suc f) (encode_string s ++ rest) ≡ ok (str s, rest)
decode-encode_string f s rest h =
    let (c, cs, e, d) = decimal-cons (length s) in
    let whole : encode_string s ++ rest ≡ c ∷ (cs ++ b':' ∷ s ++ rest) =
      unfold encode_string in rw e in
    rw whole (
      decode_digit f c _ d
      ∙ rw (← whole, decode_string-encode s rest h) (unfold string_value in refl))

mutual
  unfolding decode encode string_value list_value dict_value_of IsCanonical

  decode-encode :
      (f : ℕ) (v : Value) (rest : Bytes)
      → IsCanonical v
      → 2 * (length (encode v) + length rest) + 1 ≤ f
      → decode f (encode v ++ rest) ≡ ok (v, rest)
  decode-encode zero v rest h n = absurd (omega arith)
  decode-encode (suc f) (int x) rest h n =
      rw (append_assoc (format_int x) (b'e' ∷ []) rest) (decode_int-format_int x rest h)
  decode-encode (suc f) (str s) rest h n = decode-encode_string f s rest h
  decode-encode (suc f) (list xs) rest h n =
      let size = length-append (encode_items xs) (b'e' ∷ []) in
      let ih = decode_list-encode f xs rest h (omega arith) in
      rw (append_assoc (encode_items xs) (b'e' ∷ []) rest, ih)
  decode-encode (suc f) (dict m) rest h n =
      let sorted = sort_keys-IsAscending m h in
      let fields : Bytes = join (encode_entries m) in
      let n' : 2 * (suc (length (fields ++ b'e' ∷ [])) + length rest) + 1 ≤ suc f =
        rw sorted at n in
      let size = length-append fields (b'e' ∷ []) in
      let ih = decode_dict-encode f end m rest h (Apart-end m) (omega arith) in
      rw (sorted, append_assoc fields (b'e' ∷ []) rest, ih)

  decode_list-encode :
      (f : ℕ) (xs : Items) (rest : Bytes)
      → AreCanonical xs
      → 2 * (length (encode_items xs) + length rest) + 4 ≤ f
      → decode_list f (encode_items xs ++ b'e' ∷ rest) ≡ ok (xs, rest)
  decode_list-encode zero xs rest h n = absurd (omega arith)
  decode_list-encode (suc f) nil rest h n = refl
  decode_list-encode (suc f) (cons v vs) rest h n =
      let r : Bytes = encode_items vs ++ b'e' ∷ rest in
      let size = length-append (encode v) (encode_items vs) in
      let left = length-append (encode_items vs) (b'e' ∷ rest) in
      let pos = encode_pos v in
      rw (append_assoc (encode v) (encode_items vs) (b'e' ∷ rest)) (
        decode_list_step f v vs r rest (decode-encode f v r h.0 (omega arith))
          (decode_list-encode f vs rest h.1 (omega arith)))

  decode_dict-encode :
      (f : ℕ) (m es : Entries) (rest : Bytes)
      → IsAscending es
      → Apart m es
      → 2 * (length (join (encode_entries es)) + length rest) + 4 ≤ f
      → decode_dict f m (join (encode_entries es) ++ b'e' ∷ rest) ≡ ok (append m es, rest)
  decode_dict-encode zero m es rest h a n = absurd (omega arith)
  decode_dict-encode (suc f) m end rest h a n = rw (append_end m)
  decode_dict-encode (suc f) m (entry k v es) rest h a n =
      let fields : Bytes = join (encode_entries es) in
      let r : Bytes = fields ++ b'e' ∷ rest in
      let size = length-append (encode_string k) (encode v ++ fields) in
      let size' = length-append (encode v) fields in
      let left = length-append fields (b'e' ∷ rest) in
      let pos = encode_string_pos k in
      let m' : Entries = append m (entry k v end) in
      let ih : decode_dict f m' r ≡ ok (append m' es, rest) =
        decode_dict-encode f m' es rest h.3 (Apart-put k v m es a.1 h.2) (omega arith) in
      rw
        (
          append_assoc (encode_string k) (encode v ++ fields) (b'e' ∷ rest),
          append_assoc (encode v) fields (b'e' ∷ rest),
        )
        (decode_dict_step f m _ k v r rest h.0 (decode-encode f v r h.1 (omega arith))
          (rw (put-Absent k v m a.0, ih, append_assoc_entries m (entry k v end) es)))

-- Decode reads back what Encode wrote for a canonical value, and leaves whatever follows it
-- unread.
pub decode_all-encode :
    (v : Value) (rest : Bytes) → IsCanonical v → decode_all (encode v ++ rest) ≡ ok (v, rest)
unfolding decode_all
decode_all-encode v rest h =
    let size = length-append (encode v) rest in
    decode-encode (2 * length (encode v ++ rest) + 1) v rest h (omega arith)
