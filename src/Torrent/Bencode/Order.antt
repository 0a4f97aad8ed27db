-- ===== src/Torrent/Bencode/Order.antt =====
-- The order in which Encode meets the entries of a map.
use go_protocols.Common.{
  ◌≡◌, ◌≢◌, refl, ap, ◌∙◌, true, false, List, [], ◌∷◌, ◌++◌, Bool-cases, inl, inr, Bytes, arith,
}
use go_protocols.Common.Decimal.{ℤ, format_int}
use go_protocols.Torrent.Bencode.{
  Value, int, str, list, dict, Items, nil, cons, Entries, end, entry, less, insert_sorted,
  sort_keys, encode_string, join, encode, encode_items, encode_entries,
}
use go_protocols.Torrent.Bencode.Canonical.{
  IsCanonical, AreCanonical, IsAscending, sort_keys-IsAscending, less_irrefl,
}

less_trans : (a b c : Bytes) → less a b ≡ true → less b c ≡ true → less a c ≡ true
unfolding less
less_trans a [] c h k = absurd (cc)
less_trans a (y ∷ b) [] h k = absurd (cc)
less_trans [] (y ∷ b) (z ∷ c) h k = refl
less_trans (x ∷ a) (y ∷ b) (z ∷ c) h k = ground (arith, less_trans a b c)

less_total : (a b : Bytes) → less a b ≡ false → less b a ≡ false → a ≡ b
unfolding less
less_total [] [] h k = refl
less_total [] (y ∷ b) h k = absurd (cc)
less_total (x ∷ a) [] h k = absurd (cc)
less_total (x ∷ a) (y ∷ b) h k = ground (arith, less_total a b)

less_asym : (a b : Bytes) → less a b ≡ true → less b a ≡ false
less_asym a b h = elim (Bool-cases (less b a)) [
  | inl k ↦ absurd (let q = less_trans a b a h k in let r = less_irrefl a in cc)
  | inr k ↦ k
]

less_other : (a b : Bytes) → a ≢ b → less a b ≡ false → less b a ≡ true
less_other a b ne h = elim (Bool-cases (less b a)) [
  | inl k ↦ k
  | inr k ↦ absurd (ne (less_total a b h k))
]

-- Two keys may be inserted in either order.
insert_sorted_swap :
    (p q : Bytes × Bytes) (l : List (Bytes × Bytes))
    → p.0 ≢ q.0
    → insert_sorted p (insert_sorted q l) ≡ insert_sorted q (insert_sorted p l)
unfolding insert_sorted
insert_sorted_swap p q [] ne = elim (Bool-cases (less p.0 q.0)) [
  | inl h ↦ rw (h, less_asym p.0 q.0 h)
  | inr h ↦ rw (h, less_other p.0 q.0 ne h)
]
insert_sorted_swap p q (r ∷ l) ne = elim (Bool-cases (less p.0 r.0)) [
  | inl a ↦ elim (Bool-cases (less q.0 r.0)) [
    | inl b ↦ elim (Bool-cases (less p.0 q.0)) [
      | inl h ↦ rw (a, b, h, less_asym p.0 q.0 h)
      | inr h ↦ rw (a, b, h, less_other p.0 q.0 ne h, a)
    ]
    | inr b ↦
        let far : less q.0 p.0 ≡ false = elim (Bool-cases (less q.0 p.0)) [
          | inl h ↦ absurd (let t = less_trans q.0 p.0 r.0 h a in cc)
          | inr h ↦ h
        ] in
        rw (a, b, far, a)
  ]
  | inr a ↦ elim (Bool-cases (less q.0 r.0)) [
    | inl b ↦
        let far : less p.0 q.0 ≡ false = elim (Bool-cases (less p.0 q.0)) [
          | inl h ↦ absurd (let t = less_trans p.0 q.0 r.0 h b in cc)
          | inr h ↦ h
        ] in
        rw (a, b, far, a)
    | inr b ↦ rw (a, b, a) (ap (◌∷◌ r) (insert_sorted_swap p q l ne))
  ]
]

-- The same value up to the order of the entries of its maps, at any depth.
mutual
  pub data Same : Value → Value → Type 0 where
    same_int : (n : ℤ) → Same (int n) (int n)
    same_str : (s : Bytes) → Same (str s) (str s)
    same_list : (xs ys : Items) → SameItems xs ys → Same (list xs) (list ys)
    same_dict : (m n : Entries) → SameEntries m n → Same (dict m) (dict n)

  pub data SameItems : Items → Items → Type 0 where
    same_nil : SameItems nil nil
    same_cons :
        (v w : Value) (xs ys : Items)
        → Same v w
        → SameItems xs ys
        → SameItems (cons v xs) (cons w ys)

  pub data SameEntries : Entries → Entries → Type 0 where
    same_end : SameEntries end end
    same_entry :
        (k : Bytes) (v w : Value) (m n : Entries)
        → Same v w
        → SameEntries m n
        → SameEntries (entry k v m) (entry k w n)
    swapped :
        (j k : Bytes) (v w : Value) (m : Entries)
        → j ≢ k
        → SameEntries (entry j v (entry k w m)) (entry k w (entry j v m))
    through : (l m n : Entries) → SameEntries l m → SameEntries m n → SameEntries l n

mutual
  unfolding encode sort_keys

  encode-Same : (v w : Value) → Same v w → encode v ≡ encode w
  encode-Same _ _ (same_int n) = refl
  encode-Same _ _ (same_str s) = refl
  encode-Same _ _ (same_list xs ys h) = rw (encode_items-SameItems xs ys h)
  encode-Same _ _ (same_dict m n h) = rw (sort_keys-SameEntries m n h)

  encode_items-SameItems : (xs ys : Items) → SameItems xs ys → encode_items xs ≡ encode_items ys
  encode_items-SameItems _ _ same_nil = refl
  encode_items-SameItems _ _ (same_cons v w xs ys h hs) =
      rw (encode-Same v w h, encode_items-SameItems xs ys hs)

  sort_keys-SameEntries :
      (m n : Entries)
      → SameEntries m n
      → sort_keys (encode_entries m) ≡ sort_keys (encode_entries n)
  sort_keys-SameEntries _ _ same_end = refl
  sort_keys-SameEntries _ _ (same_entry k v w m n h hs) =
      rw (encode-Same v w h, sort_keys-SameEntries m n hs)
  sort_keys-SameEntries _ _ (swapped j k v w m ne) =
      insert_sorted_swap (j, encode v) (k, encode w) (sort_keys (encode_entries m)) ne
  sort_keys-SameEntries _ _ (through l m n h g) =
      sort_keys-SameEntries l m h ∙ sort_keys-SameEntries m n g

-- The text of a value with the entries of its maps as they are listed.
unfoldable mutual
  unfolding encode_string

  pub written : Value → Bytes
  written (int n) = b'i' ∷ (format_int n ++ b'e' ∷ [])
  written (str s) = encode_string s
  written (list xs) = b'l' ∷ (written_items xs ++ b'e' ∷ [])
  written (dict m) = b'd' ∷ (written_entries m ++ b'e' ∷ [])

  written_items : Items → Bytes
  written_items nil = []
  written_items (cons v vs) = written v ++ written_items vs

  written_entries : Entries → Bytes
  written_entries end = []
  written_entries (entry k v m) = encode_string k ++ (written v ++ written_entries m)

mutual
  unfolding encode join written IsCanonical

  encode-written : (v : Value) → IsCanonical v → encode v ≡ written v
  encode-written (int n) h = refl
  encode-written (str s) h = refl
  encode-written (list xs) h = rw (encode_items-written_items xs h)
  encode-written (dict m) h = rw (sort_keys-IsAscending m h, join-written_entries m h)

  encode_items-written_items : (xs : Items) → AreCanonical xs → encode_items xs ≡ written_items xs
  encode_items-written_items nil h = refl
  encode_items-written_items (cons v vs) h =
      rw (encode-written v h.0, encode_items-written_items vs h.1)

  join-written_entries : (m : Entries) → IsAscending m → join (encode_entries m) ≡ written_entries m
  join-written_entries end h = refl
  join-written_entries (entry k v m) h = rw (encode-written v h.1, join-written_entries m h.3)

-- Encode writes the entries in ascending order, whatever the order in which it meets them.
pub written-Same : (v w : Value) → Same v w → IsCanonical w → encode v ≡ written w
written-Same v w h c = encode-Same v w h ∙ encode-written w c
