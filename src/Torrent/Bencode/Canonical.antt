-- ===== src/Torrent/Bencode/Canonical.antt =====
-- The values that the wire format can carry, and the map entries in ascending order.
use go_protocols.Common.{
  ◌<◌, ◌≡◌, ◌≢◌, refl, ap, true, false, [], ◌∷◌, ◌^◌, arith, Bytes, length, equal_iff,
}
use go_protocols.Common.Decimal.{IsInt64}
use go_protocols.Torrent.Bencode.{
  Value, int, str, list, dict, Items, nil, cons, Entries, end, entry, put, less, insert_sorted,
  sort_keys, encode, encode_entries,
}

-- Every key of the entries comes after k.
abbrev pub After : Bytes → Entries → Type 0
After k end = Unit
After k (entry j v m) = (less k j ≡ true) × After k m

-- The values that the wire format can carry, each in the form that it is read back in: integers of
-- 64 bits, lengths of an int, and the entries of a map listed by ascending key.
unfoldable mutual
  pub IsCanonical : Value → Type 0
  IsCanonical (int n) = IsInt64 n
  IsCanonical (str s) = length s < 2 ^ 63
  IsCanonical (list xs) = AreCanonical xs
  IsCanonical (dict m) = IsAscending m

  pub AreCanonical : Items → Type 0
  AreCanonical nil = Unit
  AreCanonical (cons v vs) = IsCanonical v × AreCanonical vs

  pub IsAscending : Entries → Type 0
  IsAscending end = Unit
  IsAscending (entry k v m) = (length k < 2 ^ 63) × IsCanonical v × After k m × IsAscending m

-- Sorting leaves ascending entries as they are.
insert_sorted-After :
    (k v : Bytes) (m : Entries)
    → After k m
    → insert_sorted (k, v) (encode_entries m) ≡ (k, v) ∷ encode_entries m
unfolding insert_sorted encode
insert_sorted-After k v end h = refl
insert_sorted-After k v (entry j w m) h = rw (h.0)

pub sort_keys-IsAscending :
    (m : Entries) → IsAscending m → sort_keys (encode_entries m) ≡ encode_entries m
unfolding sort_keys encode IsCanonical
sort_keys-IsAscending end h = refl
sort_keys-IsAscending (entry k v m) h =
    rw (sort_keys-IsAscending m h.3) (insert_sorted-After k (encode v) m h.2)

pub less_irrefl : (k : Bytes) → less k k ≡ false
unfolding less
less_irrefl [] = refl
less_irrefl (x ∷ k) = ground (arith, less_irrefl k)

less-ne : (k j : Bytes) → less k j ≡ true → k ≢ j
less-ne k j h e = cc (less_irrefl j, rw e at h)

abbrev pub append : Entries → Entries → Entries
append end n = n
append (entry k v m) n = entry k v (append m n)

-- The key is not among those of the entries.
abbrev pub Absent : Bytes → Entries → Type 0
Absent k end = Unit
Absent k (entry j v m) = (j ≢ k) × Absent k m

pub put-Absent :
    (k : Bytes) (v : Value) (m : Entries) → Absent k m → put k v m ≡ append m (entry k v end)
unfolding put
put-Absent k v end h = refl
put-Absent k v (entry j w m) h = ground (arith, equal_iff j k, put-Absent k v m)

pub append_assoc_entries : (m n o : Entries) → append (append m n) o ≡ append m (append n o)
append_assoc_entries end n o = refl
append_assoc_entries (entry k v m) n o = ap (entry k v) (append_assoc_entries m n o)

-- No key of the second entries is among those of the first.
abbrev pub Apart : Entries → Entries → Type 0
Apart m end = Unit
Apart m (entry k v n) = Absent k m × Apart m n

Absent-append : (k : Bytes) (m n : Entries) → Absent k m → Absent k n → Absent k (append m n)
Absent-append k end n h g = g
Absent-append k (entry j v m) n h g = (h.0, Absent-append k m n h.1 g)

-- A key before all of n may join the entries that n is apart from.
pub Apart-put :
    (k : Bytes) (v : Value) (m n : Entries)
    → Apart m n
    → After k n
    → Apart (append m (entry k v end)) n
Apart-put k v m end h g = tt
Apart-put k v m (entry j w n) h g =
    (Absent-append j m (entry k v end) h.0 (less-ne k j g.0, tt), Apart-put k v m n h.1 g.1)

pub Apart-end : (n : Entries) → Apart end n
Apart-end end = tt
Apart-end (entry k v n) = (tt, Apart-end n)

pub append_end : (m : Entries) → append m end ≡ m
append_end end = refl
append_end (entry k v m) = ap (entry k v) (append_end m)
