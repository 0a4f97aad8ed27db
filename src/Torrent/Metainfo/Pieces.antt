-- ===== src/Torrent/Metainfo/Pieces.antt =====
-- The hashes of the pieces, and the hash of the info dictionary.
use go_protocols.Common.{
  ℕ, zero, suc, ◌*◌, ◌/◌, ◌%◌, ◌≡◌, refl, sym, ap, ◌∙◌, Option, inl, inr, List, [], ◌∷◌, ◌++◌, some,
  ◌==◌, Bool-cases, bind-eq-ok, Bytes, All, length, take, drop, length-take, length-drop, Result,
  ok, err, ◌>>=◌, arith,
}
use go_protocols.Common.Text.{codes}
use go_protocols.Torrent.Bencode.{Value, str, dict, Entries, decode_all}
use go_protocols.Torrent.Bencode.Canonical.{IsCanonical}
use go_protocols.Torrent.Bencode.Order.{Same, written, written-Same}
use go_protocols.Torrent.Metainfo.{
  Info, MetaInfo, Failure, get, slices, pieces_of, files_of, parse_info, meta_of, with_info,
  of_value, decode,
}

unfoldable pub concat : List Bytes → Bytes
concat [] = []
concat (s ∷ ss) = s ++ concat ss

-- The hashes cover the text, 20 bytes each.
pub record AreHashes (s : Bytes) (hs : List Bytes) : Type 0 where
  pub joined : concat hs ≡ s
  pub sized : All (λ h. length h ≡ 20) hs

take-drop : (n : ℕ) (s : Bytes) → take n s ++ drop n s ≡ s
take-drop zero s = refl
take-drop (suc n) [] = refl
take-drop (suc n) (c ∷ s) = ap (◌∷◌ c) (take-drop n s)

slices-AreHashes : (n : ℕ) (s : Bytes) → length s ≡ n * 20 → AreHashes s (slices n s)
unfolding slices concat
slices-AreHashes zero [] h = record { joined = refl; sized = tt }
slices-AreHashes zero (c ∷ s) h = absurd (omega arith)
slices-AreHashes (suc n) s h =
    let rest = slices-AreHashes n (drop 20 s) (omega (arith, length-drop 20 s)) in
    let k = rest.joined in
    record { joined = rw k (take-drop 20 s); sized = (omega (arith, length-take 20 s), rest.sized) }

pieces_of-AreHashes :
    (o : Option Value) (s : Bytes) (hs : List Bytes)
    → o ≡ some (str s)
    → pieces_of o ≡ ok hs
    → AreHashes s hs
unfolding pieces_of
pieces_of-AreHashes o s hs g k =
    let e : pieces_of (some (str s)) ≡ ok hs = rw g at k in
    elim (Bool-cases (length s % 20 == 0)) [
      | inl even ↦
          let same : ◌≡◌ {A = Result Failure (List Bytes)} (ok (slices (length s / 20) s)) (ok hs) =
            rw even at e in
          let eq : slices (length s / 20) s ≡ hs = cc in
          rw eq at (slices-AreHashes (length s / 20) s (ground (arith, even)))
      | inr odd ↦ absurd (ground (arith, odd))
    ]

-- The pieces and the hash of a result.
abbrev ok_pieces : Result Failure Info → List Bytes
ok_pieces (ok i) = i.pieces
ok_pieces (err e) = []

abbrev ok_hash : Result Failure MetaInfo → Bytes
ok_hash (ok m) = m.info_hash
ok_hash (err e) = []

-- The hashes that parseInfo takes out of `pieces` have 20 bytes each and together are that text.
pub parse_info-AreHashes :
    (d : Entries) (s : Bytes) (i : Info)
    → get (codes "pieces") d ≡ some (str s)
    → parse_info d ≡ ok i
    → AreHashes s i.pieces
unfolding parse_info
parse_info-AreHashes d s i g e =
    let (hs, k, l) = bind-eq-ok (pieces_of (get (codes "pieces") d)) _ e in
    let (fs, m, n) = bind-eq-ok (files_of (get (codes "files") d)) _ l in
    let hashes = pieces_of-AreHashes (get (codes "pieces") d) s hs g k in
    let same : hs ≡ i.pieces = ap ok_pieces n in rw same at hashes

-- The info hash of a decoded torrent file is the digest of the info dictionary with the entries
-- of its maps, at any depth, in ascending order of the keys, in whatever order they stand in the
-- file, when that form is canonical.
pub decode-info_hash :
    (sha1 : Bytes → Bytes) (file rest : Bytes) (d info sorted : Entries) (m : MetaInfo)
    → decode_all file ≡ ok (dict d, rest)
    → get (codes "info") d ≡ some (dict info)
    → Same (dict info) (dict sorted)
    → IsCanonical (dict sorted)
    → decode sha1 file ≡ ok m
    → m.info_hash ≡ sha1 (written (dict sorted))
unfolding decode of_value with_info meta_of
decode-info_hash sha1 file rest d info sorted m read g same h e =
    let parsed : with_info sha1 d (get (codes "info") d) ≡ ok m = rw read at e in
    let found : (parse_info info >>= λ i. ok (meta_of sha1 d info i)) ≡ ok m = rw g at parsed in
    let (i, k, l) = bind-eq-ok (parse_info info) _ found in
    sym (ap ok_hash l) ∙ ap sha1 (written-Same (dict info) (dict sorted) same h)
