-- ===== src/Torrent/Bencode/Total.antt =====
-- The fuel of `decode`, and the size of what it leaves.
use go_protocols.Common.{
  ℕ, zero, suc, ◌+◌, ◌*◌, ◌≤◌, ◌<◌, ◌≢◌, Bool, true, false, Option, none, some, [], ◌∷◌, ◌==◌, inl,
  inr, arith, Bytes, length, length-drop, Result, ok, err, ◌>>=◌, Bool-cases, Option-cases,
  if◌then◌else◌, equal,
}
use go_protocols.Common.Decimal.{parse_int, is_digit, ℤ, pos, negsuc}
use go_protocols.Common.Text.{cut, cut-shorter, codes}
use go_protocols.Torrent.Bencode.{
  Entries, Error, stuck, read_number, decode_int, read_full, decode_string, wrap, string_value,
  list_value, dict_value_of, decode, decode_list, decode_dict, decode_all, put, dict_key,
  dict_value,
}

-- A result leaves fewer than n bytes, and an error is not the model's own.
abbrev pub Within : {A : Type 0} → ℕ → Result Error (A × Bytes) → Type 0
Within n (ok (a, rest)) = length rest < n
Within n (err e) = e ≢ stuck

module _ {A : Type 0} where
  Within-mono : (m : Result Error (A × Bytes)) (k n : ℕ) → k ≤ n → Within k m → Within n m
  Within-mono (ok (a, rest)) k n h w = omega arith
  Within-mono (err e) k n h w = w

  Within-if :
      (n : ℕ) (b : Bool) (x y : Result Error (A × Bytes))
      → Within n x
      → Within n y
      → Within n (if b then x else y)
  Within-if n true x y hx hy = hx
  Within-if n false x y hx hy = hy

  Within-wrap :
      (n : ℕ) (g : Error → Error) (m : Result Error (A × Bytes))
      → ((e : Error) → g e ≢ stuck)
      → Within n m
      → Within n (wrap g m)
  Within-wrap n g (ok (a, rest)) h w = w
  Within-wrap n g (err Error.stuck) h w = w
  Within-wrap n g (err Error.panicked) h w = w
  Within-wrap n g (err e) h w = h e

module _ {A B : Type 0} where
  Within-bind :
      (n : ℕ) (m : Result Error (A × Bytes)) (f : A × Bytes → Result Error (B × Bytes))
      → Within n m
      → ((a : A) (rest : Bytes) → length rest < n → Within n (f (a, rest)))
      → Within n (m >>= f)
  Within-bind n (ok (a, rest)) f w k = k a rest w
  Within-bind n (err e) f w k = w

read_number-Within :
    (o : Option ℤ) (rest : Bytes) (n : ℕ) → length rest < n → Within n (read_number o rest)
unfolding read_number
read_number-Within none rest n h = λ e. cc
read_number-Within (some v) rest n h = h

decode_int-Within : (r : Bytes) → Within (length r) (decode_int r)
unfolding decode_int
decode_int-Within r = elim (Option-cases (cut b'e' r)) [
  | inl missing ↦ rw (missing, Within) (λ e. cc)
  | inr ((s, rest), found) ↦
      rw (found, Within)
        (Within-if (length r) (equal s (codes "-0")) _ _ (λ e. cc)
          (read_number-Within (parse_int s) rest (length r) (cut-shorter b'e' r s rest found)))
]

read_full-Within : (o : Option ℤ) (r : Bytes) (n : ℕ) → length r < n → Within n (read_full o r)
unfolding read_full
read_full-Within none r n h = λ e. cc
read_full-Within (some (negsuc k)) r n h = λ e. cc
read_full-Within (some (pos k)) r n h = ground (arith, length-drop k r)

decode_string-Within : (r : Bytes) → Within (length r) (decode_string r)
unfolding decode_string
decode_string-Within r = elim (Option-cases (cut b':' r)) [
  | inl missing ↦ rw (missing, Within) (λ e. cc)
  | inr ((s, rest), found) ↦
      rw (found, Within)
        (read_full-Within (parse_int s) rest (length r) (cut-shorter b':' r s rest found))
]

mutual
  unfolding decode string_value list_value dict_value_of

  decode-Within : (f : ℕ) (r : Bytes) → 2 * length r + 1 ≤ f → Within (length r) (decode f r)
  decode-Within zero r h = absurd (omega arith)
  decode-Within (suc f) [] h = λ e. cc
  decode-Within (suc f) (b ∷ r) h =
      let n : ℕ = suc (length r) in
      Within-if n (b == b'i') _ _ (Within-mono _ (length r) n (omega arith) (decode_int-Within r)) (
        Within-if n (b == b'l') _ _
          (Within-bind n (decode_list f r) list_value
            (Within-mono _ (length r) n (omega arith) (decode_list-Within f r (omega arith)))
            (λ a rest k. k))
          (Within-if n (b == b'd') _ _
            (Within-bind n (decode_dict f Entries.end r) dict_value_of
              (Within-mono _ (length r) n (omega arith) (decode_dict-Within f _ r (omega arith)))
              (λ a rest k. k))
            (Within-if n (is_digit b) _ _
              (Within-bind n (decode_string (b ∷ r)) string_value (decode_string-Within (b ∷ r))
                (λ a rest k. k))
              (λ e. cc))))

  decode_list-Within :
      (f : ℕ) (r : Bytes) → 2 * length r + 2 ≤ f → Within (length r) (decode_list f r)
  decode_list-Within zero r h = absurd (omega arith)
  decode_list-Within (suc f) [] h = λ e. cc
  decode_list-Within (suc f) (b ∷ r) h = elim (Bool-cases (b == b'e')) [
    | inl last ↦ rw (last, Within) (omega arith)
    | inr more ↦
        rw (more, Within)
          (Within-bind (suc (length r)) (decode f (b ∷ r)) _ (decode-Within f (b ∷ r) (omega arith))
            λ v r' h'.
              Within-bind (suc (length r)) (decode_list f r') _
                (Within-mono _ (length r') _ (omega arith) (decode_list-Within f r' (omega arith)))
                λ vs r'' h''. h'')
  ]

  decode_dict-Within :
      (f : ℕ) (m : Entries) (r : Bytes)
      → 2 * length r + 2 ≤ f
      → Within (length r) (decode_dict f m r)
  decode_dict-Within zero m r h = absurd (omega arith)
  decode_dict-Within (suc f) m [] h = λ e. cc
  decode_dict-Within (suc f) m (b ∷ r) h = elim (Bool-cases (b == b'e')) [
    | inl last ↦ rw (last, Within) (omega arith)
    | inr more ↦
        rw (more, Within)
          (Within-bind (suc (length r)) (wrap dict_key (decode_string (b ∷ r))) _
            (Within-wrap _ dict_key (decode_string (b ∷ r)) (λ e p. cc)
              (decode_string-Within (b ∷ r)))
            λ k r' h'.
              Within-bind (suc (length r)) (wrap dict_value (decode f r')) _
                (Within-wrap _ dict_value (decode f r') (λ e p. cc)
                  (Within-mono _ (length r') _ (omega arith) (decode-Within f r' (omega arith))))
                λ v r'' h''.
                  Within-mono _ (length r'') _ (omega arith)
                    (decode_dict-Within f (put k v m) r'' (omega arith)))
  ]

-- Decode ends on every input, and a value that it returns takes at least one byte.
pub decode_all-Within : (r : Bytes) → Within (length r) (decode_all r)
unfolding decode_all
decode_all-Within r = decode-Within (2 * length r + 1) r (omega arith)
