-- ===== src/Sftp/Server/Handles.antt =====
-- The table of open handles: its invariant, and the handle that newHandle makes.
use go_protocols.Common.{
  ℕ, ◌+◌, ◌%◌, ◌^◌, ◌≤◌, ◌<◌, ◌≡◌, ◌≢◌, sym, ap, ◌∙◌, inl, inr, true, false, List, ◌∷◌, none, some,
  Option-cases, Bool-cases, equal, equal_iff, equal_refl, Bytes, arith,
}
use go_protocols.Common.Decimal.{decimal, digits_value, digits_value-decimal}
use go_protocols.Common.Maps.{bytes_key, lookup, insert, lookup-insert, lookup-delete}
use go_protocols.Sftp.Server.{
  State, or_false, new_handle, resolve, mark_drained, is_drained, forget,
}

-- The handle with a number.
abbrev pub handle_name : ℕ → Bytes
handle_name n = b'h' ∷ decimal n

handle_name_injective : (m n : ℕ) → handle_name m ≡ handle_name n → m ≡ n
handle_name_injective m n e =
    let same : decimal m ≡ decimal n = cc in
    let read : digits_value 0 (decimal m) ≡ digits_value 0 (decimal n) = ap (digits_value 0) same in
    let a = digits_value-decimal m in let b = digits_value-decimal n in cc

equal_other : (a b : Bytes) → b ≢ a → equal a b ≡ false
equal_other a b h = elim (Bool-cases (equal a b)) [
  | inl e ↦ absurd (h (sym ((equal_iff a b).0 e)))
  | inr e ↦ e
]

module _ {V : Type 0} where
  lookup-insert_same : (h : Bytes) (v : V) (m : List (Bytes × V)) → lookup h (insert h v m) ≡ some v
  lookup-insert_same h v m = rw (lookup-insert h h v m, equal_refl h)

  lookup-insert_other :
      (h j : Bytes) (v : V) (m : List (Bytes × V)) → j ≢ h → lookup j (insert h v m) ≡ lookup j m
  lookup-insert_other h j v m other = rw (lookup-insert h j v m, equal_other h j other)

module _ {World : Type 0} where
  -- Every open handle carries a number that was given, and no handle is marked as drained but an open
  -- one.
  pub record IsValid (s : State World) : Type 0 where
    pub named :
        (h real : Bytes) → resolve h s ≡ some real → (n : ℕ) × (h ≡ handle_name n) × (n ≤ s.next_id)
    pub opened : (h : Bytes) → is_drained h s ≡ true → (real : Bytes) × (resolve h s ≡ some real)

  -- The same table.
  pub record Same (s t : State World) : Type 0 where
    pub handles : t.handles ≡ s.handles
    pub drained : t.drained ≡ s.drained
    pub next_id : t.next_id ≡ s.next_id

  -- The table is valid again, and one number at most was given.
  pub record Keeps (s t : State World) : Type 0 where
    pub valid : IsValid t
    pub grows : t.next_id ≤ s.next_id + 1

  pub resolve-Same : (s t : State World) (h : Bytes) → Same s t → resolve h t ≡ resolve h s
  unfolding resolve
  resolve-Same s t h e = let k = e.handles in rw k

  is_drained-Same : (s t : State World) (h : Bytes) → Same s t → is_drained h t ≡ is_drained h s
  unfolding is_drained
  is_drained-Same s t h e = let k = e.drained in rw k

  pub Same-Keeps : (s t : State World) → IsValid s → Same s t → Keeps s t
  Same-Keeps s t v e = record {
    valid = record {
      named = λ h real k.
          let (n, same, le) = v.named h real (sym (resolve-Same s t h e) ∙ k) in
          (n, same, let q = e.next_id in omega arith);
      opened = λ h k.
          let (real, o) = v.opened h (sym (is_drained-Same s t h e) ∙ k) in
          (real, resolve-Same s t h e ∙ o);
    };
    grows = let q = e.next_id in omega arith;
  }

  module _ (s : State World) (v : IsValid s) where
    resolve-next : (n : ℕ) → s.next_id < n → resolve (handle_name n) s ≡ none
    resolve-next n more = elim (Option-cases (resolve (handle_name n) s)) [
      | inl e ↦ e
      | inr (real, e) ↦
          let (m, same, le) = v.named (handle_name n) real e in
          absurd (omega (arith, handle_name_injective n m same))
    ]

    not_drained : (h : Bytes) → resolve h s ≡ none → is_drained h s ≡ false
    not_drained h e = elim (Bool-cases (is_drained h s)) [
      | inr k ↦ k
      | inl k ↦ let (real, o) = v.opened h k in absurd (cc)
    ]

    -- In a valid table, where every open handle carries a number that was given and only open
    -- handles are drained, and while numbers are left, newHandle gives a handle that was not
    -- open, which is not drained and stands for the backend's name; every other handle stands for
    -- what it stood for.
    pub new_handle-fresh :
        (real : Bytes)
        → s.next_id + 1 < 2 ^ 32
        → let (h, t) = new_handle real s in
          (resolve h s ≡ none)
          × (is_drained h t ≡ false)
          × (resolve h t ≡ some real)
          × ((j : Bytes) → j ≢ h → resolve j t ≡ resolve j s)
    unfolding new_handle resolve is_drained
    new_handle-fresh real room =
        let n : ℕ = (s.next_id + 1) % 2 ^ 32 in
        let new = resolve-next n (omega arith) in
        (
          new,
          not_drained (handle_name n) new,
          lookup-insert_same (handle_name n) real s.handles,
          λ j other. lookup-insert_other (handle_name n) j real s.handles other,
        )

    pub new_handle-Keeps : (real : Bytes) → s.next_id + 1 < 2 ^ 32 → Keeps s (new_handle real s).1
    unfolding new_handle resolve is_drained
    new_handle-Keeps real room =
        let n : ℕ = (s.next_id + 1) % 2 ^ 32 in
        let h : Bytes = handle_name n in
        record {
          valid = record {
            named = λ j r k. elim (Bool-cases (equal h j)) [
              | inl e ↦ (n, sym ((equal_iff h j).0 e), omega arith)
              | inr e ↦
                  let old = rw e at (sym (lookup-insert h j real s.handles) ∙ k) in
                  let (m, q, le) = v.named j r old in (m, q, omega arith)
            ];
            opened = λ j k. elim (Bool-cases (equal h j)) [
              | inl e ↦ (real, lookup-insert h j real s.handles ∙ rw e)
              | inr e ↦ let (r, o) = v.opened j k in (r, lookup-insert h j real s.handles ∙ rw e o)
            ];
          };
          grows = omega arith;
        }

    pub mark_drained-Keeps : (h real : Bytes) → resolve h s ≡ some real → Keeps s (mark_drained h s)
    unfolding mark_drained resolve is_drained
    mark_drained-Keeps h real o = record {
      valid = record {
        named = v.named;
        opened = λ j k. elim (Bool-cases (equal h j)) [
          | inl e ↦ (real, rw ((equal_iff h j).0 e) at o)
          | inr e ↦ v.opened j (rw (lookup-insert h j true s.drained, e) at k)
        ];
      };
      grows = omega arith;
    }

    pub forget-Keeps : (h : Bytes) → Keeps s (forget h s)
    unfolding forget resolve is_drained or_false
    forget-Keeps h = record {
      valid = record {
        named = λ j r k. elim (Bool-cases (equal h j)) [
          | inl e ↦ absurd (ground (arith, lookup-delete h j s.handles, e))
          | inr e ↦ v.named j r (rw (lookup-delete h j s.handles, e) at k)
        ];
        opened = λ j k. elim (Bool-cases (equal h j)) [
          | inl e ↦ absurd (ground (arith, lookup-delete h j s.drained, e))
          | inr e ↦
              let (r, o) = v.opened j (rw (lookup-delete h j s.drained, e) at k) in
              (r, rw (lookup-delete h j s.handles, e) o)
        ];
      };
      grows = omega arith;
    }
