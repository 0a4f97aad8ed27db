-- ===== src/Irc/Ringbuf/Views.antt =====
-- What Last, ForEach and a series of pushes show of a ring buffer.
use go_protocols.Common.{
  ℕ, zero, suc, ◌+◌, ◌-◌, ◌≤◌, ◌≡◌, ◌∙◌, refl, ap, sym, Bool, List, [], ◌∷◌, ◌++◌, ltb, ◌==◌,
  if◌then◌else◌, length, drop, arith, Bool-cases, inl, inr, append-nil, append_assoc,
}
use go_protocols.Irc.Ringbuf.{RingBuf, new, at, copy_out, slice, last, visit, for_each, push}
use go_protocols.Irc.Ringbuf.Queue.{
  IsValid, new-IsValid, push-IsValid, size-push, slice-push, length-slice,
}

module _ {ℓ} {A : Type ℓ} where
  module _ (null : A) where
    drop-copy_out :
        (r : RingBuf A) (k i n : ℕ) → drop k (copy_out null r i (k + n)) ≡ copy_out null r (i + k) n
    unfolding copy_out
    drop-copy_out r zero i n =
        let a : 0 + n ≡ n = omega arith in let b : i + 0 ≡ i = omega arith in rw (a, b)
    drop-copy_out r (suc k) i n =
        let a : suc k + n ≡ suc (k + n) = omega arith in
        let b : i + suc k ≡ i + 1 + k = omega arith in rw (a, b) (drop-copy_out r k (i + 1) n)

    -- Last is the end of what Slice shows: n elements, or all when there are fewer.
    pub last-slice : (n : ℕ) (r : RingBuf A) → last null n r ≡ drop (r.size - n) (slice null r)
    unfolding last slice
    last-slice n r = elim (Bool-cases (ltb r.size n)) [
      | inl all ↦
          let a : r.size - r.size ≡ 0 = omega arith in
          let b : r.size - n ≡ 0 = ground arith in rw (all, a, b)
      | inr some_of ↦
          let a : r.size ≡ r.size - n + n = ground arith in
          let front = drop-copy_out r (r.size - n) 0 n in
          let b : 0 + (r.size - n) ≡ r.size - n = omega arith in
          rw some_of (
            sym (
              ap (λ (t : ℕ). drop (r.size - n) (copy_out null r 0 t)) a
              ∙ front
              ∙ ap (λ (t : ℕ). copy_out null r t n) b))
    ]

-- Push, once for each element of a list.
abbrev pub push_all {ℓ} : {A : Type ℓ} → List A → RingBuf A → RingBuf A
push_all [] r = r
push_all (v ∷ vs) r = push_all vs (push v r)

drop-append_drop {ℓ} :
    {A : Type ℓ} (a d : ℕ) (xs ys : List A)
    → d ≤ length xs
    → drop a (drop d xs ++ ys) ≡ drop (d + a) (xs ++ ys)
drop-append_drop a zero xs ys h = let e : 0 + a ≡ a = omega arith in rw e
drop-append_drop a (suc d) [] ys h = absurd (omega arith)
drop-append_drop a (suc d) (x ∷ xs) ys h =
    let e : suc d + a ≡ suc (d + a) = omega arith in rw e (drop-append_drop a d xs ys (omega arith))

-- A loop over a list that fn may end.
pub each {ℓ κ} : {A : Type ℓ} {S : Type κ} → (A → S → S × Bool) → List A → S → S
each fn [] s = s
each fn (x ∷ xs) s =
    let (s', more) = fn x s in let rest = each fn xs s' in if more then rest else s'

module _ {ℓ} {A : Type ℓ} (null : A) where
  slice-push-drop :
      (v : A) (r : RingBuf A) (k : ℕ)
      → IsValid r
      → k ≡ (if r.size == r.cap then 1 else 0)
      → slice null (push v r) ≡ drop k (slice null r) ++ v ∷ []
  slice-push-drop v r k h e = slice-push null v r h ∙ elim (Bool-cases (r.size == r.cap)) [
    | inl full ↦ rw (full, e, full)
    | inr more ↦ rw (more, e, more)
  ]

  cap-push : (v : A) (r : RingBuf A) → (push v r).cap ≡ r.cap
  unfolding push
  cap-push v r = ground arith

  push_tail :
      (v : A) (vs : List A) (r : RingBuf A) (k : ℕ)
      → IsValid r
      → k ≡ (if r.size == r.cap then 1 else 0)
      → drop ((push v r).size + length vs - (push v r).cap) (slice null (push v r) ++ vs)
        ≡ drop (r.size + suc (length vs) - r.cap) (slice null r ++ v ∷ vs)
  push_tail v vs r k h e =
      let d : ℕ = (push v r).size + length vs - (push v r).cap in
      let count : k + d ≡ r.size + suc (length vs) - r.cap =
        ground (arith, size-push null v r, cap-push v r) in
      let enough : k ≤ length (slice null r) = ground (arith, length-slice null r) in
      rw (slice-push-drop v r k h e, append_assoc (drop k (slice null r)) (v ∷ []) vs)
        (drop-append_drop d k (slice null r) (v ∷ vs) enough ∙ rw count)

  slice-push_all :
      (vs : List A) (r : RingBuf A)
      → IsValid r
      → slice null (push_all vs r) ≡ drop (r.size + length vs - r.cap) (slice null r ++ vs)
  slice-push_all [] r h =
      let e : r.size + 0 - r.cap ≡ 0 = omega (arith, h.holds) in rw (e, append-nil)
  slice-push_all (v ∷ vs) r h =
      slice-push_all vs (push v r) (push-IsValid v r h) ∙ push_tail v vs r _ h refl

  -- After any pushes into a new buffer, Slice shows the newest elements in the order of the
  -- pushes: as many as the capacity, which is at least 1, or all when there are fewer.
  pub slice-push_all-new :
      (capacity : ℕ) (vs : List A)
      → slice null (push_all vs (new null capacity))
        ≡ drop (length vs - (if capacity == 0 then 1 else capacity)) vs
  slice-push_all-new capacity vs =
      slice-push_all vs (new null capacity) (new-IsValid null capacity)
      ∙ unfold new slice copy_out in
        ap (λ (t : ℕ). drop (t - (if capacity == 0 then 1 else capacity)) vs) (omega arith)

  visit-copy_out {κ} :
      {S : Type κ} (fn : A → S → S × Bool) (r : RingBuf A) (n i : ℕ) (s : S)
      → visit null fn r i n s ≡ each fn (copy_out null r i n) s
  unfolding visit copy_out each
  visit-copy_out fn r zero i s = refl
  visit-copy_out fn r (suc n) i s = rw (visit-copy_out fn r n (i + 1) (fn (at null r i) s).0)

  -- ForEach visits the elements that Slice shows, in that order, until fn returns false.
  pub for_each-slice {κ} :
      {S : Type κ} (fn : A → S → S × Bool) (r : RingBuf A) (s : S)
      → for_each null fn r s ≡ each fn (slice null r) s
  unfolding for_each slice
  for_each-slice fn r s = visit-copy_out fn r r.size 0 s
