-- ===== src/Irc/Ringbuf/Queue.antt =====
-- Push and Slice of a ring buffer.
use go_protocols.Common.{
  ℕ, zero, suc, ◌+◌, ◌-◌, ◌%◌, ◌≤◌, ◌<◌, ◌≡◌, ◌∙◌, refl, ap, true, false, [], ◌∷◌, ◌++◌, ltb, ◌==◌,
  if◌then◌else◌, length, get_or-set, length-set, length-replicate, drop, arith, Bool-cases, inl,
  inr, ltb→lt,
}
use native.Mathlib.Nat.{mod-lt, mod-eq_of_lt, mod-eq-sub-mod, mod-add-mod}
use go_protocols.Irc.Ringbuf.{RingBuf, new, at, copy_out, slice, push}

-- One turn round the buffer at most.
wrap_once : (a c : ℕ) → a < c + c → a % c ≡ (if ltb a c then a else a - c)
wrap_once a c h = elim (Bool-cases (ltb a c)) [
  | inl small ↦ rw small (mod-eq_of_lt (ltb→lt a c small))
  | inr big ↦ rw big (mod-eq-sub-mod (ground arith) ∙ mod-eq_of_lt (ground arith))
]

module _ {ℓ} {A : Type ℓ} where
  pub record IsValid (r : RingBuf A) : Type 0 where
    pub room : length r.buf ≡ r.cap
    pub starts : r.head < r.cap
    pub holds : r.size ≤ r.cap

  pub new-IsValid : (null : A) (capacity : ℕ) → IsValid (new null capacity)
  unfolding new
  new-IsValid null capacity = record {
    room = length-replicate (if capacity == 0 then 1 else capacity) null;
    starts = ground arith;
    holds = omega arith;
  }

  -- Push keeps a buffer valid: as many places as the capacity, the head and the size within it.
  pub push-IsValid : (v : A) (r : RingBuf A) → IsValid r → IsValid (push v r)
  unfolding push
  push-IsValid v r h = elim (Bool-cases (r.size == r.cap)) [
    | inl full ↦ rw full (record {
      room = length-set r.buf r.head v ∙ h.room;
      starts = mod-lt _ (omega arith);
      holds = h.holds;
    })
    | inr more ↦ rw more (record {
      room = length-set r.buf ((r.head + r.size) % r.cap) v ∙ h.room;
      starts = h.starts;
      holds = ground arith;
    })
  ]

  module _ (null : A) where
    -- What a push does to the elements, counted from the oldest.
    at-push_more :
        (v : A) (r : RingBuf A) (i : ℕ)
        → IsValid r
        → (r.size == r.cap) ≡ false
        → i ≤ r.size
        → at null (push v r) i ≡ (if i == r.size then v else at null r i)
    unfolding push at
    at-push_more v r i h more le =
        let k : ℕ = (r.head + r.size) % r.cap in
        let e : (k == (r.head + i) % r.cap) ≡ (i == r.size) =
          ground (arith, wrap_once (r.head + r.size) r.cap, wrap_once (r.head + i) r.cap) in
        let lt : k < length r.buf = omega (arith, h.room) in
        rw more (rw (get_or-set r.buf k ((r.head + i) % r.cap) v null lt, e))

    at-push_full :
        (v : A) (r : RingBuf A) (i : ℕ)
        → IsValid r
        → (r.size == r.cap) ≡ true
        → i < r.size
        → at null (push v r) i ≡ (if i + 1 == r.size then v else at null r (i + 1))
    unfolding push at
    at-push_full v r i h full lt =
        let k : ℕ = ((r.head + 1) % r.cap + i) % r.cap in
        let step = wrap_once (r.head + 1) r.cap (omega arith) in
        let turn : k ≡ (r.head + (i + 1)) % r.cap =
          mod-add-mod _ _ _ ∙ ap (λ (t : ℕ). t % r.cap) (omega arith) in
        let e : (r.head == k) ≡ (i + 1 == r.size) =
          ground (arith, turn, wrap_once (r.head + (i + 1)) r.cap) in
        rw full (rw (get_or-set r.buf r.head k v null (omega (arith, h.room)), e, turn))

    -- Two buffers whose elements agree read out alike.
    copy_out_ext :
        (n i j : ℕ) (r r' : RingBuf A)
        → ((k : ℕ) → k < n → at null r' (i + k) ≡ at null r (j + k))
        → copy_out null r' i n ≡ copy_out null r j n
    unfolding copy_out
    copy_out_ext zero i j r r' h = refl
    copy_out_ext (suc n) i j r r' h =
        cc (first, copy_out_ext n (i + 1) (j + 1) r r' (λ k lt. later k lt))
      where
        first : at null r' i ≡ at null r j
        first =
            let a : i + 0 ≡ i = omega arith in
            let b : j + 0 ≡ j = omega arith in rw (a, b) at (h 0 (omega arith))

        later : (k : ℕ) → k < n → at null r' (i + 1 + k) ≡ at null r (j + 1 + k)
        later k lt =
            let a : i + 1 + k ≡ i + (k + 1) = omega arith in
            let b : j + 1 + k ≡ j + (k + 1) = omega arith in rw (a, b) (h (k + 1) (omega arith))

    copy_out_last :
        (r : RingBuf A) (i n : ℕ)
        → copy_out null r i (suc n) ≡ copy_out null r i n ++ at null r (i + n) ∷ []
    unfolding copy_out
    copy_out_last r i zero = let e : i + 0 ≡ i = omega arith in rw e
    copy_out_last r i (suc n) =
        let e : i + suc n ≡ i + 1 + n = omega arith in
        rw e (ap (◌∷◌ (at null r i)) (copy_out_last r (i + 1) n))

    length-copy_out : (r : RingBuf A) (i n : ℕ) → length (copy_out null r i n) ≡ n
    unfolding copy_out
    length-copy_out r i zero = refl
    length-copy_out r i (suc n) = ap suc (length-copy_out r (i + 1) n)

    pub length-slice : (r : RingBuf A) → length (slice null r) ≡ r.size
    unfolding slice
    length-slice r = length-copy_out r 0 r.size

    pub size-push :
        (v : A) (r : RingBuf A) → (push v r).size ≡ (if r.size == r.cap then r.size else suc r.size)
    unfolding push
    size-push v r = ground arith

    slice-push_more :
        (v : A) (r : RingBuf A)
        → IsValid r
        → (r.size == r.cap) ≡ false
        → slice null (push v r) ≡ slice null r ++ v ∷ []
    unfolding slice
    slice-push_more v r h more =
        let size : (push v r).size ≡ suc r.size = size-push v r ∙ rw more in
        let newest : at null (push v r) (0 + r.size) ≡ v =
          let e : 0 + r.size ≡ r.size = omega arith in
          rw e (at-push_more v r r.size h more (omega arith) ∙ ground arith) in
        let older = copy_out_ext r.size 0 0 r (push v r) λ k lt.
          let e : 0 + k ≡ k = omega arith in
          rw e (at-push_more v r k h more (omega arith) ∙ ground arith) in
        rw size (copy_out_last (push v r) 0 r.size ∙ rw (older, newest))

    slice_of_size : (r : RingBuf A) {n : ℕ} → r.size ≡ n → slice null r ≡ copy_out null r 0 n
    unfolding slice
    slice_of_size r e = ap (copy_out null r 0) e

    drop-slice :
        (r : RingBuf A) (m : ℕ) → r.size ≡ suc m → drop 1 (slice null r) ≡ copy_out null r 1 m
    unfolding copy_out
    drop-slice r m e = ap (drop 1) (slice_of_size r e)

    slice-push_full :
        (v : A) (r : RingBuf A) (m : ℕ)
        → IsValid r
        → (r.size == r.cap) ≡ true
        → r.size ≡ suc m
        → slice null (push v r) ≡ drop 1 (slice null r) ++ v ∷ []
    slice-push_full v r m h full e =
        let size : (push v r).size ≡ suc m = size-push v r ∙ rw full e in
        let last_one : (0 + m + 1 == r.size) ≡ true = ground arith in
        let newest : at null (push v r) (0 + m) ≡ v =
          at-push_full v r (0 + m) h full (omega arith) ∙ rw last_one in
        let older : copy_out null (push v r) 0 m ≡ copy_out null r 1 m =
          copy_out_ext m 0 1 r (push v r) λ k lt.
            let c : 1 + k ≡ 0 + k + 1 = omega arith in
            let inner : (0 + k + 1 == r.size) ≡ false = ground arith in
            rw c (at-push_full v r (0 + k) h full (omega arith) ∙ rw inner) in
        slice_of_size (push v r) size
        ∙ copy_out_last (push v r) 0 m
        ∙ rw (older, newest, drop-slice r m e)

    -- On a valid buffer, Push appends its element to those that Slice shows, and drops the oldest
    -- of a full buffer.
    pub slice-push :
        (v : A) (r : RingBuf A)
        → IsValid r
        → slice null (push v r)
          ≡ (if r.size == r.cap then drop 1 (slice null r) else slice null r) ++ v ∷ []
    slice-push v r h = elim (Bool-cases (r.size == r.cap)) [
      | inl full ↦ rw full (slice-push_full v r (r.size - 1) h full (ground arith))
      | inr more ↦ rw more (slice-push_more v r h more)
    ]
