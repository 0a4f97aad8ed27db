-- ===== src/Torrent/Piece/Fetch.antt =====
-- A piece that is asked for block by block, with every block stored as it is answered.
use go_protocols.Common.{
  ℕ, zero, suc, ◌+◌, ◌-◌, ◌≤◌, ◌<◌, ◌≡◌, ◌∙◌, refl, ap, sym, true, false, [], ◌∷◌, ◌++◌, Option,
  some, none, ltb, leb, Bytes, length, length-take, length-drop, take, drop, replicate, equal_refl,
  Result, ok, err, arith, Bool-cases, inl, inr, append-nil, append_assoc,
}
use go_protocols.Torrent.Piece.{
  State, Error, block_size, new, complete, next_request, copy_at, store, verify,
}

-- The answer of a peer that holds `source` to a request, stored.
pub answer : Bytes → ℕ × ℕ → State → Result Error State
answer source (begin, block) s = store begin (take block (drop begin source)) s

fetch_next : Bytes → (State → Option State) → Option (ℕ × ℕ) × State → Option State
fetch_next source again (none, s) = some s
fetch_next source again (some r, s) = elim (answer source r s) [ ok t ↦ again t | err e ↦ none ]

-- Ask and store until there is nothing to ask for; `none` when the rounds run out or a block is
-- refused.
pub fetch : ℕ → Bytes → State → Option State
unfolding fetch_next
fetch zero source s = none
fetch (suc f) source s = fetch_next source (fetch f source) (next_request s)

copy_at-append : (a z src : Bytes) → copy_at (length a) (a ++ z) src ≡ a ++ copy_at 0 z src
unfolding copy_at
copy_at-append [] z src = refl
copy_at-append (x ∷ a) z src = ap (◌∷◌ x) (copy_at-append a z src)

copy_at-nil : (dst : Bytes) → copy_at 0 dst [] ≡ dst
unfolding copy_at
copy_at-nil [] = refl
copy_at-nil (x ∷ dst) = refl

pub copy_at-replicate :
    (src : Bytes) (n c : ℕ)
    → length src ≤ n
    → copy_at 0 (replicate n c) src ≡ src ++ replicate (n - length src) c
unfolding copy_at
copy_at-replicate [] n c h = let e : n - 0 ≡ n = omega arith in copy_at-nil (replicate n c) ∙ rw e
copy_at-replicate (y ∷ src) zero c h = absurd (omega arith)
copy_at-replicate (y ∷ src) (suc n) c h =
    let e : suc n - suc (length src) ≡ n - length src = omega arith in
    rw e (ap (◌∷◌ y) (copy_at-replicate src n c (omega arith)))

take_nil : (n : ℕ) → take {A = ℕ} n [] ≡ []
take_nil zero = refl
take_nil (suc n) = refl

take-take-drop : (r n : ℕ) (xs : Bytes) → take r xs ++ take n (drop r xs) ≡ take (r + n) xs
take-take-drop zero n xs = let e : 0 + n ≡ n = omega arith in rw e
take-take-drop (suc r) n [] = take_nil n ∙ sym (take_nil (suc r + n))
take-take-drop (suc r) n (x ∷ xs) =
    let e : suc r + n ≡ suc (r + n) = omega arith in rw e (ap (◌∷◌ x) (take-take-drop r n xs))

take_all : (n : ℕ) (xs : Bytes) → length xs ≤ n → take n xs ≡ xs
take_all zero [] h = refl
take_all zero (x ∷ xs) h = absurd (omega arith)
take_all (suc n) [] h = refl
take_all (suc n) (x ∷ xs) h = ap (◌∷◌ x) (take_all n xs (omega arith))

-- What is asked for has arrived, and the rest of the buffer is still zero.
record Progress (source hash : Bytes) (s : State) : Type 0 where
  sized : s.size ≡ length source
  asked_within : s.requested ≤ s.size
  arrived : s.downloaded ≡ s.requested
  kept : s.hash ≡ hash
  filled : s.bytes ≡ take s.requested source ++ replicate (s.size - s.requested) 0

-- One block of n bytes at the end of what has arrived.
block_filled :
    (source : Bytes) (r n : ℕ)
    → r + n ≤ length source
    → copy_at r (take r source ++ replicate (length source - r) 0) (take n (drop r source))
      ≡ take (r + n) source ++ replicate (length source - (r + n)) 0
block_filled source r n h =
    let front : Bytes = take r source in
    let block : Bytes = take n (drop r source) in
    let lr : length front ≡ r = omega (arith, length-take r source) in
    let ln : length block ≡ n =
      omega (arith, length-take n (drop r source), length-drop r source) in
    let left : length source - r - length block ≡ length source - (r + n) = omega arith in
    let at_end = copy_at-append front (replicate (length source - r) 0) block in
    let filled = copy_at-replicate block (length source - r) 0 (omega arith) in
    rw (lr, filled, left) at at_end ∙ rw (← append_assoc, take-take-drop r n source)

-- NextRequest either has nothing left to ask for and changes nothing, or asks for a block of 1 to
-- BlockSize bytes that starts at the cursor and ends within the piece, and moves the cursor past it.
pub data Asked (s : State) : Type 0 where
  nothing : s.size ≤ s.requested → next_request s ≡ (none, s) → Asked s
  block :
      (n : ℕ)
      → 0 < n
      → n ≤ block_size
      → s.requested + n ≤ s.size
      → next_request s ≡ (some (s.requested, n), record s { requested = s.requested + n })
      → Asked s

pub next_request-Asked : (s : State) → Asked s
next_request-Asked s = elim (Bool-cases (leb s.size s.requested)) [
  | inl done ↦ nothing (ground arith) (unfold next_request in rw done)
  | inr more ↦ elim (Bool-cases (ltb s.size (s.requested + block_size))) [
    | inl last ↦
        block (s.size - s.requested) (ground arith) (ground arith) (ground arith)
          (unfold next_request in rw (more, last))
    | inr full ↦
        block block_size (omega arith) (omega arith) (ground arith)
          (unfold next_request in rw (more, full))
  ]
]

module _ (source hash : Bytes) where
  new-Progress : (index : ℕ) → Progress source hash (new index hash (length source))
  unfolding new
  new-Progress index = record {
    sized = refl;
    asked_within = omega arith;
    arrived = refl;
    kept = refl;
    filled = (let e : length source - 0 ≡ length source = omega arith in rw e);
  }

  abbrev after_block : State → ℕ → State
  after_block s n = record s {
    bytes = copy_at s.requested s.bytes (take n (drop s.requested source));
    downloaded = s.downloaded + n;
    requested = s.requested + n;
  }

  after_block-Progress :
      (s : State) (n : ℕ)
      → Progress source hash s
      → s.requested + n ≤ s.size
      → Progress source hash (after_block s n)
  after_block-Progress s n p h = record {
    sized = p.sized;
    asked_within = h;
    arrived = omega arith;
    kept = p.kept;
    filled = rw (p.filled, p.sized) (block_filled source s.requested n (omega arith));
  }

  answer-block :
      (s : State) (n : ℕ)
      → Progress source hash s
      → s.requested + n ≤ s.size
      → answer source (s.requested, n) (record s { requested = s.requested + n })
        ≡ ok (after_block s n)
  unfolding answer store
  answer-block s n p h =
      let full : length (take n (drop s.requested source)) ≡ n =
        omega (arith, length-take n (drop s.requested source), length-drop s.requested source) in
      let fits : ltb s.size (s.requested + n) ≡ false = ground arith in rw (full, fits)

  fetch_step :
      (f : ℕ) (s : State) (n : ℕ)
      → Progress source hash s
      → s.requested + n ≤ s.size
      → next_request s ≡ (some (s.requested, n), record s { requested = s.requested + n })
      → fetch (suc f) source s ≡ fetch f source (after_block s n)
  unfolding fetch
  fetch_step f s n p within e = rw (e, answer-block s n p within, fetch_next)

  fetch-Progress :
      (f : ℕ) (s : State)
      → Progress source hash s
      → s.size - s.requested < f
      → (t : State) × (fetch f source s ≡ some t) × Progress source hash t × (t.requested ≡ t.size)
  fetch-Progress zero s p h = absurd (omega arith)
  fetch-Progress (suc f) s p h = elim (next_request-Asked s) [
    | nothing done e ↦ (s, unfold fetch in rw e, p, omega arith)
    | block n pos small within e ↦
        let (t, runs, q, all) =
          fetch-Progress f (after_block s n) (after_block-Progress s n p within) (omega arith) in
        (t, fetch_step f s n p within e ∙ runs, q, all)
  ]

whole_piece :
    (source hash : Bytes) (t : State)
    → Progress source hash t
    → t.requested ≡ t.size
    → t.bytes ≡ source
whole_piece source hash t p all =
    let none_left : t.size - t.size ≡ 0 = omega arith in
    p.filled
    ∙ rw (all, none_left, append-nil, p.sized) (take_all (length source) source (omega arith))

-- A new piece that is fetched block by block from a peer with all its bytes ends with exactly
-- those bytes, is complete, and Verify accepts it when its hash is theirs.
pub fetch-new :
    (sha1 : Bytes → Bytes) (index : ℕ) (source : Bytes)
    → (t : State) × (fetch (length source + 1) source (new index (sha1 source) (length source))
        ≡ some t)
      × (t.bytes ≡ source)
      × (complete t ≡ true)
      × (verify sha1 t ≡ ok tt)
fetch-new sha1 index source =
    let s : State = new index (sha1 source) (length source) in
    let (t, runs, p, all) =
      fetch-Progress source (sha1 source) (length source + 1) s
        (new-Progress source (sha1 source) index) (unfold new in omega arith) in
    let whole = whole_piece source (sha1 source) t p all in
    (
      t,
      runs,
      whole,
      unfold complete in ground (arith, p.arrived, all),
      unfold verify in rw (whole, p.kept, equal_refl (sha1 source)),
    )
