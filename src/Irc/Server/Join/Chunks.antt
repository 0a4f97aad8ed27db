-- ===== src/Irc/Server/Join/Chunks.antt =====
-- The parts in which long lists are sent.
use go_protocols.Common.{
  ℕ, ◌+◌, ◌≤◌, ◌≡◌, refl, ap, ◌∙◌, inl, inr, ◌⊎◌, List, [], ◌∷◌, ◌++◌, Bool-cases, leb,
  append_assoc, Bytes, length, All, arith,
}
use go_protocols.Irc.Server.Register.{chunks}

-- The parts one behind the other.
abbrev pub together : List (List Bytes) → List Bytes
together [] = []
together (p ∷ ps) = p ++ together ps

-- The bytes of a part with a separator behind each value.
abbrev pub size_of : List Bytes → ℕ
size_of [] = 0
size_of (v ∷ vs) = length v + 1 + size_of vs

-- A part that fits, or that has one value only.
abbrev pub Fits : ℕ → List Bytes → Type 0
Fits most part = (size_of part ≤ most) ⊎ ((v : Bytes) × (part ≡ v ∷ []))

-- The parts hold every value once, in order.
pub together-chunks :
    (most size : ℕ) (part vs : List Bytes) → together (chunks most size part vs) ≡ part ++ vs
unfolding chunks
together-chunks most size [] [] = refl
together-chunks most size (c ∷ cs) [] = refl
together-chunks most size [] (v ∷ vs) = together-chunks most (length v + 1) (v ∷ []) vs
together-chunks most size (c ∷ cs) (v ∷ vs) = elim (Bool-cases (leb (size + length v + 1) most)) [
  | inl fits ↦ rw fits (
      together-chunks most (size + length v + 1) ((c ∷ cs) ++ v ∷ []) vs
      ∙ append_assoc (c ∷ cs) (v ∷ []) vs)
  | inr full ↦ rw full (ap (λ p. (c ∷ cs) ++ p) (together-chunks most (length v + 1) (v ∷ []) vs))
]

size_of-append :
    (part : List Bytes) (v : Bytes) → size_of (part ++ v ∷ []) ≡ size_of part + length v + 1
size_of-append [] v = omega arith
size_of-append (c ∷ cs) v = let ih = size_of-append cs v in omega arith

-- Every part of a long list that is sent has at most as many bytes as asked for, separators
-- counted, or one value only; the part begun so far is to fit and to have the size that is
-- counted.
pub chunks-Fits :
    (most size : ℕ) (part vs : List Bytes)
    → size ≡ size_of part
    → Fits most part
    → All (Fits most) (chunks most size part vs)
unfolding chunks
chunks-Fits most size [] [] e f = tt
chunks-Fits most size (c ∷ cs) [] e f = (f, tt)
chunks-Fits most size [] (v ∷ vs) e f =
    chunks-Fits most (length v + 1) (v ∷ []) vs (omega arith) (inr (v, refl))
chunks-Fits most size (c ∷ cs) (v ∷ vs) e f = elim (Bool-cases (leb (size + length v + 1) most)) [
  | inl fits ↦
      let grown = size_of-append (c ∷ cs) v in
      rw fits (
        chunks-Fits most (size + length v + 1) ((c ∷ cs) ++ v ∷ []) vs (omega arith)
          (inl (ground arith)))
  | inr full ↦
      rw full (f, chunks-Fits most (length v + 1) (v ∷ []) vs (omega arith) (inr (v, refl)))
]
