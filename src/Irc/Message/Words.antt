-- ===== src/Irc/Message/Words.antt =====
-- The command and the parameters of a line.
use go_protocols.Common.{
  ℕ, zero, suc, ◌+◌, ◌≤◌, false, ◌≡◌, ◌≢◌, refl, List, [], ◌∷◌, ◌++◌, some, ◌==◌, if◌then◌else◌,
  Bytes, arith, length, length-append, Bool-cases, inl, inr, append-nil,
}
use go_protocols.Common.Text.{Free, cut-append, cut-Free, trim_left}
use go_protocols.Irc.Message.{is_space, contains, params_loop, cons_word, needs_colon, params_text}

-- A word of a line: not empty, no space, no colon at the front.
abbrev pub IsWord : Bytes → Type 0
IsWord [] = ⊥
IsWord (c ∷ cs) = (c ≢ b':') × Free b' ' (c ∷ cs)

-- Every parameter but the last is a word.
abbrev pub AreParams : List Bytes → Type 0
AreParams [] = Unit
AreParams (p ∷ []) = Unit
AreParams (p ∷ q ∷ ps) = IsWord p × AreParams (q ∷ ps)

contains-Free : (c : ℕ) (s : Bytes) → contains c s ≡ false → Free c s
unfolding contains
contains-Free c [] h = tt
contains-Free c (x ∷ s) h = (ground arith, contains-Free c s (ground arith))

-- A text that no trimming shortens.
pub trim_left-word : (c : ℕ) (cs : Bytes) → c ≢ b' ' → trim_left is_space (c ∷ cs) ≡ c ∷ cs
unfolding trim_left
trim_left-word c cs h = ground arith

needs_colon-IsWord : (p : Bytes) → needs_colon p ≡ false → IsWord p
unfolding needs_colon contains
needs_colon-IsWord [] h = cc
needs_colon-IsWord (c ∷ cs) h = (ground arith, (ground arith, contains-Free b' ' cs (ground arith)))

-- The last word.
params_loop-last : (f : ℕ) (w : Bytes) → IsWord w → length w ≤ f → params_loop f w ≡ some (w ∷ [])
unfolding params_loop
params_loop-last f [] h n = absurd h
params_loop-last zero (c ∷ cs) h n = absurd (omega arith)
params_loop-last (suc f) (c ∷ cs) h n =
    let plain : (c == b':') ≡ false = ground arith in rw (plain, cut-Free b' ' (c ∷ cs) h.1)

params_loop-next :
    (f : ℕ) (w : Bytes) (t : Bytes) (ws : List Bytes)
    → IsWord w
    → trim_left is_space t ≡ t
    → params_loop f t ≡ some ws
    → params_loop (suc f) (w ++ b' ' ∷ t) ≡ some (w ∷ ws)
unfolding params_loop cons_word
params_loop-next f [] t ws h g e = absurd h
params_loop-next f (c ∷ cs) t ws h g e =
    let plain : (c == b':') ≡ false = ground arith in
    rw (plain, cut-append b' ' (c ∷ cs) t h.1, g, e)

pub trim_left-IsWord : (w t : Bytes) → IsWord w → trim_left is_space (w ++ t) ≡ w ++ t
trim_left-IsWord [] t h = absurd h
trim_left-IsWord (c ∷ cs) t h = trim_left-word c (cs ++ t) h.1.0

pub word_pos : (w t : Bytes) → IsWord w → 1 ≤ length (w ++ t)
word_pos [] t h = absurd h
word_pos (c ∷ cs) t h = omega arith

word_next : (w t : Bytes) → length (w ++ b' ' ∷ t) ≡ length w + suc (length t)
word_next w t = length-append w (b' ' ∷ t)

-- The text of the last parameter stands as it is, and is read back as that parameter.
last_text :
    (p : Bytes)
    → (trim_left is_space (if needs_colon p then b':' ∷ p else p)
        ≡ (if needs_colon p then b':' ∷ p else p))
      × ((f : ℕ)
          → length (if needs_colon p then b':' ∷ p else p) ≤ f
          → params_loop f (if needs_colon p then b':' ∷ p else p) ≡ some (p ∷ []))
last_text p = elim (Bool-cases (needs_colon p)) [
  | inl e ↦ rw e (unfold trim_left in refl, colon_text p)
  | inr e ↦ rw e (
    plain_text p (needs_colon-IsWord p e),
    λ f n. params_loop-last f p (needs_colon-IsWord p e) n,
  )
]
  where
    colon_text :
        (p : Bytes) (f : ℕ) → length (b':' ∷ p) ≤ f → params_loop f (b':' ∷ p) ≡ some (p ∷ [])
    colon_text p zero n = absurd (omega arith)
    colon_text p (suc f) n = unfold params_loop in refl

    plain_text : (p : Bytes) → IsWord p → trim_left is_space p ≡ p
    plain_text p h = rw append-nil at (trim_left-IsWord p [] h)

-- A word and the parameters behind it.
pub params_loop-params_text :
    (f : ℕ) (w : Bytes) (ps : List Bytes)
    → IsWord w
    → AreParams ps
    → length (w ++ params_text ps) ≤ f
    → params_loop f (w ++ params_text ps) ≡ some (w ∷ ps)
unfolding params_text
params_loop-params_text f w [] h g n =
    let n' : length w ≤ f = rw append-nil at n in rw append-nil (params_loop-last f w h n')
params_loop-params_text zero w (p ∷ ps) h g n =
    absurd (omega (arith, word_pos w (params_text (p ∷ ps)) h))
params_loop-params_text (suc f) w (p ∷ []) h g n =
    let (shown, same) = last_text p in
    params_loop-next f w _ (p ∷ []) h shown
      (same f (omega (arith, word_next w (if needs_colon p then b':' ∷ p else p))))
params_loop-params_text (suc f) w (p ∷ q ∷ ps) h g n =
    params_loop-next f w (p ++ params_text (q ∷ ps)) (p ∷ q ∷ ps) h
      (trim_left-IsWord p (params_text (q ∷ ps)) g.0)
      (params_loop-params_text f p (q ∷ ps) g.0 g.1
        (omega (arith, word_next w (p ++ params_text (q ∷ ps)))))
