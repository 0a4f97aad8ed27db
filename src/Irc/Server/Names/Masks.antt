-- ===== src/Irc/Server/Names/Masks.antt =====
-- What a mask matches, by a relation of its own.
use go_protocols.Common.{
  ℕ, ◌<◌, ltb, All, ◌≡◌, ◌≢◌, refl, sym, ◌∙◌, ◌↔◌, ◌⊎◌, inl, inr, Bool, true, false, ◌||◌, ◌&&◌, [],
  ◌∷◌, ◌==◌, ==_iff, if◌then◌else◌, Bool-cases, Bytes, arith,
}
use go_protocols.Common.Utf8.{decode_rune}
use go_protocols.Irc.Server.Names.{rune_tail, is_empty, some_suffix, both_first, glob_match}

-- A star stands for any text, a question mark for any byte, and any other byte for itself.
pub data Matches : Bytes → Bytes → Type 0 where
  done : Matches [] []
  star_none : (p : ℕ) (ps s : Bytes) → p ≡ b'*' → Matches ps s → Matches (p ∷ ps) s
  star_more : (p c : ℕ) (ps s : Bytes) → p ≡ b'*' → Matches (p ∷ ps) s → Matches (p ∷ ps) (c ∷ s)
  any_byte : (p c : ℕ) (ps s : Bytes) → p ≡ b'?' → Matches ps s → Matches (p ∷ ps) (c ∷ s)
  same_byte :
      (p c : ℕ) (ps s : Bytes)
      → p ≢ b'*'
      → p ≢ b'?'
      → p ≡ c
      → Matches ps s
      → Matches (p ∷ ps) (c ∷ s)

-- No star stands right behind another.
abbrev pub SingleStars : Bytes → Type 0
SingleStars [] = Unit
SingleStars (p ∷ []) = Unit
SingleStars (p ∷ q ∷ ps) = (p ≡ b'*' → q ≢ b'*') × SingleStars (q ∷ ps)

star_all : (p : ℕ) (s : Bytes) → p ≡ b'*' → Matches (p ∷ []) s
star_all p [] e = star_none p [] [] e done
star_all p (c ∷ s) e = star_more p c [] s e (star_all p s e)

Or-cases : (a b : Bool) → (a || b) ≡ true → (a ≡ true) ⊎ (b ≡ true)
Or-cases true b h = inl refl
Or-cases false b h = inr h

-- Every byte is a rune of its own.
abbrev pub IsAscii : Bytes → Type 0
IsAscii = All (λ c. c < 128)

rune_tail-ascii : (c : ℕ) (cs : Bytes) → c < 128 → rune_tail c cs ≡ 0
unfolding rune_tail decode_rune
rune_tail-ascii c cs h = let one : ltb c 128 ≡ true = ground arith in rw one (omega arith)

-- The range over a text of ASCII goes to every byte.
some_suffix-cons :
    (test : Bytes → Bool) (c : ℕ) (s : Bytes)
    → c < 128
    → some_suffix test (c ∷ s) ≡ (test (c ∷ s) || some_suffix test s)
unfolding some_suffix
some_suffix-cons test c s h = rw (rune_tail-ascii c s h)

some_suffix-Matches :
    (p : ℕ) (ps s : Bytes)
    → p ≡ b'*'
    → IsAscii s
    → ((t : Bytes) → IsAscii t → glob_match ps t ≡ true → Matches ps t)
    → some_suffix (glob_match ps) s ≡ true
    → Matches (p ∷ ps) s
unfolding some_suffix
some_suffix-Matches p ps [] e a ih h = absurd (cc)
some_suffix-Matches p ps (c ∷ s) e a ih h =
    let step = sym (some_suffix-cons (glob_match ps) c s a.0) ∙ h in
    elim (Or-cases (glob_match ps (c ∷ s)) (some_suffix (glob_match ps) s) step) [
      | inl now ↦ star_none p ps (c ∷ s) e (ih (c ∷ s) a now)
      | inr later ↦ star_more p c ps s e (some_suffix-Matches p ps s e a.1 ih later)
    ]

other_byte : (p k : ℕ) → (p == k) ≡ false → p ≢ k
other_byte p k h e = let same = (==_iff p k).1 e in absurd (cc)

both_true : (a b : Bool) → (a && b) ≡ true → (a ≡ true) × (b ≡ true)
both_true true b h = (refl, h)
both_true false b h = absurd (cc)

star_case :
    (p : ℕ) (ps s : Bytes)
    → p ≡ b'*'
    → IsAscii s
    → ((t : Bytes) → IsAscii t → glob_match ps t ≡ true → Matches ps t)
    → (is_empty ps || some_suffix (glob_match ps) s) ≡ true
    → Matches (p ∷ ps) s
unfolding is_empty
star_case p [] s e a ih h = star_all p s e
star_case p (q ∷ ps) s e a ih h = some_suffix-Matches p (q ∷ ps) s e a ih h

plain_case :
    (p : ℕ) (ps s : Bytes)
    → p ≢ b'*'
    → IsAscii s
    → ((t : Bytes) → IsAscii t → glob_match ps t ≡ true → Matches ps t)
    → (if p == b'?'
        then both_first (glob_match ps) (λ c. true) s
        else both_first (glob_match ps) (λ c. p == c) s)
      ≡ true
    → Matches (p ∷ ps) s
unfolding both_first
plain_case p ps [] a t ih h = absurd (ground arith)
plain_case p ps (c ∷ s) a t ih h = elim (Bool-cases (p == b'?')) [
  | inl any ↦ any_byte p c ps s ((==_iff p b'?').0 any) (ih s t.1 (rw any at h))
  | inr byte ↦
      let here = both_true (p == c) (glob_match ps s) (rw byte at h) in
      same_byte p c ps s a (other_byte p b'?' byte) ((==_iff p c).0 here.0) (ih s t.1 here.1)
]

glob_match-Matches : (p s : Bytes) → IsAscii s → glob_match p s ≡ true → Matches p s
unfolding glob_match
glob_match-Matches [] [] a h = done
glob_match-Matches [] (c ∷ s) a h = absurd (cc)
glob_match-Matches (p ∷ ps) s a h = elim (Bool-cases (p == b'*')) [
  | inl star ↦ star_case p ps s ((==_iff p b'*').0 star) a (glob_match-Matches ps) (rw star at h)
  | inr no_star ↦
      plain_case p ps s (other_byte p b'*' no_star) a (glob_match-Matches ps) (rw no_star at h)
]

-- A pattern that stands on no star needs a byte.
glob_match-nil : (p : ℕ) (ps : Bytes) → p ≢ b'*' → glob_match (p ∷ ps) [] ≡ false
unfolding glob_match
glob_match-nil p ps h = ground (arith, ==_iff p b'*')

some_now :
    (ps : Bytes) (c : ℕ) (s : Bytes)
    → c < 128
    → glob_match ps (c ∷ s) ≡ true
    → some_suffix (glob_match ps) (c ∷ s) ≡ true
some_now ps c s a h = some_suffix-cons (glob_match ps) c s a ∙ rw h

some_later :
    (b : Bool) (ps : Bytes) (c : ℕ) (s : Bytes)
    → c < 128
    → (b || some_suffix (glob_match ps) s) ≡ true
    → (b || some_suffix (glob_match ps) (c ∷ s)) ≡ true
some_later true ps c s a h = refl
some_later false ps c s a h = some_suffix-cons (glob_match ps) c s a ∙ ground (arith, h)

tail_SingleStars : (p : ℕ) (ps : Bytes) → SingleStars (p ∷ ps) → SingleStars ps
tail_SingleStars p [] h = tt
tail_SingleStars p (q ∷ ps) h = h.1

glob_match-star :
    (p : ℕ) (ps s : Bytes)
    → p ≡ b'*'
    → glob_match (p ∷ ps) s ≡ (is_empty ps || some_suffix (glob_match ps) s)
unfolding glob_match
glob_match-star p ps s e = let star : (p == b'*') ≡ true = (==_iff p b'*').1 e in rw star

glob_match-other :
    (p c : ℕ) (ps s : Bytes)
    → p ≢ b'*'
    → glob_match (p ∷ ps) (c ∷ s) ≡ ((p == b'?' || p == c) && glob_match ps s)
unfolding glob_match
glob_match-other p c ps s a = ground (arith, ==_iff p b'*', ==_iff p b'?', ==_iff p c)

glob_match_complete :
    (p s : Bytes) → Matches p s → IsAscii s → SingleStars p → glob_match p s ≡ true
glob_match_complete _ _ done a h = unfold glob_match in refl
glob_match_complete _ _ (star_none p [] s e m) a h =
    glob_match-star p [] s e ∙ (unfold is_empty in refl)
glob_match_complete _ _ (star_none p (q ∷ ps) [] e m) a h =
    let ih = glob_match_complete (q ∷ ps) [] m a h.1 in
    let no : glob_match (q ∷ ps) [] ≡ false = glob_match-nil q ps (h.0 e) in absurd (cc)
glob_match_complete _ _ (star_none p (q ∷ ps) (c ∷ s) e m) a h =
    glob_match-star p (q ∷ ps) (c ∷ s) e
    ∙ rw (some_now (q ∷ ps) c s a.0 (glob_match_complete (q ∷ ps) (c ∷ s) m a h.1))
        (unfold is_empty in refl)
glob_match_complete _ _ (star_more p c ps s e m) a h =
    let ih = sym (glob_match-star p ps s e) ∙ glob_match_complete (p ∷ ps) s m a.1 h in
    glob_match-star p ps (c ∷ s) e ∙ some_later (is_empty ps) ps c s a.0 ih
glob_match_complete _ _ (any_byte p c ps s e m) a h =
    glob_match-other p c ps s (λ star. omega arith)
    ∙ ground (arith, glob_match_complete ps s m a.1 (tail_SingleStars p ps h))
glob_match_complete _ _ (same_byte p c ps s x y e m) a h =
    glob_match-other p c ps s x
    ∙ ground (arith, glob_match_complete ps s m a.1 (tail_SingleStars p ps h))

-- globMatch accepts exactly the texts that a pattern matches, for texts of ASCII and patterns
-- without two stars in a row.
pub glob_match_iff :
    (p s : Bytes) → IsAscii s → SingleStars p → (glob_match p s ≡ true) ↔ Matches p s
glob_match_iff p s a h = (glob_match-Matches p s a, λ m. glob_match_complete p s m a h)
