-- ===== src/Irc/Message/Escape.antt =====
-- Tag values, escaped and unescaped.
use go_protocols.Common.{
  ℕ, false, ◌≡◌, ◌≢◌, ◌∙◌, refl, ap, [], ◌∷◌, ◌++◌, ◌==◌, Bytes, arith, All, All-append, if_cases,
}
use go_protocols.Common.Text.{Free}
use go_protocols.Irc.Message.{escape_byte, escape_tag_value, unescape_loop, unescape_tag_value}

unescape-escape_byte :
    (c : ℕ) (rest : Bytes)
    → unescape_loop false (escape_byte c ++ rest) ≡ c ∷ unescape_loop false rest
unfolding unescape_loop escape_byte
unescape-escape_byte c rest = ground arith

unescape_loop-escape : (s : Bytes) → unescape_loop false (escape_tag_value s) ≡ s
unfolding escape_tag_value unescape_loop
unescape_loop-escape [] = refl
unescape_loop-escape (c ∷ s) =
    unescape-escape_byte c (escape_tag_value s) ∙ ap (◌∷◌ c) (unescape_loop-escape s)

-- Every tag value survives escaping and unescaping.
pub unescape-escape_tag_value : (s : Bytes) → unescape_tag_value (escape_tag_value s) ≡ s
unfolding unescape_tag_value
unescape-escape_tag_value s = unescape_loop-escape s

-- What would end a tag, or the tags.
abbrev IsSafe : ℕ → Type 0
IsSafe c = (c ≢ b';') × (c ≢ b' ')

escape_byte-IsSafe : (c : ℕ) → All IsSafe (escape_byte c)
unfolding escape_byte
escape_byte-IsSafe c =
    if_cases (All IsSafe) (c == b';') _ _ (λ e. omega arith)
      (λ semi.
        if_cases (All IsSafe) (c == b' ') _ _ (λ e. omega arith)
          (λ space.
            if_cases (All IsSafe) (c == b'\\') _ _ (λ e. omega arith)
              (λ slash.
                if_cases (All IsSafe) (c == 13) _ _ (λ e. omega arith)
                  (λ cr.
                    if_cases (All IsSafe) (c == 10) _ _ (λ e. omega arith)
                      (λ lf. ((ground arith, ground arith), tt))))))

escape_tag_value-IsSafe : (s : Bytes) → All IsSafe (escape_tag_value s)
unfolding escape_tag_value
escape_tag_value-IsSafe [] = tt
escape_tag_value-IsSafe (c ∷ s) =
    All-append IsSafe (escape_byte c) (escape_tag_value s) (escape_byte-IsSafe c)
      (escape_tag_value-IsSafe s)

-- An escaped value holds no semicolon and no space.
pub escape_tag_value-Free :
    (s : Bytes) → Free b';' (escape_tag_value s) × Free b' ' (escape_tag_value s)
escape_tag_value-Free s = parts (escape_tag_value s) (escape_tag_value-IsSafe s)
  where
    parts : (t : Bytes) → All IsSafe t → Free b';' t × Free b' ' t
    parts [] h = (tt, tt)
    parts (c ∷ t) h = let (a, b) = parts t h.1 in ((h.0.0, a), (h.0.1, b))
