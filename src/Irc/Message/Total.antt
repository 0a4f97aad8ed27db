-- ===== src/Irc/Message/Total.antt =====
-- The fuel of the loop over the parameters.
use go_protocols.Common.{
  ℕ, zero, suc, ◌≤◌, Bool, ◌≢◌, refl, [], ◌∷◌, List, Option, none, some, ◌==◌, Bytes, arith, length,
  Result, ok, err, ◌>>=◌, Option-cases, Bool-cases, inl, inr,
}
use go_protocols.Common.Text.{cut, cut-shorter, trim_left, trim_right}
use go_protocols.Irc.Message.{
  Tags, Prefix, Error, stuck, is_space, is_line_end, tags_of, take_tags, prefix_of, take_prefix,
  cons_word, params_loop, message_of, parse_body, parse_line, parse,
}

trim_left-le : (p : ℕ → Bool) (s : Bytes) → length (trim_left p s) ≤ length s
unfolding trim_left
trim_left-le p [] = omega arith
trim_left-le p (c ∷ s) = ground (arith, trim_left-le p s)

cons_word-ne-none : (w : Bytes) (o : Option (List Bytes)) → o ≢ none → cons_word w o ≢ none
unfolding cons_word
cons_word-ne-none w none h = h
cons_word-ne-none w (some ws) h = λ e. cc

params_loop-ne-none : (f : ℕ) (s : Bytes) → length s ≤ f → params_loop f s ≢ none
unfolding params_loop
params_loop-ne-none zero [] h = λ e. cc
params_loop-ne-none (suc f) [] h = λ e. cc
params_loop-ne-none zero (c ∷ s) h = absurd (omega arith)
params_loop-ne-none (suc f) (c ∷ s) h = elim (Bool-cases (c == b':')) [
  | inl e ↦ rw e (λ q. cc)
  | inr e ↦ elim (Option-cases (cut b' ' (c ∷ s))) [
    | inl last ↦ rw (e, last) (λ q. cc)
    | inr ((w, rest), found) ↦
        rw (e, found)
          (cons_word-ne-none w (params_loop f (trim_left is_space rest)) (
            params_loop-ne-none f (trim_left is_space rest)
              (omega (arith, trim_left-le is_space rest, cut-shorter b' ' (c ∷ s) w rest found))))
  ]
]

message_of-ne-stuck :
    (tags : Tags) (prefix : Option Prefix) (o : Option (List Bytes))
    → o ≢ none
    → message_of tags prefix o ≢ err stuck
unfolding message_of
message_of-ne-stuck tags prefix none h = absurd (h refl)
message_of-ne-stuck tags prefix (some []) h = λ e. cc
message_of-ne-stuck tags prefix (some (w ∷ ws)) h = λ e. cc

parse_body-ne-stuck :
    (tags : Tags) (prefix : Option Prefix) (raw : Bytes) → parse_body tags prefix raw ≢ err stuck
unfolding parse_body
parse_body-ne-stuck tags prefix [] = λ e. cc
parse_body-ne-stuck tags prefix (c ∷ cs) =
    message_of-ne-stuck tags prefix _ (params_loop-ne-none (length (c ∷ cs)) (c ∷ cs) (omega arith))

tags_of-ne-stuck : (o : Option (Bytes × Bytes)) → tags_of o ≢ err stuck
unfolding tags_of
tags_of-ne-stuck none = λ e. cc
tags_of-ne-stuck (some p) = λ e. cc

take_tags-ne-stuck : (raw : Bytes) → take_tags raw ≢ err stuck
unfolding take_tags
take_tags-ne-stuck [] = λ e. cc
take_tags-ne-stuck (c ∷ cs) = ground (arith, tags_of-ne-stuck (cut b' ' cs))

prefix_of-ne-stuck : (o : Option (Bytes × Bytes)) → prefix_of o ≢ err stuck
unfolding prefix_of
prefix_of-ne-stuck none = λ e. cc
prefix_of-ne-stuck (some p) = λ e. cc

take_prefix-ne-stuck : (raw : Bytes) → take_prefix raw ≢ err stuck
unfolding take_prefix
take_prefix-ne-stuck [] = λ e. cc
take_prefix-ne-stuck (c ∷ cs) = ground (arith, prefix_of-ne-stuck (cut b' ' cs))

bind-ne-stuck :
    {A B : Type 0} (m : Result Error A) (f : A → Result Error B)
    → m ≢ err stuck
    → ((a : A) → f a ≢ err stuck)
    → (m >>= f) ≢ err stuck
bind-ne-stuck (ok a) f h k = k a
bind-ne-stuck (err e) f h k = λ q. h (cc)

parse_line-ne-stuck : (raw : Bytes) → parse_line raw ≢ err stuck
unfolding parse_line
parse_line-ne-stuck [] = λ e. cc
parse_line-ne-stuck (c ∷ cs) =
    bind-ne-stuck (take_tags (c ∷ cs)) _ (take_tags-ne-stuck (c ∷ cs)) λ t.
      bind-ne-stuck (take_prefix t.1) _ (take_prefix-ne-stuck t.1)
        λ p. parse_body-ne-stuck t.0 p.0 p.1

-- Parse ends on every line: the loop over the parameters never runs out of fuel.
pub parse-ne-stuck : (raw : Bytes) → parse raw ≢ err stuck
unfolding parse
parse-ne-stuck raw = parse_line-ne-stuck (trim_right is_line_end raw)
