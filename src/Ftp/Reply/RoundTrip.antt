-- ===== src/Ftp/Reply/RoundTrip.antt =====
-- Reply.String and the scanner together.
use go_protocols.Common.{
  ℕ, zero, suc, ◌+◌, ◌-◌, ◌*◌, ◌≤◌, ◌<◌, ◌≡◌, ◌≢◌, refl, sym, ap, ◌∙◌, true, false, ◌||◌, List, [],
  ◌∷◌, ◌++◌, some, ltb, ◌==◌, ==_iff, Bytes, ok, arith, All, All-append, append_assoc, length,
  length-append, take, drop, take-append, drop-append,
}
use go_protocols.Common.Bits.{every_below, every_below_sound}
use go_protocols.Common.Decimal.{
  decimal, is_digit, digits_value, digits_value-decimal, decimal-digits,
}
use go_protocols.Common.Text.{Free, cut, cut-append}
use go_protocols.Ftp.Command.{crlf}
use go_protocols.Ftp.Command.RoundTrip.{OneLine, trim_right-crlf}
use go_protocols.Ftp.Reply.{
  Reply, Error, malformed_reply, malformed_continuation, lines_text, single_text, reply_string,
  parse_code, line_of, split_reply_line, next_line, read_more, first_line, read,
}

decimal_table : every_below 900 (λ k. length (decimal (k + 100)) == 3) ≡ true
unfolding every_below decimal
decimal_table = refl

-- A code has three digits.
abbrev pub IsCode : ℕ → Type 0
IsCode code = (100 ≤ code) × (code < 1000)

length-decimal : (code : ℕ) → IsCode code → length (decimal code) ≡ 3
length-decimal code h =
    let e : code - 100 + 100 ≡ code = omega arith in
    let row =
      every_below_sound 900 (λ k. length (decimal (k + 100)) == 3) (code - 100) decimal_table
        (omega arith) in
    (==_iff _ _).0 (rw e at row)

parse_code-digits_value : (n : ℕ) (s : Bytes) → parse_code n s ≡ digits_value n s
unfolding parse_code digits_value
parse_code-digits_value n [] = refl
parse_code-digits_value n (c ∷ s) = rw (parse_code-digits_value (n * 10 + (c - 48)) s)

-- The separator is a space or a hyphen.
abbrev IsMark : ℕ → Type 0
IsMark sep = (sep == b' ' || sep == b'-') ≡ true

split_reply_line-text :
    (code sep : ℕ) (text : Bytes)
    → IsCode code
    → IsMark sep
    → OneLine text
    → split_reply_line (decimal code ++ (sep ∷ (text ++ crlf))) ≡ some (code, text, sep == b'-')
unfolding split_reply_line line_of
split_reply_line-text code sep text h m line =
    let three = length-decimal code h in
    let long = length-append (decimal code) (sep ∷ (text ++ crlf)) in
    let enough : ltb (length (decimal code ++ (sep ∷ (text ++ crlf)))) 3 ≡ false =
      ground (arith, long, three) in
    let front : take 3 (decimal code ++ (sep ∷ (text ++ crlf))) ≡ decimal code =
      rw three at (take-append (decimal code) (sep ∷ (text ++ crlf))) in
    let back : drop 3 (decimal code ++ (sep ∷ (text ++ crlf))) ≡ sep ∷ (text ++ crlf) =
      rw three at (drop-append (decimal code) (sep ∷ (text ++ crlf))) in
    let value : parse_code 0 (decimal code) ≡ some code =
      parse_code-digits_value 0 (decimal code) ∙ digits_value-decimal code in
    rw (enough, front, back, value, trim_right-crlf text line) (ground (arith, m))

digits-Free : (s : Bytes) → All (λ c. is_digit c ≡ true) s → Free 10 s
digits-Free [] h = tt
digits-Free (c ∷ s) h = (ground (arith, h.0), digits-Free s h.1)

OneLine-Free : (s : Bytes) → OneLine s → Free 10 s
OneLine-Free [] h = tt
OneLine-Free (c ∷ s) h = (ground (arith, h.0), OneLine-Free s h.1)

-- One line of a reply and what follows it.
line_text : ℕ → ℕ → Bytes → Bytes → Bytes
line_text code sep text rest = decimal code ++ (sep ∷ (text ++ (crlf ++ rest)))

next_line-text :
    (bad : Error) (code sep : ℕ) (text rest : Bytes)
    → IsCode code
    → IsMark sep
    → OneLine text
    → next_line bad (cut 10 (line_text code sep text rest)) ≡ ok ((code, text, sep == b'-'), rest)
unfolding next_line line_text
next_line-text bad code sep text rest h m line =
    let front : Bytes = decimal code ++ (sep ∷ (text ++ 13 ∷ [])) in
    let free : Free 10 front =
      All-append (λ x. x ≢ 10) (decimal code) (sep ∷ (text ++ 13 ∷ []))
        (digits-Free (decimal code) (decimal-digits code))
        (
          ground (arith, m),
          All-append (λ x. x ≢ 10) text (13 ∷ []) (OneLine-Free text line) (omega arith),
        ) in
    let whole : decimal code ++ (sep ∷ (text ++ (crlf ++ rest))) ≡ front ++ 10 ∷ rest = sym (
      append_assoc (decimal code) (sep ∷ (text ++ 13 ∷ [])) (10 ∷ rest)
      ∙ ap (λ t. decimal code ++ (sep ∷ t)) (append_assoc text (13 ∷ []) (10 ∷ rest))) in
    let again : front ++ 10 ∷ [] ≡ decimal code ++ (sep ∷ (text ++ crlf)) =
      append_assoc (decimal code) (sep ∷ (text ++ 13 ∷ [])) (10 ∷ [])
      ∙ ap (λ t. decimal code ++ (sep ∷ t)) (append_assoc text (13 ∷ []) (10 ∷ [])) in
    rw (whole, cut-append 10 front rest free, next_line)
      (rw again (rw (split_reply_line-text code sep text h m line)))

append_line :
    (code sep : ℕ) (text more rest : Bytes)
    → (decimal code ++ (sep ∷ (text ++ (crlf ++ more)))) ++ rest
      ≡ line_text code sep text (more ++ rest)
unfolding line_text
append_line code sep text more rest =
    append_assoc (decimal code) (sep ∷ (text ++ (crlf ++ more))) rest
    ∙ ap (λ t. decimal code ++ (sep ∷ t)) (append_assoc text (crlf ++ more) rest)

read_more-lines_text :
    (f code : ℕ) (front : List Bytes) (l : Bytes) (ls : List Bytes) (rest : Bytes)
    → IsCode code
    → All OneLine (l ∷ ls)
    → length ls < f
    → read_more f code front (lines_text code (l ∷ ls) ++ rest)
      ≡ ok (record { code = code; text = []; lines = front ++ l ∷ ls }, rest)
unfolding read_more lines_text
read_more-lines_text zero code front l ls rest h o k = absurd (omega arith)
read_more-lines_text (suc f) code front l [] rest h o k =
    let same : (code == code) ≡ true = ground arith in
    rw (append_line code b' ' l [] rest)
      (rw (read_more, next_line-text malformed_continuation code b' ' l rest h refl o.0, same))
read_more-lines_text (suc f) code front l (m ∷ ls) rest h o k =
    let same : (code == code) ≡ true = ground arith in
    let ih = read_more-lines_text f code (front ++ l ∷ []) m ls rest h o.1 (omega arith) in
    rw (append_line code b'-' l (lines_text code (m ∷ ls)) rest) (
      rw
        (
          read_more,
          next_line-text malformed_continuation code b'-' l (lines_text code (m ∷ ls) ++ rest) h
              refl o.0,
          same,
        )
        (ih ∙ rw (append_assoc front (l ∷ []) (m ∷ ls))))

-- What a client receives of a reply: its lines, or its text as the only line.
pub received : Reply → Reply
received r = record { code = r.code; text = []; lines = some_lines r.text r.lines }
  where
    some_lines : Bytes → List Bytes → List Bytes
    some_lines text [] = text ∷ []
    some_lines text (l ∷ ls) = l ∷ ls

-- A line takes a byte at least.
lines_text-long :
    (code : ℕ) (l : Bytes) (ls : List Bytes) → length ls < length (lines_text code (l ∷ ls))
unfolding lines_text
lines_text-long code l [] =
    let e = length-append (decimal code) (b' ' ∷ (l ++ crlf)) in omega (arith, e)
lines_text-long code l (m ∷ ls) =
    let e = length-append (decimal code) (b'-' ∷ (l ++ (crlf ++ lines_text code (m ∷ ls)))) in
    let d = length-append l (crlf ++ lines_text code (m ∷ ls)) in
    omega (arith, e, d, lines_text-long code m ls)

read-line :
    (code : ℕ) (text rest : Bytes)
    → IsCode code
    → OneLine text
    → read ((decimal code ++ (b' ' ∷ (text ++ crlf))) ++ rest)
      ≡ ok (record { code = code; text = []; lines = text ∷ [] }, rest)
unfolding read first_line
read-line code text rest h o =
    rw (append_line code b' ' text [] rest)
      (rw (next_line-text malformed_reply code b' ' text rest h refl o))

read-single_text :
    (code : ℕ) (text : Bytes) (ls : List Bytes) (rest : Bytes)
    → IsCode code
    → OneLine text
    → All OneLine ls
    → read (single_text code text ls ++ rest)
      ≡ ok (received (record { code = code; text = text; lines = ls }), rest)
unfolding read first_line single_text lines_text received
read-single_text code text [] rest h t o = read-line code text rest h t
read-single_text code text (l ∷ []) rest h t o = read-line code l rest h o.0
read-single_text code text (l ∷ m ∷ ls) rest h t o =
    let size = length-append (lines_text code (m ∷ ls)) rest in
    let more =
      read_more-lines_text (length (lines_text code (m ∷ ls) ++ rest) + 1) code (l ∷ []) m ls rest h
        o.1 (omega (arith, size, lines_text-long code m ls)) in
    rw (append_line code b'-' l (lines_text code (m ∷ ls)) rest) (
      rw (next_line-text malformed_reply code b'-' l (lines_text code (m ∷ ls) ++ rest) h refl o.0)
        more)

-- The scanner reads back a reply that Reply.String wrote, and leaves what follows it, when the
-- code has three digits and no text holds a line end. The text of a reply without lines comes
-- back as its only line.
pub read-reply_string :
    (r : Reply) (rest : Bytes)
    → IsCode r.code
    → OneLine r.text
    → All OneLine r.lines
    → read (reply_string r ++ rest) ≡ ok (received r, rest)
unfolding reply_string
read-reply_string r rest h t o = read-single_text r.code r.text r.lines rest h t o
