-- ===== src/Ftp/Reply.antt =====
-- Reply of ftp/ftp/ftp.go and the scanner of ftp/ftp/reply.go.
pub mod RoundTrip
use go_protocols.Common.{
  ℕ, zero, suc, ◌+◌, ◌-◌, ◌*◌, Bool, true, false, not, ◌&&◌, List, [], ◌∷◌, ◌++◌, Option, none,
  some, ltb, leb, ◌==◌, if◌then◌else◌, Bytes, length, take, drop, Result, ok, err, ◌>>=◌,
}
use go_protocols.Common.Decimal.{decimal, is_digit}
use go_protocols.Common.Text.{cut, trim_right}
use go_protocols.Ftp.Command.{is_line_end, crlf}

pub record Reply : Type 0 where
  pub code : ℕ
  pub text : Bytes
  pub lines : List Bytes

-- NewReply
abbrev pub new_reply : ℕ → Bytes → Reply
new_reply code text = record { code = code; text = text; lines = [] }

-- NewMultiLine
abbrev pub new_multi_line : ℕ → List Bytes → Reply
new_multi_line code lines = record { code = code; text = []; lines = lines }

unfoldable pub lines_text : ℕ → List Bytes → Bytes
lines_text code [] = []
lines_text code (l ∷ []) = decimal code ++ (b' ' ∷ (l ++ crlf))
lines_text code (l ∷ m ∷ ls) = decimal code ++ (b'-' ∷ (l ++ (crlf ++ lines_text code (m ∷ ls))))

single_text : ℕ → Bytes → List Bytes → Bytes
single_text code text [] = decimal code ++ (b' ' ∷ (text ++ crlf))
single_text code text (l ∷ ls) = lines_text code (l ∷ ls)

-- Reply.String
unfoldable pub reply_string : Reply → Bytes
unfolding single_text lines_text
reply_string r = single_text r.code r.text r.lines

-- Permanent and Positive
unfoldable pub permanent : Reply → Bool
permanent r = leb 500 r.code && ltb r.code 600

unfoldable pub positive : Reply → Bool
positive r = leb 200 r.code && ltb r.code 400

pub data Error : Type 0 where
  eof malformed_reply malformed_continuation code_changed : Error
  -- The model's own: the fuel ran out.
  stuck : Error

-- parseCode, on the number read so far.
unfoldable pub parse_code : ℕ → Bytes → Option ℕ
parse_code n [] = some n
parse_code n (c ∷ cs) =
    let rest = parse_code (n * 10 + (c - 48)) cs in if is_digit c then rest else none

-- The rest of a line behind its code: a space or a hyphen, and the text.
line_of : Option ℕ → Bytes → Option (ℕ × Bytes × Bool)
line_of none rest = none
line_of (some code) [] = none
line_of (some code) (c ∷ text) =
    if c == b' '
    then some (code, trim_right is_line_end text, false)
    else if c == b'-'
    then some (code, trim_right is_line_end text, true)
    else none

-- splitReplyLine, with isMultiLineStart for its third part.
unfoldable pub split_reply_line : Bytes → Option (ℕ × Bytes × Bool)
unfolding line_of parse_code
split_reply_line line =
    if ltb (length line) 3 then none else line_of (parse_code 0 (take 3 line)) (drop 3 line)

-- ReadString('\n') and the split: the line's parts and the bytes left.
next_line : Error → Option (Bytes × Bytes) → Result Error ((ℕ × Bytes × Bool) × Bytes)
next_line bad none = err eof
next_line bad (some (line, rest)) = elim (split_reply_line (line ++ 10 ∷ [])) [
  | none ↦ err bad
  | some parts ↦ ok (parts, rest)
]

-- The loop over the continuation lines; a line takes a byte at least.
unfoldable pub read_more : ℕ → ℕ → List Bytes → Bytes → Result Error (Reply × Bytes)
unfolding next_line
read_more zero code lines input = err stuck
read_more (suc f) code lines input = elim (next_line malformed_continuation (cut 10 input)) [
  | err e ↦ err e
  | ok ((c, text, more), rest) ↦
      let again = read_more f code (lines ++ text ∷ []) rest in
      if not (c == code)
      then err code_changed
      else if more
      then again
      else ok (record { code = code; text = []; lines = lines ++ text ∷ [] }, rest)
]

-- Read: the first line, and the others when it begins a reply of several lines.
first_line : ℕ × Bytes × Bool → Bytes → Result Error (Reply × Bytes)
unfolding read_more
first_line (code, text, more) input =
    if more
    then read_more (length input + 1) code (text ∷ []) input
    else ok (record { code = code; text = []; lines = text ∷ [] }, input)

unfoldable pub read : Bytes → Result Error (Reply × Bytes)
unfolding first_line next_line
read input = next_line malformed_reply (cut 10 input) >>= λ r. first_line r.0 r.1
