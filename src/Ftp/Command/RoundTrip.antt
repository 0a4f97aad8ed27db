-- ===== src/Ftp/Command/RoundTrip.antt =====
-- Command.String and Parse together.
use go_protocols.Common.{
  ◌≡◌, ◌≢◌, refl, sym, false, [], ◌∷◌, ◌++◌, Bytes, ok, All, All-append, append_assoc,
}
use go_protocols.Common.Text.{Free, cut-append, cut-Free, trim_right, keep_unless, to_upper}
use go_protocols.Ftp.Command.{
  Command, crlf, is_line_end, with_arg, command_string, command_of, line_command, parse,
}

-- No carriage return and no line feed.
abbrev pub OneLine : Bytes → Type 0
OneLine = All (λ c. is_line_end c ≡ false)

pub trim_right-crlf : (s : Bytes) → OneLine s → trim_right is_line_end (s ++ crlf) ≡ s
unfolding trim_right keep_unless
trim_right-crlf [] h = refl
trim_right-crlf (c ∷ s) h = rw (trim_right-crlf s h.1, h.0)

-- The commands that the wire form can carry.
pub record IsCommand (c : Command) : Type 0 where
  pub name_ne_nil : c.name ≢ []
  pub name_space : Free b' ' c.name
  pub name_upper : to_upper c.name ≡ c.name
  pub name_line : OneLine c.name
  pub arg_line : OneLine c.arg

line_command-name :
    (name : Bytes)
    → name ≢ []
    → Free b' ' name
    → to_upper name ≡ name
    → line_command name ≡ ok (record { name = name; arg = [] })
unfolding line_command command_of
line_command-name [] ne free up = absurd (ne refl)
line_command-name (c ∷ cs) ne free up = rw (cut-Free b' ' (c ∷ cs) free, up)

line_command-arg :
    (name arg : Bytes)
    → name ≢ []
    → Free b' ' name
    → to_upper name ≡ name
    → line_command (name ++ b' ' ∷ arg) ≡ ok (record { name = name; arg = arg })
unfolding line_command command_of
line_command-arg [] arg ne free up = absurd (ne refl)
line_command-arg (c ∷ cs) arg ne free up = rw (cut-append b' ' (c ∷ cs) arg free, up)

parse-with_arg :
    (name arg : Bytes)
    → IsCommand (record { name = name; arg = arg })
    → parse (with_arg name arg) ≡ ok (record { name = name; arg = arg })
unfolding parse with_arg
parse-with_arg name [] h =
    rw (trim_right-crlf name h.name_line)
      (line_command-name name h.name_ne_nil h.name_space h.name_upper)
parse-with_arg name (a ∷ arg) h =
    let line : OneLine (name ++ b' ' ∷ a ∷ arg) =
      All-append (λ c. is_line_end c ≡ false) name (b' ' ∷ a ∷ arg) h.name_line
        (refl, h.arg_line) in
    let whole : name ++ (b' ' ∷ ((a ∷ arg) ++ crlf)) ≡ (name ++ b' ' ∷ a ∷ arg) ++ crlf =
      sym (append_assoc name (b' ' ∷ a ∷ arg) crlf) in
    rw whole (
      rw (trim_right-crlf (name ++ b' ' ∷ a ∷ arg) line)
        (line_command-arg name (a ∷ arg) h.name_ne_nil h.name_space h.name_upper))

-- Parse reads back a command that Command.String wrote, when its name is one word in capitals and
-- neither part holds a line end.
pub parse-command_string : (c : Command) → IsCommand c → parse (command_string c) ≡ ok c
unfolding command_string
parse-command_string c h = parse-with_arg c.name c.arg h
