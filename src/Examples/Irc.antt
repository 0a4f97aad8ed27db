-- ===== src/Examples/Irc.antt =====
-- Inputs for irc/irc, irc/server/mode and irc/internal/ringbuf.
use go_protocols.Common.{
  ℕ, ◌+◌, ◌-◌, ◌≡◌, ◌≢◌, refl, Bool, true, false, not, some, [], ◌∷◌, ◌==◌, if◌then◌else◌, arith,
  Bytes, drop, All, ok, err, equal,
}
use go_protocols.Common.Text.{codes, to_upper}
use go_protocols.Common.Maps.{lookup, bytes_key}
use go_protocols.Irc.Ringbuf.{RingBuf, new, slice}
use go_protocols.Irc.Ringbuf.Views.{push_all, slice-push_all-new}
use go_protocols.Common.Utf8.{is_rune}
use go_protocols.Irc.ModeString.{ModeChange, mode_needs_arg, parse_mode_string, format_mode_changes}
use go_protocols.Irc.ModeString.RoundTrip.{IsPlain, parse_mode_string-format}
use go_protocols.Irc.ModeSet.{ModeSet, has, list_of, apply, channel_validator}
use go_protocols.Irc.ModeSet.Laws.{flag_after, has-apply}
use go_protocols.Irc.ModeSet.Unique.{AreUnique}
use go_protocols.Irc.Message.{Tags, Prefix, Message, stuck, parse, format}
use go_protocols.Irc.Message.Source.{IsSource}
use go_protocols.Irc.Message.TagText.{IsTag, Distinct}
use go_protocols.Irc.Message.RoundTrip.{IsWire, parse-format}
use go_protocols.Irc.Message.Total.{parse-ne-stuck}

abbrev two_places : RingBuf ℕ
two_places = new 0 2

slice-push_all-new_example :
    slice {A = ℕ} 0 (push_all (5 ∷ 6 ∷ 7 ∷ []) (new 0 2))
    ≡ drop (3 - (if 2 == 0 then 1 else 2)) (5 ∷ 6 ∷ 7 ∷ [])
slice-push_all-new_example = slice-push_all-new 0 2 (5 ∷ 6 ∷ 7 ∷ [])

abbrev add_until_six : ℕ → ℕ → ℕ × Bool
add_until_six x s = (s + x, not (x == 6))

-- +o ann, -i and +l 20
abbrev op_ann : ModeChange
op_ann = record { add = true; mode = b'o'; arg = codes "ann" }

abbrev no_invite : ModeChange
no_invite = record { add = false; mode = b'i'; arg = [] }

abbrev limit_on : ModeChange
limit_on = record { add = true; mode = b'l'; arg = codes "20" }

abbrev ban : ModeChange
ban = record { add = true; mode = b'b'; arg = codes "*!*@x" }

three_changes-IsPlain : All IsPlain (op_ann ∷ no_invite ∷ limit_on ∷ [])
unfolding mode_needs_arg is_rune
three_changes-IsPlain = (
  record { valid = refl; not_plus = omega arith; not_minus = omega arith; fits = refl },
  (
    record { valid = refl; not_plus = omega arith; not_minus = omega arith; fits = refl },
    (record { valid = refl; not_plus = omega arith; not_minus = omega arith; fits = refl }, tt),
  ),
)

parse_mode_string-format_example :
    parse_mode_string
      (format_mode_changes (op_ann ∷ no_invite ∷ limit_on ∷ [])).0
      (format_mode_changes (op_ann ∷ no_invite ∷ limit_on ∷ [])).1
    ≡ op_ann ∷ no_invite ∷ limit_on ∷ []
parse_mode_string-format_example =
    parse_mode_string-format (op_ann ∷ no_invite ∷ limit_on ∷ []) three_changes-IsPlain

abbrev no_modes : ModeSet
no_modes = record { flags = []; args = []; lists = [] }

has-apply_example :
    has (apply channel_validator (ban ∷ no_invite ∷ limit_on ∷ []) no_modes).0 b'i'
    ≡ flag_after channel_validator.type b'i' (ban ∷ no_invite ∷ limit_on ∷ []) (has no_modes b'i')
has-apply_example = has-apply channel_validator (ban ∷ no_invite ∷ limit_on ∷ []) no_modes b'i'

no_modes-AreUnique : AreUnique no_modes
unfolding list_of lookup
no_modes-AreUnique m = tt

abbrev ann : Prefix
ann = record { nick = codes "ann"; user = codes "a"; host = codes "x" }

ann-IsSource : IsSource ann
ann-IsSource = record {
  nick_bang = omega arith;
  nick_at = omega arith;
  nick_space = omega arith;
  user_at = omega arith;
  user_space = omega arith;
  host_space = omega arith;
  user_has_host = λ e. cc;
}

abbrev client_tag : Bytes × Bytes
client_tag = (codes "+x", codes "a b")

abbrev server_tag : Bytes × Bytes
server_tag = (codes "time", [])

two_tags-IsTag : All IsTag (client_tag ∷ server_tag ∷ [])
two_tags-IsTag = (
  record {
    key_ne_nil = λ e. cc;
    key_semicolon = omega arith;
    key_space = omega arith;
    key_equals = omega arith;
  },
  (
    record {
      key_ne_nil = λ e. cc;
      key_semicolon = omega arith;
      key_space = omega arith;
      key_equals = omega arith;
    },
    tt,
  ),
)

two_tags-Distinct : Distinct (client_tag ∷ server_tag ∷ [])
unfolding lookup equal
two_tags-Distinct = (refl, (refl, tt))

-- @time;+x=a\sb :ann!a@x PRIVMSG #go :hi all
abbrev greeting : Message
greeting = record {
  tags = client_tag ∷ server_tag ∷ [];
  prefix = some ann;
  command = codes "PRIVMSG";
  params = codes "#go" ∷ codes "hi all" ∷ [];
}

format-greeting : format greeting ≡ codes "@time;+x=a\\sb :ann!a@x PRIVMSG #go :hi all"
unfolding format
format-greeting = refl

greeting-IsWire : IsWire greeting
unfolding to_upper
greeting-IsWire = record {
  tags_written = two_tags-IsTag;
  tags_distinct = two_tags-Distinct;
  source = ann-IsSource;
  command_word = (omega arith, omega arith);
  command_no_tags = omega arith;
  command_upper = refl;
  command_line = (refl, (refl, (refl, (refl, (refl, (refl, (refl, tt)))))));
  params_words = ((omega arith, omega arith), tt);
  params_line =
      ((refl, (refl, (refl, tt))), ((refl, (refl, (refl, (refl, (refl, (refl, tt)))))), tt));
}

parse-format_example :
    (tags : Tags) × (parse (format greeting) ≡ ok (record greeting { tags = tags }))
    × ((k : Bytes) → lookup k tags ≡ lookup k greeting.tags)
parse-format_example = parse-format greeting greeting-IsWire

parse-ne-stuck_example : parse (codes "@a=1 :b PING  x :y z") ≢ err stuck
parse-ne-stuck_example = parse-ne-stuck (codes "@a=1 :b PING  x :y z")
