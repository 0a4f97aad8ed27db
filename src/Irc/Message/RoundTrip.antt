-- ===== src/Irc/Message/RoundTrip.antt =====
-- Format and Parse together.
use go_protocols.Common.{
  ℕ, Bool, true, false, ◌≡◌, ◌≢◌, refl, List, [], ◌∷◌, ◌++◌, Option, none, some, ◌==◌, Bytes, arith,
  length, ok, All, All-append, if_cases,
}
use go_protocols.Common.Text.{Free, cut-append, trim_left, trim_right, keep_unless, to_upper}
use go_protocols.Common.Maps.{lookup, bytes_key}
use go_protocols.Irc.Message.{
  Tags, Prefix, Message, is_space, is_line_end, is_empty, parse_tags, take_tags, take_prefix,
  message_of, parse_body, parse_line, parse, pass, tags_text, format_tags, format_prefix,
  needs_colon, params_text, format,
}
use go_protocols.Irc.Message.Words.{IsWord, AreParams, trim_left-word, params_loop-params_text}
use go_protocols.Irc.Message.Source.{AreSource, take_prefix-format_prefix}
use go_protocols.Irc.Message.TagText.{IsTag, Distinct, parse_tags-tags_text, tags_text-Free}
use go_protocols.Irc.Message.TagOrder.{
  server_first, server_first-cons, server_first-Distinct, server_first-IsTag, lookup-server_first,
}

-- No carriage return and no line feed.
abbrev pub OneLine : Bytes → Type 0
OneLine = All (λ c. is_line_end c ≡ false)

-- The messages that the wire form can carry.
pub record IsWire (m : Message) : Type 0 where
  pub tags_written : All IsTag m.tags
  pub tags_distinct : Distinct m.tags
  pub source : AreSource m.prefix
  pub command_word : IsWord m.command
  pub command_no_tags : Free b'@' m.command
  pub command_upper : to_upper m.command ≡ m.command
  pub command_line : OneLine m.command
  pub params_words : AreParams m.params
  pub params_line : All OneLine m.params

-- Text that the trimming of the line end leaves as it is, whatever stands before it.
record IsTrimmed (s : Bytes) : Type 0 where
  kept : trim_right is_line_end s ≡ s
  some_text : s ≢ []

OneLine-trim : (s : Bytes) → OneLine s → trim_right is_line_end s ≡ s
unfolding trim_right keep_unless
OneLine-trim [] h = refl
OneLine-trim (c ∷ s) h = rw (OneLine-trim s h.1, h.0)

keep_unless-cons : (b : Bool) (c : ℕ) (s : Bytes) → s ≢ [] → keep_unless b c s ≡ c ∷ s
unfolding keep_unless
keep_unless-cons b c [] h = absurd (h refl)
keep_unless-cons true c (d ∷ s) h = refl
keep_unless-cons false c (d ∷ s) h = refl

IsTrimmed-cons : (c : ℕ) (s : Bytes) → IsTrimmed s → IsTrimmed (c ∷ s)
unfolding trim_right
IsTrimmed-cons c s h = record {
  kept = rw (h.kept) (keep_unless-cons (is_line_end c) c s h.some_text);
  some_text = λ e. cc;
}

IsTrimmed-append : (a s : Bytes) → IsTrimmed s → IsTrimmed (a ++ s)
IsTrimmed-append [] s h = h
IsTrimmed-append (c ∷ a) s h = IsTrimmed-cons c (a ++ s) (IsTrimmed-append a s h)

params_text-OneLine : (ps : List Bytes) → All OneLine ps → OneLine (params_text ps)
unfolding params_text
params_text-OneLine [] h = tt
params_text-OneLine (p ∷ []) h =
    (refl, if_cases OneLine (needs_colon p) _ _ (λ e. (refl, h.0)) (λ e. h.0))
params_text-OneLine (p ∷ q ∷ ps) h = (
  refl,
  All-append (λ c. is_line_end c ≡ false) p (params_text (q ∷ ps)) h.0
      (params_text-OneLine (q ∷ ps) h.1),
)

-- A line, or a part of it, that begins with a word or a prefix.
record Begins (s : Bytes) : Type 0 where
  first : ℕ
  rest : Bytes
  splits : s ≡ first ∷ rest
  no_space : first ≢ b' '
  no_tags : first ≢ b'@'

format_prefix-Begins : (o : Option Prefix) (s : Bytes) → Begins s → Begins (format_prefix o s)
unfolding format_prefix
format_prefix-Begins none s b = b
format_prefix-Begins (some p) s b = record {
  first = b':';
  rest = _;
  splits = refl;
  no_space = omega arith;
  no_tags = omega arith;
}

format_prefix-IsTrimmed :
    (o : Option Prefix) (s : Bytes) → IsTrimmed s → IsTrimmed (format_prefix o s)
unfolding format_prefix
format_prefix-IsTrimmed none s h = h
format_prefix-IsTrimmed (some p) s h =
    IsTrimmed-cons b':' _ (IsTrimmed-append _ _ (IsTrimmed-cons b' ' s h))

format_tags-IsTrimmed : (tags : Tags) (s : Bytes) → IsTrimmed s → IsTrimmed (format_tags tags s)
unfolding format_tags
format_tags-IsTrimmed [] s h = h
format_tags-IsTrimmed (t ∷ ts) s h =
    IsTrimmed-cons b'@' _ (IsTrimmed-append _ _ (IsTrimmed-cons b' ' s h))

parse_server_first :
    (t : Bytes × Bytes) (ts : Tags)
    → All IsTag (t ∷ ts)
    → Distinct (t ∷ ts)
    → parse_tags (tags_text (server_first (t ∷ ts))) ≡ server_first (t ∷ ts)
parse_server_first t ts h d =
    let (u, us, e) = server_first-cons t ts in
    let h' : All IsTag (u ∷ us) = rw e at (server_first-IsTag (t ∷ ts) h) in
    let d' : Distinct (u ∷ us) = rw e at (server_first-Distinct (t ∷ ts) d) in
    rw e (parse_tags-tags_text u us h' d')

take_tags-format_tags :
    (tags : Tags) (s : Bytes)
    → All IsTag tags
    → Distinct tags
    → Begins s
    → take_tags (format_tags tags s) ≡ ok (server_first tags, s)
unfolding take_tags format_tags
take_tags-format_tags [] s h d b =
    rw b.splits (unfold pass in (let e : (b.first == b'@') ≡ false = ground arith in rw e))
take_tags-format_tags (t ∷ ts) s h d b =
    let text : Bytes = tags_text (server_first (t ∷ ts)) in
    let clean = tags_text-Free (server_first (t ∷ ts)) (server_first-IsTag (t ∷ ts) h) in
    let left : trim_left is_space s ≡ s = rw b.splits (trim_left-word b.first b.rest b.no_space) in
    rw (cut-append b' ' text s clean, parse_server_first t ts h d, left)

abbrev body : Message → Bytes
body m = m.command ++ params_text m.params

-- The command and what follows it.
command_cons :
    (w s : Bytes)
    → IsWord w
    → Free b'@' w
    → (c : ℕ) × (cs : Bytes) × (w ++ s ≡ c ∷ cs) × (c ≢ b' ') × (c ≢ b':') × (c ≢ b'@')
command_cons [] s h a = absurd h
command_cons (c ∷ w) s h a = (c, w ++ s, refl, h.1.0, h.0, a.0)

parse_body-body :
    (tags : Tags) (m : Message)
    → IsWire m
    → parse_body tags m.prefix (body m) ≡ ok (record m { tags = tags })
unfolding parse_body message_of
parse_body-body tags m h =
    let (c, cs, e, _, _, _) =
      command_cons m.command (params_text m.params) h.command_word h.command_no_tags in
    let words =
      params_loop-params_text (length (body m)) m.command m.params h.command_word h.params_words
        (omega arith) in
    let full : is_empty (body m) ≡ false = rw e in rw (full, words, h.command_upper)

format-IsTrimmed : (m : Message) → IsWire m → IsTrimmed (format m)
unfolding format
format-IsTrimmed m h =
    let (c, cs, e, _, _, _) =
      command_cons m.command (params_text m.params) h.command_word h.command_no_tags in
    let line : OneLine (body m) =
      All-append (λ x. is_line_end x ≡ false) m.command (params_text m.params) h.command_line
        (params_text-OneLine m.params h.params_line) in
    let ends : IsTrimmed (body m) = record {
      kept = OneLine-trim (body m) line;
      some_text = rw e (λ p. cc);
    } in
    format_tags-IsTrimmed m.tags _ (format_prefix-IsTrimmed m.prefix (body m) ends)

not_empty : (s : Bytes) → s ≢ [] → is_empty s ≡ false
not_empty [] h = absurd (h refl)
not_empty (c ∷ s) h = refl

parse_line-format :
    (m : Message) → IsWire m → parse_line (format m) ≡ ok (record m { tags = server_first m.tags })
unfolding parse_line format
parse_line-format m h =
    let (c, cs, e, space, colon, tag) =
      command_cons m.command (params_text m.params) h.command_word h.command_no_tags in
    let head : Begins (body m) = record {
      first = c;
      rest = cs;
      splits = e;
      no_space = space;
      no_tags = tag;
    } in
    let s : Bytes = format_prefix m.prefix (body m) in
    let full : is_empty (format_tags m.tags s) ≡ false =
      not_empty (format_tags m.tags s) (format-IsTrimmed m h).some_text in
    let tags =
      take_tags-format_tags m.tags s h.tags_written h.tags_distinct
        (format_prefix-Begins m.prefix (body m) head) in
    let source : take_prefix s ≡ ok (m.prefix, body m) =
      rw e (take_prefix-format_prefix m.prefix c cs h.source space colon) in
    rw (full, tags, source) (parse_body-body (server_first m.tags) m h)

-- Parse reads a message that Format wrote back as the same message, up to the order of its tags,
-- when the message satisfies IsWire: keys, prefix, command and parameters that the wire form can
-- carry.
pub parse-format :
    (m : Message)
    → IsWire m
    → (tags : Tags) × (parse (format m) ≡ ok (record m { tags = tags }))
      × ((k : Bytes) → lookup k tags ≡ lookup k m.tags)
unfolding parse
parse-format m h = (
  server_first m.tags,
  rw ((format-IsTrimmed m h).kept) (parse_line-format m h),
  λ k. lookup-server_first k m.tags,
)
