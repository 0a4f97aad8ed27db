-- ===== src/Irc/Message/Source.antt =====
-- The prefix of a line.
use go_protocols.Common.{
  ℕ, ◌≡◌, ◌≢◌, refl, sym, [], ◌∷◌, ◌++◌, ◌⊎◌, inl, inr, Option, none, some, Bytes, arith, ok,
  append_assoc, All-append,
}
use go_protocols.Common.Text.{Free, cut-append, cut-Free}
use go_protocols.Irc.Message.{Prefix, prefix_string, parse_prefix, take_prefix, format_prefix}
use go_protocols.Irc.Message.Words.{trim_left-word}

-- A prefix that its wire form determines. A user without a host is not written.
pub record IsSource (p : Prefix) : Type 0 where
  pub nick_bang : Free b'!' p.nick
  pub nick_at : Free b'@' p.nick
  pub nick_space : Free b' ' p.nick
  pub user_at : Free b'@' p.user
  pub user_space : Free b' ' p.user
  pub host_space : Free b' ' p.host
  pub user_has_host : p.host ≡ [] → p.user ≡ []

parse_full :
    (nick user host : Bytes)
    → Free b'!' nick
    → Free b'@' nick
    → Free b'@' user
    → parse_prefix (nick ++ (b'!' ∷ (user ++ (b'@' ∷ host))))
      ≡ record { nick = nick; user = user; host = host }
unfolding parse_prefix
parse_full nick user host bang at at' =
    let front : Bytes = nick ++ (b'!' ∷ user) in
    let whole : nick ++ (b'!' ∷ (user ++ (b'@' ∷ host))) ≡ front ++ b'@' ∷ host =
      sym (append_assoc nick (b'!' ∷ user) (b'@' ∷ host)) in
    let clean : Free b'@' front =
      All-append (λ x. x ≢ b'@') nick (b'!' ∷ user) at (omega arith, at') in
    rw (whole, cut-append b'@' front host clean, cut-append b'!' nick user bang)

parse_nick :
    (nick : Bytes)
    → Free b'!' nick
    → Free b'@' nick
    → parse_prefix nick ≡ record { nick = nick; user = []; host = [] }
unfolding parse_prefix
parse_nick nick bang at = rw (cut-Free b'@' nick at, cut-Free b'!' nick bang)

-- The two forms that prefix_string writes.
prefix_string_cases :
    (nick user host : Bytes)
    → (host ≡ [] → user ≡ [])
    → let p : Prefix = record { nick = nick; user = user; host = host } in
      ((user ≡ []) × (host ≡ []) × (prefix_string p ≡ nick))
      ⊎ (prefix_string p ≡ nick ++ (b'!' ∷ (user ++ (b'@' ∷ host))))
unfolding prefix_string
prefix_string_cases nick [] [] h = inl (refl, refl, refl)
prefix_string_cases nick (c ∷ user) [] h = cc (h refl)
prefix_string_cases nick [] (d ∷ host) h = inr refl
prefix_string_cases nick (c ∷ user) (d ∷ host) h = inr refl

-- parsePrefix reads back what Prefix.String wrote, for a prefix that its wire form determines.
pub parse_prefix-prefix_string : (p : Prefix) → IsSource p → parse_prefix (prefix_string p) ≡ p
parse_prefix-prefix_string p h = elim (prefix_string_cases p.nick p.user p.host h.user_has_host) [
  | inl (u, o, e) ↦ rw (e, u, o) (parse_nick p.nick h.nick_bang h.nick_at)
  | inr e ↦ rw e (parse_full p.nick p.user p.host h.nick_bang h.nick_at h.user_at)
]

prefix_string-Free : (p : Prefix) → IsSource p → Free b' ' (prefix_string p)
prefix_string-Free p h = elim (prefix_string_cases p.nick p.user p.host h.user_has_host) [
  | inl (u, o, e) ↦ rw e h.nick_space
  | inr e ↦ rw e (
      All-append (λ x. x ≢ b' ') p.nick (b'!' ∷ (p.user ++ (b'@' ∷ p.host))) h.nick_space
        (
          omega arith,
          All-append (λ x. x ≢ b' ') p.user (b'@' ∷ p.host) h.user_space
              (omega arith, h.host_space),
        ))
]

abbrev pub AreSource : Option Prefix → Type 0
AreSource none = Unit
AreSource (some p) = IsSource p

-- The prefix part of a line whose rest begins with a word.
pub take_prefix-format_prefix :
    (o : Option Prefix) (c : ℕ) (cs : Bytes)
    → AreSource o
    → c ≢ b' '
    → c ≢ b':'
    → take_prefix (format_prefix o (c ∷ cs)) ≡ ok (o, c ∷ cs)
unfolding take_prefix format_prefix
take_prefix-format_prefix none c cs h s k = ground arith
take_prefix-format_prefix (some p) c cs h s k = rw (
  cut-append b' ' (prefix_string p) (c ∷ cs) (prefix_string-Free p h),
  trim_left-word c cs s,
  parse_prefix-prefix_string p h,
)
