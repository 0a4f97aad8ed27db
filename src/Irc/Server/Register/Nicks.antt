-- ===== src/Irc/Server/Register/Nicks.antt =====
-- The registry under NICK and USER.
use go_protocols.Common.{
  ℕ, ◌≡◌, ◌≢◌, refl, sym, ap, ◌∙◌, inl, inr, ◌||◌, true, false, Option, List, [], ◌∷◌, none, some,
  ==_iff, Bool-cases, Bytes, equal,
}
use go_protocols.Common.Text.{codes, to_lower}
use go_protocols.Common.Maps.{bytes_key, nat_key, lookup, insert, is_none}
use go_protocols.Irc.Server.Names.{is_valid_nick, clean_username}
use go_protocols.Irc.Server.State.{
  SessionState, state_pre_reg, state_cap_neg, state_registered, Server, Config, at, store_session,
  send_numeric, add,
}
use go_protocols.Irc.Server.Tables.{
  tables-send_numeric, tables-notify_monitor_online, tables-welcome,
}
use go_protocols.Irc.Server.Register.{
  user_with, welcome, notify_monitor_online, registered, register_from, try_register, taken,
  handle_nick, handle_user, is_registered,
}
use go_protocols.Irc.Server.Register.Registry.{
  IsRegistry, at-tables, quiet-IsRegistry, store-IsRegistry, enter-IsRegistry, at-store_same,
}

pub off_not_registered : (st : SessionState) → is_registered st ≡ false → st ≢ state_registered
unfolding is_registered
off_not_registered st off e = let q = ap is_registered e in absurd (cc)

none_of : (o : Option ℕ) → is_none o ≡ true → o ≡ none
none_of none h = refl
none_of (some i) h = absurd (cc)

module _ (cfg : Config) where
  registered-IsRegistry :
      (i : ℕ) (srv : Server)
      → (at i srv).state ≢ state_registered
      → IsRegistry srv
      → IsRegistry (registered cfg i (add i srv) srv)
  unfolding registered add at
  registered-IsRegistry i srv before v =
      let key = to_lower (at i srv).nick in
      elim (Bool-cases (is_none (lookup key srv.sessions))) [
        | inl free ↦
            let s = record (at i srv) { state = state_registered } in
            let next = store_session i s (record srv { sessions = insert key i srv.sessions }) in
            let told = notify_monitor_online cfg i next in
            rw free (
              quiet-IsRegistry (welcome cfg i told) next
                (tables-welcome cfg i told ∙ tables-notify_monitor_online cfg i next)
                (enter-IsRegistry i s srv (none_of _ free) before refl v))
        | inr held ↦
            let told =
              send_numeric cfg i 433 ((at i srv).nick ∷ codes "Nickname is already in use" ∷ [])
                srv in
            let quiet = tables-send_numeric cfg i 433 _ srv in
            rw held (
              store-IsRegistry i (record (at i srv) { nick = [] }) told
                (λ e. before (sym (ap (λ x. x.state) (at-tables i told srv quiet)) ∙ e)) before
                (quiet-IsRegistry told srv quiet v))
      ]

  numeric-IsRegistry :
      (i n : ℕ) (ps : List Bytes) (srv : Server)
      → IsRegistry srv
      → IsRegistry (send_numeric cfg i n ps srv)
  numeric-IsRegistry i n ps srv v =
      quiet-IsRegistry (send_numeric cfg i n ps srv) srv (tables-send_numeric cfg i n ps srv) v

  register_from-IsRegistry :
      (st : SessionState) (i : ℕ) (srv : Server)
      → (at i srv).state ≡ st
      → IsRegistry srv
      → IsRegistry (register_from cfg st i srv)
  unfolding register_from
  register_from-IsRegistry state_registered i srv e v = v
  register_from-IsRegistry state_cap_neg i srv e v = v
  register_from-IsRegistry state_pre_reg i srv e v =
      elim (Bool-cases (equal (at i srv).nick [] || equal (at i srv).user [])) [
        | inl missing ↦ rw missing v
        | inr given ↦ rw given (
            registered-IsRegistry i srv
              (λ on. off_not_registered state_pre_reg (unfold is_registered in refl) (sym e ∙ on))
              v)
      ]

  try_register-IsRegistry :
      (i : ℕ) (srv : Server) → IsRegistry srv → IsRegistry (try_register cfg i srv)
  unfolding try_register
  try_register-IsRegistry i srv v = register_from-IsRegistry (at i srv).state i srv refl v

  -- NICK from a session that is not registered keeps the registry exact: a session stands under a
  -- key exactly when it is registered and the key is its nick in lower case.
  pub handle_nick-IsRegistry :
      (i : ℕ) (params : List Bytes) (srv : Server)
      → (at i srv).state ≢ state_registered
      → IsRegistry srv
      → IsRegistry (handle_nick cfg i params srv)
  unfolding handle_nick
  handle_nick-IsRegistry i [] srv before v = numeric-IsRegistry i 431 _ srv v
  handle_nick-IsRegistry i (nick ∷ ps) srv before v = elim (Bool-cases (is_valid_nick nick)) [
    | inr bad ↦ rw bad (numeric-IsRegistry i 432 _ srv v)
    | inl good ↦ elim (Bool-cases (taken cfg nick i srv)) [
      | inl held ↦ rw (good, held) (numeric-IsRegistry i 433 _ srv v)
      | inr free ↦
          rw (good, free)
            (try_register-IsRegistry i _
              (store-IsRegistry i (record (at i srv) { nick = nick }) srv before before v))
    ]
  ]

  user_with-IsRegistry :
      (i : ℕ) (params : List Bytes) (srv : Server)
      → (at i srv).state ≢ state_registered
      → IsRegistry srv
      → IsRegistry (user_with cfg i params srv)
  unfolding user_with
  user_with-IsRegistry i [] srv off v = numeric-IsRegistry i 461 _ srv v
  user_with-IsRegistry i (a ∷ []) srv off v = numeric-IsRegistry i 461 _ srv v
  user_with-IsRegistry i (a ∷ b ∷ []) srv off v = numeric-IsRegistry i 461 _ srv v
  user_with-IsRegistry i (a ∷ b ∷ c ∷ []) srv off v = numeric-IsRegistry i 461 _ srv v
  user_with-IsRegistry i (a ∷ b ∷ c ∷ d ∷ rest) srv off v = try_register-IsRegistry i _ (
      store-IsRegistry i (record (at i srv) { user = clean_username a; realname = d }) srv off off
        v)

  -- USER from any session.
  pub handle_user-IsRegistry :
      (i : ℕ) (params : List Bytes) (srv : Server)
      → IsRegistry srv
      → IsRegistry (handle_user cfg i params srv)
  unfolding handle_user
  handle_user-IsRegistry i params srv v = elim (Bool-cases (is_registered (at i srv).state)) [
    | inl on ↦ rw on (numeric-IsRegistry i 462 _ srv v)
    | inr off ↦
        rw off (user_with-IsRegistry i params srv (off_not_registered (at i srv).state off) v)
  ]

  handle_nick-registered :
      (i : ℕ) (nick : Bytes) (params : List Bytes) (srv : Server)
      → (at i srv).state ≡ state_registered
      → is_valid_nick nick ≡ true
      → taken cfg nick i srv ≡ false
      → handle_nick cfg i (nick ∷ params) srv
        ≡ store_session i (record (at i srv) { nick = nick }) srv
  unfolding handle_nick try_register register_from
  handle_nick-registered i nick params srv on good free =
      let next = store_session i (record (at i srv) { nick = nick }) srv in
      let still : (at i next).state ≡ state_registered =
        ap (λ x. x.state)
          (at-store_same i i (record (at i srv) { nick = nick }) srv ((==_iff i i).1 refl))
        ∙ on in
      rw (good, free, still)

  -- NICK from a registered session, with a valid nick that is free and differs from its own in
  -- more than case, leaves a registry that was exact no longer so.
  pub handle_nick_stale :
      (i : ℕ) (nick : Bytes) (params : List Bytes) (srv : Server)
      → (at i srv).state ≡ state_registered
      → is_valid_nick nick ≡ true
      → taken cfg nick i srv ≡ false
      → to_lower nick ≢ to_lower (at i srv).nick
      → IsRegistry srv
      → ¬ IsRegistry (handle_nick cfg i (nick ∷ params) srv)
  handle_nick_stale i nick params srv on good free other v w =
      let old = to_lower (at i srv).nick in
      let renamed = record (at i srv) { nick = nick } in
      let run = handle_nick-registered i nick params srv on good free in
      let there : lookup old (handle_nick cfg i (nick ∷ params) srv).sessions ≡ some i =
        ap (λ x. lookup old x.sessions) run ∙ (unfold store_session in v.listed i on) in
      let now : to_lower (at i (handle_nick cfg i (nick ∷ params) srv)).nick ≡ to_lower nick =
        ap (λ x. to_lower (at i x).nick) run
        ∙ ap (λ x. to_lower x.nick) (at-store_same i i renamed srv ((==_iff i i).1 refl)) in
      other (sym ((w.holds old i there).1 ∙ now))
