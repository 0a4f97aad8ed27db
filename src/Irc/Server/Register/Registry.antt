-- ===== src/Irc/Server/Register/Registry.antt =====
-- The registry and the states of the sessions.
use go_protocols.Common.{
  ℕ, ◌≡◌, ◌≢◌, refl, sym, ap, ◌∙◌, inl, inr, true, false, none, some, ◌==◌, ==_iff, if◌then◌else◌,
  Bool-cases, Bytes, equal, equal_iff, arith,
}
use go_protocols.Common.Text.{to_lower}
use go_protocols.Common.Maps.{bytes_key, nat_key, lookup, insert, lookup-insert}
use go_protocols.Irc.Server.State.{state_registered, Server, Session, at, store_session}
use go_protocols.Irc.Server.Tables.{tables}

-- A session stands in the registry under a key exactly when it is registered and the key is its nick
-- in lower case.
pub record IsRegistry (srv : Server) : Type 0 where
  pub holds :
      (key : Bytes) (i : ℕ)
      → lookup key srv.sessions ≡ some i
      → ((at i srv).state ≡ state_registered) × (key ≡ to_lower (at i srv).nick)
  pub listed :
      (i : ℕ)
      → (at i srv).state ≡ state_registered
      → lookup (to_lower (at i srv).nick) srv.sessions ≡ some i

pub at-tables : (i : ℕ) (s t : Server) → tables s ≡ tables t → at i s ≡ at i t
unfolding tables at
at-tables i s t h = ap (λ x. at i x) h

sessions-tables : (s t : Server) → tables s ≡ tables t → s.sessions ≡ t.sessions
unfolding tables
sessions-tables s t h = ap (λ x. x.sessions) h

pub quiet-IsRegistry : (s t : Server) → tables s ≡ tables t → IsRegistry t → IsRegistry s
quiet-IsRegistry s t h v = record {
  holds = λ key i e.
      let same = at-tables i s t h in
      let (on, name) = v.holds key i (sym (ap (lookup key) (sessions-tables s t h)) ∙ e) in
      (ap (λ x. x.state) same ∙ on, name ∙ sym (ap (λ x. to_lower x.nick) same));
  listed = λ i e.
      let same = at-tables i s t h in
      let there = v.listed i (sym (ap (λ x. x.state) same) ∙ e) in
      ap (λ x. lookup (to_lower x.nick) s.sessions) same
      ∙ ap (lookup (to_lower (at i t).nick)) (sessions-tables s t h)
      ∙ there;
}

at-store_session :
    (i j : ℕ) (s : Session) (srv : Server)
    → at j (store_session i s srv) ≡ (if i == j then s else at j srv)
unfolding at store_session
at-store_session i j s srv = elim (Bool-cases (i == j)) [
  | inl e ↦ rw (lookup-insert i j s srv.store, e)
  | inr e ↦ rw (lookup-insert i j s srv.store, e)
]

pub at-store_same :
    (i j : ℕ) (s : Session) (srv : Server) → (i == j) ≡ true → at j (store_session i s srv) ≡ s
at-store_same i j s srv e = at-store_session i j s srv ∙ rw e

pub at-store_other :
    (i j : ℕ) (s : Session) (srv : Server)
    → (i == j) ≡ false
    → at j (store_session i s srv) ≡ at j srv
at-store_other i j s srv e = at-store_session i j s srv ∙ rw e

-- A change of a session that is not registered, before and after it.
pub store-IsRegistry :
    (i : ℕ) (s : Session) (srv : Server)
    → (at i srv).state ≢ state_registered
    → s.state ≢ state_registered
    → IsRegistry srv
    → IsRegistry (store_session i s srv)
unfolding store_session
store-IsRegistry i s srv before after v = record {
  holds = λ key j e. elim (Bool-cases (i == j)) [
    | inl same ↦
        absurd (before (ap (λ k. (at k srv).state) ((==_iff i j).0 same) ∙ (v.holds key j e).0))
    | inr no_one ↦
        let eq = at-store_other i j s srv no_one in
        let (on, name) = v.holds key j e in
        (ap (λ x. x.state) eq ∙ on, name ∙ sym (ap (λ x. to_lower x.nick) eq))
  ];
  listed = λ j e. elim (Bool-cases (i == j)) [
    | inl same ↦ absurd (after (sym (ap (λ x. x.state) (at-store_same i j s srv same)) ∙ e))
    | inr no_one ↦
        let eq = at-store_other i j s srv no_one in
        ap (λ x. lookup (to_lower x.nick) srv.sessions) eq
        ∙ v.listed j (sym (ap (λ x. x.state) eq) ∙ e)
  ];
}

-- A session that is not registered enters the registry under its nick, and is registered.
pub enter-IsRegistry :
    (i : ℕ) (s : Session) (srv : Server)
    → lookup (to_lower s.nick) srv.sessions ≡ none
    → (at i srv).state ≢ state_registered
    → s.state ≡ state_registered
    → IsRegistry srv
    → IsRegistry
        (store_session i s (record srv { sessions = insert (to_lower s.nick) i srv.sessions }))
unfolding store_session
enter-IsRegistry i s srv free before on v =
    let k = to_lower s.nick in
    let next = record srv { sessions = insert k i srv.sessions } in
    let other : (j : ℕ) → (i == j) ≡ false → at j (store_session i s next) ≡ at j srv =
      λ j e. at-store_other i j s next e ∙ (unfold at in refl) in
    record {
      holds = λ key j e. elim (Bool-cases (i == j)) [
        | inl same ↦
            let eq = at-store_same i j s next same in
            let q = lookup-insert k key i srv.sessions in
            (
              ap (λ x. x.state) eq ∙ on,
              elim (Bool-cases (equal k key)) [
                | inl own ↦ sym ((equal_iff k key).0 own) ∙ sym (ap (λ x. to_lower x.nick) eq)
                | inr no_own ↦
                    let was : lookup key srv.sessions ≡ some j = ground arith in
                    absurd (
                      before
                        (ap (λ m. (at m srv).state) ((==_iff i j).0 same) ∙ (v.holds key j was).0))
              ],
            )
        | inr no_one ↦
            let eq = other j no_one in
            let q = lookup-insert k key i srv.sessions in
            let (was, name) = v.holds key j (ground (arith, ==_iff i j)) in
            (ap (λ x. x.state) eq ∙ was, name ∙ sym (ap (λ x. to_lower x.nick) eq))
      ];
      listed = λ j e. elim (Bool-cases (i == j)) [
        | inl same ↦
            let eq = at-store_same i j s next same in
            let q = lookup-insert k k i srv.sessions in
            ap (λ x. lookup (to_lower x.nick) next.sessions) eq
            ∙ ground (arith, ==_iff i j, equal_iff k k)
        | inr no_one ↦
            let eq = other j no_one in
            let there = v.listed j (sym (ap (λ x. x.state) eq) ∙ e) in
            let j_key = to_lower (at j srv).nick in
            let q = lookup-insert k j_key i srv.sessions in
            ap (λ x. lookup (to_lower x.nick) next.sessions) eq ∙ ground (arith, equal_iff k j_key)
      ];
    }
