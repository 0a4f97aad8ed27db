-- ===== src/Ftp/Handlers/Answers.antt =====
-- The replies of a transfer, by their codes.
use go_protocols.Common.{
  ℕ, ◌≡◌, refl, ap, ◌∙◌, ◌⊎◌, inl, inr, List, [], ◌∷◌, ◌++◌, if_cases, append_assoc, Bytes,
}
use go_protocols.Common.Text.{codes}
use go_protocols.Ftp.Reply.{Reply, new_reply}
use go_protocols.Ftp.Backend.{Op, Env}
use go_protocols.Ftp.State.{State, is_empty, send, with_world}
use go_protocols.Ftp.State.Cases.{on_cases, with_data_cases}
use go_protocols.Ftp.Handlers.{
  send_entries, list_target, handle_list, finish, handle_retr, handle_stor, handle_appe,
}

pub sent_codes : List Reply → List ℕ
sent_codes [] = []
sent_codes (r ∷ rs) = r.code ∷ sent_codes rs

sent_codes-append : (rs qs : List Reply) → sent_codes (rs ++ qs) ≡ sent_codes rs ++ sent_codes qs
unfolding sent_codes
sent_codes-append [] qs = refl
sent_codes-append (r ∷ rs) qs = ap (◌∷◌ r.code) (sent_codes-append rs qs)

-- A transfer fails before it begins, or its reply 150 has exactly one other reply behind it.
abbrev pub IsTransfer : ℕ → List ℕ → Type 0
IsTransfer failure cs =
    (cs ≡ 550 ∷ []) ⊎ ((cs ≡ 425 ∷ []) ⊎ ((cs ≡ 150 ∷ 226 ∷ []) ⊎ (cs ≡ 150 ∷ failure ∷ [])))

module _ {World : Type 0} where
  -- From s to t these codes were sent.
  pub record Answers (failure : ℕ) (s t : State World) : Type 0 where
    pub answer : List ℕ
    pub kind : IsTransfer failure answer
    pub sends : sent_codes t.sent ≡ sent_codes s.sent ++ answer

module _ {World : Type 0} (env : Env World) (failure : ℕ) where
  one_reply :
      (code : ℕ) (text : Bytes) (s t : State World)
      → IsTransfer failure (code ∷ [])
      → t.sent ≡ s.sent
      → Answers failure s (send code text t)
  unfolding send sent_codes
  one_reply code text s t k e = record {
    answer = code ∷ [];
    kind = k;
    sends = rw e (sent_codes-append s.sent (new_reply code text ∷ []));
  }

  second_reply :
      (first : Bytes) (code : ℕ) (text : Bytes) (s t : State World)
      → IsTransfer failure (150 ∷ code ∷ [])
      → t.sent ≡ s.sent ++ new_reply 150 first ∷ []
      → Answers failure s (send code text t)
  unfolding send sent_codes
  second_reply first code text s t k e = record {
    answer = 150 ∷ code ∷ [];
    kind = k;
    sends = rw e (
        sent_codes-append (s.sent ++ new_reply 150 first ∷ []) (new_reply code text ∷ [])
        ∙ rw (sent_codes-append s.sent (new_reply 150 first ∷ []))
            (append_assoc (sent_codes s.sent) (150 ∷ []) (code ∷ [])));
  }

  world-Answers :
      (s t : State World) (w : World) → Answers failure s t → Answers failure s (with_world w t)
  unfolding with_world
  world-Answers s t w h = record { answer = h.answer; kind = h.kind; sends = h.sends }

  opened-sends :
      (first : Bytes) (s u : State World)
      → u.sent ≡ s.sent
      → (send 150 first u).sent ≡ s.sent ++ new_reply 150 first ∷ []
  unfolding send
  opened-sends first s u q = rw q

  finish-Answers :
      (first : Bytes) (op : Op World (Unit {0})) (s u : State World)
      → u.sent ≡ s.sent
      → Answers failure s (finish env failure op (send 150 first u))
  unfolding finish
  finish-Answers first op s u q =
      on_cases (Answers failure s) op failure _ (send 150 first u)
        (λ m w. second_reply first failure m s _ (inr (inr (inr refl))) (opened-sends first s u q))
        (λ a w. second_reply first 226 _ s _ (inr (inr (inl refl))) (opened-sends first s u q))

  list_target-Answers :
      (target : Bytes) (s t : State World)
      → t.sent ≡ s.sent
      → Answers failure s (list_target env target t)
  unfolding list_target send_entries
  list_target-Answers target s t q =
      on_cases (Answers failure s) _ 550 _ t (λ e w. one_reply 550 e s _ (inl refl) q)
        λ entries w.
          with_data_cases (Answers failure s) env _ _
            (λ e w p. one_reply 425 e s _ (inr (inl refl)) q)
            (λ conn w w' p. world-Answers s _ w' (
              second_reply (codes "Opening data connection") 226 _ s _ (inr (inr (inl refl))) (
                opened-sends (codes "Opening data connection") s
                  (record t { world = w; passive = p }) q)))

module _ {World : Type 0} (env : Env World) where
  -- RETR sends one reply: 550 without a path or 425 without a data connection. Otherwise it sends
  -- 150 and then 226, or 426 when the file cannot be sent.
  pub handle_retr-Answers : (arg : Bytes) (s : State World) → Answers 426 s (handle_retr env arg s)
  unfolding handle_retr
  handle_retr-Answers arg s =
      on_cases (Answers 426 s) _ 550 _ s (λ e w. one_reply env 426 550 e s _ (inl refl) refl)
        λ target w.
          with_data_cases (Answers 426 s) env _ _
            (λ e w p. one_reply env 426 425 e s _ (inr (inl refl)) refl)
            (λ conn w w' p.
              world-Answers env 426 s _ w'
                (finish-Answers env 426 (codes "Opening data connection") _ s _ refl))

  -- STOR sends one reply: 550 without a path or 425 without a data connection. Otherwise it sends
  -- 150 and then 226, or 552 when the file cannot be stored.
  pub handle_stor-Answers : (arg : Bytes) (s : State World) → Answers 552 s (handle_stor env arg s)
  unfolding handle_stor
  handle_stor-Answers arg s =
      on_cases (Answers 552 s) _ 550 _ s (λ e w. one_reply env 552 550 e s _ (inl refl) refl)
        λ target w.
          with_data_cases (Answers 552 s) env _ _
            (λ e w p. one_reply env 552 425 e s _ (inr (inl refl)) refl)
            (λ conn w w' p.
              world-Answers env 552 s _ w'
                (finish-Answers env 552 (codes "Opening data connection") _ s _ refl))

  -- APPE answers as STOR does.
  pub handle_appe-Answers : (arg : Bytes) (s : State World) → Answers 552 s (handle_appe env arg s)
  unfolding handle_appe
  handle_appe-Answers arg s =
      on_cases (Answers 552 s) _ 550 _ s (λ e w. one_reply env 552 550 e s _ (inl refl) refl)
        λ target w.
          with_data_cases (Answers 552 s) env _ _
            (λ e w p. one_reply env 552 425 e s _ (inr (inl refl)) refl)
            (λ conn w w' p.
              world-Answers env 552 s _ w'
                (finish-Answers env 552 (codes "Opening data connection") _ s _ refl))

  -- LIST sends one reply: 550 without a path or a directory, or 425 without a data connection.
  -- Otherwise it sends 150 and then 226.
  pub handle_list-Answers : (arg : Bytes) (s : State World) → Answers 226 s (handle_list env arg s)
  unfolding handle_list
  handle_list-Answers arg s =
      if_cases (Answers 226 s) (is_empty arg) _ _ (λ e. list_target-Answers env 226 s.cwd s s refl)
        λ e.
          on_cases (Answers 226 s) _ 550 _ s (λ m w. one_reply env 226 550 m s _ (inl refl) refl)
            λ target w. list_target-Answers env 226 target s _ refl
