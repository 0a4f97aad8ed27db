-- ===== src/Ftp/Handlers/Restart.antt =====
-- The restart offset under RETR, and the pending name under RNTO.
use go_protocols.Common.{ℕ, ◌≡◌, refl, ◌⊎◌, inl, inr, [], ◌∷◌, ◌++◌, if_cases, Bytes}
use go_protocols.Common.Text.{codes}
use go_protocols.Ftp.Reply.{new_reply}
use go_protocols.Ftp.Backend.{Op, Env}
use go_protocols.Ftp.State.{State, is_empty, send, with_world}
use go_protocols.Ftp.State.Cases.{on_cases, with_data_cases}
use go_protocols.Ftp.Handlers.{finish, handle_retr, handle_rnto}

module _ {World : Type 0} where
  -- The same restart offset.
  pub record SameRest (s t : State World) : Type 0 where
    pub same : t.rest ≡ s.rest

  -- The rename is done and its name forgotten, or it is refused and the name kept.
  pub record IsRename (s t : State World) : Type 0 where
    pub renamed :
        ((t.rename_to ≡ []) × (t.sent ≡ s.sent ++ new_reply 250 (codes "Rename ok") ∷ []))
        ⊎ ((t.rename_to ≡ s.rename_to)
            × (code : ℕ) × (text : Bytes) × ((code ≡ 500) ⊎ (code ≡ 550))
            × (t.sent ≡ s.sent ++ new_reply code text ∷ []))

module _ {World : Type 0} (env : Env World) where
  world-SameRest : (s t : State World) (w : World) → SameRest s t → SameRest s (with_world w t)
  unfolding with_world
  world-SameRest s t w h = record { same = h.same }

  finish-SameRest :
      (failure : ℕ) (op : Op World (Unit {0})) (s t : State World)
      → t.rest ≡ s.rest
      → SameRest s (finish env failure op t)
  unfolding finish send
  finish-SameRest failure op s t e =
      on_cases (SameRest s) op failure _ t (λ m w. record { same = e }) (λ a w. record { same = e })

  -- RETR leaves the restart offset as it is on every branch, so the next RETR starts there again.
  pub handle_retr-SameRest : (arg : Bytes) (s : State World) → SameRest s (handle_retr env arg s)
  unfolding handle_retr send
  handle_retr-SameRest arg s =
      on_cases (SameRest s) _ 550 _ s (λ e w. record { same = refl })
        λ target w.
          with_data_cases (SameRest s) env _ _ (λ e w p. record { same = refl })
            (λ conn w w' p. world-SameRest s _ w' (finish-SameRest _ _ s _ refl))

  -- RNTO answers 250 and forgets the name that RNFR left, or answers 500 or 550 and keeps it.
  pub handle_rnto-IsRename : (arg : Bytes) (s : State World) → IsRename s (handle_rnto env arg s)
  unfolding handle_rnto send
  handle_rnto-IsRename arg s =
      if_cases (IsRename s) (is_empty s.rename_to) _ _
        (λ e. record { renamed = inr (refl, 500, codes "Bad sequence", inl refl, refl) })
        λ e.
          on_cases (IsRename s) _ 550 _ s
            (λ m w. record { renamed = inr (refl, 550, m, inr refl, refl) })
            λ target w.
              on_cases (IsRename s) _ 550 _ _
                (λ m w. record { renamed = inr (refl, 550, m, inr refl, refl) })
                λ a w. record { renamed = inl (refl, refl) }
