-- ===== src/Sftp/Serve/Ends.antt =====
-- Serve ends on every input.
use go_protocols.Common.{
  ℕ, zero, suc, ◌<◌, ◌≢◌, inl, inr, not, ◌==◌, if_cases, Bytes, length, Result, ok, err,
  Result-cases, arith,
}
use go_protocols.Sftp.Constants.{type_init}
use go_protocols.Sftp.Packet.{
  Packet, Error, read_packet, eof, unexpected_eof, unreasonable_length, zero_length, short_string,
  short_uint32, short_uint64,
}
use go_protocols.Sftp.Packet.Shorter.{read_packet-shorter}
use go_protocols.Sftp.Init.{version, read_init}
use go_protocols.Sftp.Backend.{Backend}
use go_protocols.Sftp.Server.{State, Next, goes, stops, panics}
use go_protocols.Sftp.Serve.{
  Ended, out_of_fuel, ended_by, step, turn, after, loop, first_state, begin, greeted, serve,
}

ended_by-ends : (e : Error) → ended_by e ≢ out_of_fuel
unfolding ended_by
ended_by-ends eof h = cc
ended_by-ends unexpected_eof h = cc
ended_by-ends unreasonable_length h = cc
ended_by-ends zero_length h = cc
ended_by-ends short_string h = cc
ended_by-ends short_uint32 h = cc
ended_by-ends short_uint64 h = cc

module _ {World : Type 0} (b : Backend World) where
  abbrev Ends : Ended × State World → Type 0
  Ends r = r.0 ≢ out_of_fuel

  turn-Ends :
      (again : State World → Ended × State World) (n : Next World)
      → ((s : State World) → Ends (again s))
      → Ends (turn b again n)
  unfolding turn
  turn-Ends again (goes s) h = h s
  turn-Ends again (stops s) h = λ e. cc
  turn-Ends again (panics s) h = λ e. cc

  loop-Ends : (f : ℕ) (input : Bytes) (s : State World) → length input < f → Ends (loop b f input s)
  unfolding loop after
  loop-Ends zero input s h = absurd (omega arith)
  loop-Ends (suc f) input s h = elim (Result-cases (read_packet input)) [
    | inr (e, failed) ↦ rw failed (ended_by-ends e)
    | inl ((p, rest), k) ↦ rw k (
        turn-Ends (loop b f rest) (step b p s)
          λ t. loop-Ends f rest t (omega (arith, read_packet-shorter input p rest k)))
  ]

  begin-Ends : (p : Packet) (input : Bytes) (s : State World) → Ends (begin b p input s)
  unfolding begin
  begin-Ends p input s =
      if_cases Ends (not (p.type == type_init)) _ _ (λ h e. cc)
        λ h. elim (Result-cases (read_init p)) [
          | inr (e, failed) ↦ rw failed (λ k. cc)
          | inl (v, k) ↦ rw k (
              if_cases Ends (not (v == version)) _ _ (λ h' e. cc)
                λ h'. loop-Ends (suc (length input)) input _ (omega arith))
        ]

  greeted-Ends : (r : Result Error (Packet × Bytes)) (s : State World) → Ends (greeted b r s)
  unfolding greeted
  greeted-Ends (err e) s = λ h. cc
  greeted-Ends (ok (p, input)) s = begin-Ends p input s

  -- Serve ends on every input: its loop never runs out of rounds.
  pub serve-ends : (input : Bytes) (w : World) → (serve b input w).0 ≢ out_of_fuel
  unfolding serve
  serve-ends input w = greeted-Ends (read_packet input) (first_state b w)
