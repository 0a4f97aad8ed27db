-- ===== src/Sftp/Server/Cases.antt =====
-- The cases of the shared steps, for any predicate of how a case of the switch ends.
use go_protocols.Common.{ℕ, ◌≡◌, refl, Option, none, some, Bytes, Result, ok, err}
use go_protocols.Common.Text.{codes}
use go_protocols.Sftp.Constants.{status_failure, status_bad_message}
use go_protocols.Sftp.Packet.{Error}
use go_protocols.Sftp.Backend.{Failure, Op}
use go_protocols.Sftp.Server.{
  State, Next, goes, stops, map_err, error_text, send_status, resolve, field, on_result, on, found,
  resolving,
}

module _ {World : Type 0} (P : Next World → Type 0) (id : ℕ) where
  -- A field that cannot be read ends Serve; one that is read goes on.
  pub field_cases :
      {A : Type 0} (r : Result Error (A × ℕ)) (k : A → ℕ → State World → Next World)
      (s : State World)
      → ((e : Error) → P (stops (send_status id status_bad_message (error_text e) s)))
      → ((a : A) (off : ℕ) → r ≡ ok (a, off) → P (k a off s))
      → P (field id r k s)
  unfolding field
  field_cases (err e) k s bad good = bad e
  field_cases (ok (a, off)) k s bad good = good a off refl

  on_result_cases :
      {A : Type 0} (r : Result Failure A × World) (k : A → State World → Next World)
      (s : State World)
      → ((e : Failure) (w : World)
          → P (goes (send_status id (map_err e) e.text (record s { world = w }))))
      → ((a : A) (w : World) → P (k a (record s { world = w })))
      → P (on_result id r k s)
  unfolding on_result
  on_result_cases (err e, w) k s failed done = failed e w
  on_result_cases (ok a, w) k s failed done = done a w

  pub on_cases :
      {A : Type 0} (op : Op World A) (k : A → State World → Next World) (s : State World)
      → ((e : Failure) (w : World)
          → P (goes (send_status id (map_err e) e.text (record s { world = w }))))
      → ((a : A) (w : World) → P (k a (record s { world = w })))
      → P (on id op k s)
  unfolding on
  on_cases op k s failed done = on_result_cases (op s.world) k s failed done

  found_cases :
      (r : Option Bytes) (k : Bytes → State World → Next World) (s : State World)
      → (r ≡ none → P (goes (send_status id status_failure (codes "invalid handle") s)))
      → ((real : Bytes) → r ≡ some real → P (k real s))
      → P (found id r k s)
  unfolding found
  found_cases none k s missing known = missing refl
  found_cases (some real) k s missing known = known real refl

  pub resolving_cases :
      (h : Bytes) (k : Bytes → State World → Next World) (s : State World)
      → (resolve h s ≡ none → P (goes (send_status id status_failure (codes "invalid handle") s)))
      → ((real : Bytes) → resolve h s ≡ some real → P (k real s))
      → P (resolving id h k s)
  unfolding resolving
  resolving_cases h k s missing known = found_cases (resolve h s) k s missing known
