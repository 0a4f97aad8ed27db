-- ===== src/Sftp/Serve/Table.antt =====
-- The requests keep the table of handles valid.
use go_protocols.Common.{
  ℕ, ◌+◌, ◌^◌, ◌<◌, ◌≡◌, refl, List, [], ◌∷◌, some, ltb, if_cases, Bytes, ◌∙◌, length, drop, Result,
  ok, err, arith,
}
use go_protocols.Common.Maps.{lookup}
use go_protocols.Common.Decimal.{ℤ}
use go_protocols.Sftp.Packet.{Packet, Error, read_string}
use go_protocols.Sftp.Backend.{Failure, FileStat, Backend, Op}
use go_protocols.Sftp.Server.{
  State, or_false, Next, goes, stops, panics, write, send_status, send_attrs, send_handle,
  new_handle, is_drained, forget, field, on, resolve, resolving, done,
}
use go_protocols.Sftp.Server.Cases.{field_cases, on_cases, resolving_cases}
use go_protocols.Sftp.Server.Handles.{
  IsValid, Same, Keeps, Same-Keeps, resolve-Same, new_handle-Keeps, mark_drained-Keeps,
  forget-Keeps,
}
use go_protocols.Sftp.Handlers.{
  in_buffer, grant, give_handle, read_result, handle_open, closed, handle_close, handle_read,
  handle_write, sent_attrs, handle_stat, handle_lstat, handle_opendir, sent_names, listing,
  handle_readdir, handle_mkdir, handle_rmdir, handle_remove, handle_rename,
}
use go_protocols.Sftp.Serve.{
  Request, req_open, req_close, req_read, req_write, req_stat, req_lstat, req_opendir, req_readdir,
  req_mkdir, req_rmdir, req_remove, req_rename, req_other, request_of, id_of, handle, step, turn,
  Ended, first_state,
}
use go_protocols.Sftp.Serve.Stream.{run}

module _ {World : Type 0} where
  -- The state that a case leaves.
  abbrev pub left : Next World → State World
  left (goes s) = s
  left (stops s) = s
  left (panics s) = s

  Same-IsValid : (s t : State World) → IsValid s → Same s t → IsValid t
  Same-IsValid s t v e = let k = Same-Keeps s t v e in k.valid

  Keeps-trans : (s t u : State World) → Keeps s t → Same t u → Keeps s u
  Keeps-trans s t u k e = record {
    valid = Same-IsValid t u k.valid e;
    grows = let q = e.next_id in let g = k.grows in omega arith;
  }

  Keeps-after : (s t u : State World) → Same s t → Keeps t u → Keeps s u
  Keeps-after s t u e k = record {
    valid = k.valid;
    grows = let q = e.next_id in let g = k.grows in omega arith;
  }

  write-Same : (type : ℕ) (payload : Bytes) (t : State World) → Same t (write type payload t)
  unfolding write
  write-Same type payload t = record { handles = refl; drained = refl; next_id = refl }

  world-Same : (w : World) (s : State World) → Same s (record s { world = w })
  world-Same w s = record { handles = refl; drained = refl; next_id = refl }

  send_status-Same :
      (id code : ℕ) (msg : Bytes) (t : State World) → Same t (send_status id code msg t)
  unfolding send_status
  send_status-Same id code msg t = write-Same _ _ t

  Same-refl : (s : State World) → Same s s
  Same-refl s = record { handles = refl; drained = refl; next_id = refl }

  then-Same : (s t u : State World) → Same s t → Same t u → Same s u
  then-Same s t u a b = record {
    handles = b.handles ∙ a.handles;
    drained = b.drained ∙ a.drained;
    next_id = b.next_id ∙ a.next_id;
  }

module _ {World : Type 0} (id : ℕ) (s : State World) (v : IsValid s) where
  abbrev Kept : Next World → Type 0
  Kept n = Keeps s (left n)

  status-Kept :
      (code : ℕ) (msg : Bytes) (t : State World)
      → Same s t
      → Kept (goes (send_status id code msg t))
  status-Kept code msg t e = Same-Keeps s _ v (then-Same s t _ e (send_status-Same id code msg t))

  field-Kept :
      {A : Type 0} (r : Result Error (A × ℕ)) (k : A → ℕ → State World → Next World)
      → ((a : A) (off : ℕ) → Kept (k a off s))
      → Kept (field id r k s)
  field-Kept r k good =
      field_cases Kept id r k s (λ e. Same-Keeps s _ v (send_status-Same id _ _ s))
        (λ a off e. good a off)

  on-Kept :
      {A : Type 0} (op : Op World A) (k : A → State World → Next World) (t : State World)
      → Same s t
      → ((a : A) (u : State World) → Same s u → Kept (k a u))
      → Kept (on id op k t)
  on-Kept op k t e good =
      on_cases Kept id op k t (λ m w. status-Kept _ _ _ (then-Same s t _ e (world-Same w t)))
        (λ a w. good a _ (then-Same s t _ e (world-Same w t)))

  resolving-Kept :
      (h : Bytes) (k : Bytes → State World → Next World)
      → ((real : Bytes) → resolve h s ≡ some real → Kept (k real s))
      → Kept (resolving id h k s)
  resolving-Kept h k good =
      resolving_cases Kept id h k s (λ e. Same-Keeps s _ v (send_status-Same id _ _ s)) good

  done-Kept : {A : Type 0} (a : A) (t : State World) → Same s t → Kept (done id a t)
  unfolding done
  done-Kept a t e = status-Kept _ _ t e

  attrs-Kept : (st : FileStat) (t : State World) → Same s t → Kept (sent_attrs id st t)
  unfolding sent_attrs send_attrs
  attrs-Kept st t e = Same-Keeps s _ v (then-Same s t _ e (write-Same _ _ t))

  read-Kept : (size : ℕ) (r : Result Failure (ℤ × Bytes) × World) → Kept (read_result id size r s)
  unfolding read_result
  read-Kept size (err e, w) =
      if_cases (Keeps s) e.is_eof _ _ (λ h. status-Kept _ _ _ (world-Same w s))
        (λ h. status-Kept _ _ _ (world-Same w s))
  read-Kept size (ok (n, buf), w) =
      if_cases Kept (in_buffer size n) _ _
        (λ h. Same-Keeps s _ v (then-Same s _ _ (world-Same w s) (write-Same _ _ _)))
        (λ h. Same-Keeps s _ v (world-Same w s))

  closed-Kept : (h : Bytes) (w : World) → Kept (done id tt (forget h (record s { world = w })))
  unfolding done
  closed-Kept h w =
      let t = record s { world = w } in
      let k = forget-Keeps t (Same-IsValid s t v (world-Same w s)) h in
      Keeps-after s t _ (world-Same w s)
        (Keeps-trans t _ _ k (send_status-Same id _ _ (forget h t)))

  names-Kept :
      (h real : Bytes) (es : List FileStat) (t : State World)
      → resolve h s ≡ some real
      → Same s t
      → Kept (sent_names id h es t)
  unfolding sent_names
  names-Kept h real es t o e =
      let u = write _ _ t in
      let same = then-Same s t u e (write-Same _ _ t) in
      Keeps-after s u _ same
        (mark_drained-Keeps u (Same-IsValid s u v same) h real (resolve-Same s u h same ∙ o))

  module _ (room : s.next_id + 1 < 2 ^ 32) where
    give_handle-Kept : (real : Bytes) (t : State World) → Same s t → Kept (give_handle id real t)
    unfolding give_handle grant send_handle
    give_handle-Kept real t e = Keeps-after s t _ e (
        Keeps-trans t (new_handle real t).1 _
          (new_handle-Keeps t (Same-IsValid s t v e) real (let q = e.next_id in omega arith))
          (write-Same _ _ _))

    module _ (b : Backend World) (rest : Bytes) where
      handle_open-Kept : Kept (handle_open b id rest s)
      unfolding handle_open
      handle_open-Kept = field-Kept _ _ λ path off.
          field-Kept _ _
            λ flags off'. on-Kept _ _ s (Same-refl s) λ real t e. give_handle-Kept real t e

      handle_close-Kept : Kept (handle_close b id rest s)
      unfolding handle_close closed
      handle_close-Kept = field-Kept _ _ λ h off. resolving-Kept h _ λ real e. closed-Kept h _

      handle_read-Kept : Kept (handle_read b id rest s)
      unfolding handle_read
      handle_read-Kept = field-Kept _ _ λ h off.
          field-Kept _ _
            λ offset off'. field-Kept _ _ λ size off''. resolving-Kept h _ λ real e. read-Kept _ _

      handle_write-Kept : Kept (handle_write b id rest s)
      unfolding handle_write
      handle_write-Kept = field-Kept _ _ λ h off. field-Kept _ _ λ offset off'.
          field-Kept _ _
            λ bytes off''. resolving-Kept h _ λ real e. on-Kept _ _ s (Same-refl s) done-Kept

      stat-Kept :
          (op : Bytes → Op World FileStat)
          → Kept (field id (read_string rest 0) (λ path _. on id (op path) (sent_attrs id)) s)
      stat-Kept op = field-Kept _ _ λ path off. on-Kept _ _ s (Same-refl s) attrs-Kept

      handle_opendir-Kept : Kept (handle_opendir b id rest s)
      unfolding handle_opendir
      handle_opendir-Kept =
          field-Kept _ _ λ path off. on-Kept _ _ s (Same-refl s) λ es t e. give_handle-Kept _ t e

      listing-Kept : (h real : Bytes) → resolve h s ≡ some real → Kept (listing b id rest h real s)
      unfolding listing
      listing-Kept h real o =
          if_cases Kept (ltb (length real) 4) _ _ (λ short. Same-Keeps s s v (Same-refl s))
            (λ long. on-Kept _ _ s (Same-refl s) λ es t e. names-Kept h real es t o e)

      handle_readdir-Kept : Kept (handle_readdir b id rest s)
      unfolding handle_readdir
      handle_readdir-Kept = field-Kept _ _ λ h off.
          if_cases Kept (is_drained h s) _ _ (λ e. Same-Keeps s _ v (send_status-Same id _ _ s))
            (λ e. resolving-Kept h _ (listing-Kept h))

      call-Kept :
          {A : Type 0} (op : Bytes → Op World A)
          → Kept (field id (read_string rest 0) (λ path _. on id (op path) (done id)) s)
      call-Kept op = field-Kept _ _ λ path off. on-Kept _ _ s (Same-refl s) done-Kept

      handle_rename-Kept : Kept (handle_rename b id rest s)
      unfolding handle_rename
      handle_rename-Kept =
          field-Kept _ _ λ from off. field-Kept _ _ λ to off'. on-Kept _ _ s (Same-refl s) done-Kept

      handle-Kept : (q : Request) → Kept (handle b q id rest s)
      unfolding handle handle_stat handle_lstat handle_mkdir handle_rmdir handle_remove
      handle-Kept req_open = handle_open-Kept
      handle-Kept req_close = handle_close-Kept
      handle-Kept req_read = handle_read-Kept
      handle-Kept req_write = handle_write-Kept
      handle-Kept req_stat = stat-Kept b.stat
      handle-Kept req_lstat = stat-Kept b.lstat
      handle-Kept req_opendir = handle_opendir-Kept
      handle-Kept req_readdir = handle_readdir-Kept
      handle-Kept req_mkdir = call-Kept b.mkdir
      handle-Kept req_rmdir = call-Kept b.rmdir
      handle-Kept req_remove = call-Kept b.remove
      handle-Kept req_rename = handle_rename-Kept
      handle-Kept req_other = status-Kept _ _ s (Same-refl s)

module _ {World : Type 0} (b : Backend World) where
  pub first_state-IsValid : (w : World) → IsValid (first_state b w)
  unfolding first_state resolve is_drained lookup or_false
  first_state-IsValid w = record { named = λ h real e. absurd (cc); opened = λ h e. absurd (cc) }

  step-Keeps :
      (p : Packet) (s : State World)
      → IsValid s
      → s.next_id + 1 < 2 ^ 32
      → Keeps s (left (step b p s))
  unfolding step
  step-Keeps p s v room =
      if_cases (λ n. Keeps s (left n)) (ltb (length p.payload) 4) _ _
        (λ short. Same-Keeps s s v (Same-refl s))
        (λ long. handle-Kept (id_of p) s v room b (drop 4 p.payload) (request_of p.type))

  turn-IsValid :
      (again : State World → Ended × State World) (n : Next World)
      → IsValid (left n)
      → (IsValid (left n) → IsValid (again (left n)).1)
      → IsValid (turn b again n).1
  unfolding turn
  turn-IsValid again (goes t) v k = k v
  turn-IsValid again (stops t) v k = v
  turn-IsValid again (panics t) v k = v

  -- Over any requests, fewer than the numbers that are left below 2^32, every open handle has a
  -- number that was given out and only open handles are marked as drained, if that held before.
  pub run-IsValid :
      (ps : List Packet) (s : State World)
      → IsValid s
      → s.next_id + length ps < 2 ^ 32
      → IsValid (run b ps s).1
  unfolding run
  run-IsValid [] s v room = v
  run-IsValid (p ∷ ps) s v room =
      let k = step-Keeps p s v (omega arith) in
      let g = k.grows in
      turn-IsValid (run b ps) (step b p s) k.valid λ v'. run-IsValid ps _ v' (omega arith)
