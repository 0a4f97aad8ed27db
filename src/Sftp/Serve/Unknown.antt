-- ===== src/Sftp/Serve/Unknown.antt =====
-- Requests for a handle that is not open.
use go_protocols.Common.{ℕ, ◌≡◌, refl, Bool, true, false, none, if_cases, Bytes, ok, Result}
use go_protocols.Sftp.Packet.{Error, read_string}
use go_protocols.Sftp.Backend.{Backend}
use go_protocols.Sftp.Server.{
  State, Next, write, send_status, is_drained, field, resolve, resolving,
}
use go_protocols.Sftp.Server.Cases.{field_cases, resolving_cases}
use go_protocols.Sftp.Handlers.{handle_close, handle_read, handle_write, handle_readdir}
use go_protocols.Sftp.Serve.{
  Request, req_open, req_close, req_read, req_write, req_stat, req_lstat, req_opendir, req_readdir,
  req_mkdir, req_rmdir, req_remove, req_rename, req_other, handle,
}
use go_protocols.Sftp.Serve.Table.{left}

-- The requests that begin with a handle.
unfoldable pub by_handle : Request → Bool
by_handle req_close = true
by_handle req_read = true
by_handle req_write = true
by_handle req_readdir = true
by_handle _ = false

module _ {World : Type 0} where
  -- The world and the open handles are the same.
  pub record Untouched (s t : State World) : Type 0 where
    pub world : t.world ≡ s.world
    pub handles : t.handles ≡ s.handles

module _ {World : Type 0} (b : Backend World) (id : ℕ) (rest : Bytes) (s : State World)
    (unknown : (h : Bytes) (off : ℕ) → read_string rest 0 ≡ ok (h, off) → resolve h s ≡ none) where
  abbrev Spared : Next World → Type 0
  Spared n = Untouched s (left n)

  status-Untouched : (code : ℕ) (msg : Bytes) → Untouched s (send_status id code msg s)
  unfolding send_status write
  status-Untouched code msg = record { world = refl; handles = refl }

  field-Spared :
      {A : Type 0} (r : Result Error (A × ℕ)) (k : A → ℕ → State World → Next World)
      → ((a : A) (off : ℕ) → r ≡ ok (a, off) → Spared (k a off s))
      → Spared (field id r k s)
  field-Spared r k good = field_cases Spared id r k s (λ e. status-Untouched _ _) good

  resolving-Spared :
      (h : Bytes) (off : ℕ) (k : Bytes → State World → Next World)
      → read_string rest 0 ≡ ok (h, off)
      → Spared (resolving id h k s)
  resolving-Spared h off k e =
      resolving_cases Spared id h k s (λ m. status-Untouched _ _)
        λ real known. let none_ = unknown h off e in absurd (cc)

  handle-Untouched_lem : (q : Request) → by_handle q ≡ true → Spared (handle b q id rest s)
  unfolding handle handle_close handle_read handle_write handle_readdir by_handle
  handle-Untouched_lem req_close e = field-Spared _ _ λ h off k. resolving-Spared h off _ k
  handle-Untouched_lem req_read e = field-Spared _ _ λ h off k.
      field-Spared _ _
        λ offset off' k'. field-Spared _ _ λ size off'' k''. resolving-Spared h off _ k
  handle-Untouched_lem req_write e = field-Spared _ _ λ h off k.
      field-Spared _ _
        λ offset off' k'. field-Spared _ _ λ bytes off'' k''. resolving-Spared h off _ k
  handle-Untouched_lem req_readdir e = field-Spared _ _ λ h off k.
      if_cases Spared (is_drained h s) _ _ (λ m. status-Untouched _ _)
        (λ m. resolving-Spared h off _ k)
  handle-Untouched_lem req_open e = absurd (cc)
  handle-Untouched_lem req_stat e = absurd (cc)
  handle-Untouched_lem req_lstat e = absurd (cc)
  handle-Untouched_lem req_opendir e = absurd (cc)
  handle-Untouched_lem req_mkdir e = absurd (cc)
  handle-Untouched_lem req_rmdir e = absurd (cc)
  handle-Untouched_lem req_remove e = absurd (cc)
  handle-Untouched_lem req_rename e = absurd (cc)
  handle-Untouched_lem req_other e = absurd (cc)

-- A CLOSE, READ, WRITE or READDIR whose handle is not open leaves the filesystem and the open
-- handles as they are.
pub handle-Untouched :
    {World : Type 0} (b : Backend World) (q : Request) (id : ℕ) (rest : Bytes) (s : State World)
    → by_handle q ≡ true
    → ((h : Bytes) (off : ℕ) → read_string rest 0 ≡ ok (h, off) → resolve h s ≡ none)
    → Untouched s (left (handle b q id rest s))
handle-Untouched b q id rest s e unknown = handle-Untouched_lem b id rest s unknown q e
