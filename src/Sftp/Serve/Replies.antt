-- ===== src/Sftp/Serve/Replies.antt =====
-- Each request has one reply, which carries its id.
use go_protocols.Common.{
  ℕ, ◌<◌, ◌≡◌, refl, ap, true, false, ◌||◌, List, [], ◌∷◌, ◌++◌, ltb, ◌==◌, some, if_cases, ltb→lt,
  append_assoc, Bytes, length, take, ok, err, Result,
}
use go_protocols.Common.Decimal.{ℤ}
use go_protocols.Sftp.Constants.{type_status, type_handle, type_data, type_name, type_attrs}
use go_protocols.Sftp.Packet.{Packet, put_uint32, append_uint32, append_string, read_string}
use go_protocols.Sftp.Attr.{encode_status}
use go_protocols.Sftp.Backend.{Failure, FileStat, Backend, Op}
use go_protocols.Sftp.Server.{
  State, Next, goes, stops, panics, write, send_status, send_attrs, send_handle, new_handle,
  mark_drained, is_drained, forget, field, on, resolve, resolving, done,
}
use go_protocols.Sftp.Server.Cases.{field_cases, on_cases, resolving_cases}
use go_protocols.Sftp.Handlers.{
  in_buffer, count_of, grant, give_handle, read_result, name_list, handle_open, closed,
  handle_close, handle_read, handle_write, sent_attrs, handle_stat, handle_lstat, handle_opendir,
  sent_names, listing, handle_readdir, handle_mkdir, handle_rmdir, handle_remove, handle_rename,
}
use go_protocols.Sftp.Serve.{
  Request, req_open, req_close, req_read, req_write, req_stat, req_lstat, req_opendir, req_readdir,
  req_mkdir, req_rmdir, req_remove, req_rename, req_other, handle,
}

-- The packet type that answers a request which succeeds, where it is not a status.
unfoldable pub answer_type : Request → ℕ
answer_type req_open = type_handle
answer_type req_opendir = type_handle
answer_type req_read = type_data
answer_type req_stat = type_attrs
answer_type req_lstat = type_attrs
answer_type req_readdir = type_name
answer_type _ = type_status

take-id : (id : ℕ) (payload : Bytes) → take 4 (put_uint32 id ++ payload) ≡ put_uint32 id
unfolding put_uint32
take-id id payload = refl

module _ {World : Type 0} (b : Backend World) (q : Request) (id : ℕ) where
  -- From s to t one packet was written: a status or the answer to q, and it begins with the id.
  pub record IsReply (s t : State World) : Type 0 where
    pub reply : Packet
    pub sends : t.sent ≡ s.sent ++ reply ∷ []
    pub carries : take 4 reply.payload ≡ put_uint32 id
    pub fits : (reply.type == type_status) || (reply.type == answer_type q) ≡ true

  -- A request has its reply, and Serve goes on or returns. Only a READDIR panics, where the backend's
  -- name of the handle has less than four bytes, and a READ, where the backend returns a number outside
  -- of the buffer.
  pub data IsAnswered (s : State World) : Next World → Type 0 where
    answers : (t : State World) → IsReply s t → IsAnswered s (goes t)
    refuses : (t : State World) → IsReply s t → IsAnswered s (stops t)
    crashes :
        (t : State World) (h real : Bytes)
        → q ≡ req_readdir
        → resolve h s ≡ some real
        → length real < 4
        → IsAnswered s (panics t)
    overruns :
        (t : State World) (h real buf : Bytes) (offset size : ℕ) (n : ℤ)
        → q ≡ req_read
        → resolve h s ≡ some real
        → b.read real offset size s.world ≡ (ok (n, buf), t.world)
        → in_buffer size n ≡ false
        → IsAnswered s (panics t)

  write-IsReply :
      (type : ℕ) (payload : Bytes) (s t : State World)
      → t.sent ≡ s.sent
      → take 4 payload ≡ put_uint32 id
      → (type == type_status) || (type == answer_type q) ≡ true
      → IsReply s (write type payload t)
  unfolding write
  write-IsReply type payload s t e c f = record {
    reply = record { type = type; payload = payload };
    sends = ap (λ (l : List Packet). l ++ (record { type = type; payload = payload }) ∷ []) e;
    carries = c;
    fits = f;
  }

  send_status-IsReply :
      (code : ℕ) (msg : Bytes) (s t : State World)
      → t.sent ≡ s.sent
      → IsReply s (send_status id code msg t)
  unfolding send_status encode_status append_string append_uint32
  send_status-IsReply code msg s t e =
      write-IsReply type_status (encode_status id code msg []) s t e (unfold put_uint32 in refl)
        refl

  status-IsAnswered :
      (code : ℕ) (msg : Bytes) (s t : State World)
      → t.sent ≡ s.sent
      → IsAnswered s (goes (send_status id code msg t))
  status-IsAnswered code msg s t e = answers _ (send_status-IsReply code msg s t e)

  field-IsAnswered :
      {A : Type 0} (r : Result _ (A × ℕ)) (k : A → ℕ → State World → Next World) (s : State World)
      → ((a : A) (off : ℕ) → IsAnswered s (k a off s))
      → IsAnswered s (field id r k s)
  field-IsAnswered r k s good =
      field_cases (IsAnswered s) id r k s (λ e. refuses _ (send_status-IsReply _ _ s s refl))
        (λ a off e. good a off)

  on-IsAnswered :
      {A : Type 0} (op : Op World A) (k : A → State World → Next World) (s : State World)
      → ((a : A) (t : State World) → t.sent ≡ s.sent → IsAnswered s (k a t))
      → IsAnswered s (on id op k s)
  on-IsAnswered op k s good =
      on_cases (IsAnswered s) id op k s (λ e w. status-IsAnswered _ _ s _ refl)
        (λ a w. good a _ refl)

  done-IsAnswered :
      {A : Type 0} (a : A) (s t : State World) → t.sent ≡ s.sent → IsAnswered s (done id a t)
  unfolding done
  done-IsAnswered a s t e = status-IsAnswered _ _ s t e

  resolving-IsAnswered :
      (h : Bytes) (k : Bytes → State World → Next World) (s : State World)
      → ((real : Bytes) → resolve h s ≡ some real → IsAnswered s (k real s))
      → IsAnswered s (resolving id h k s)
  resolving-IsAnswered h k s good =
      resolving_cases (IsAnswered s) id h k s (λ e. status-IsAnswered _ _ s s refl) good

-- What begins the payload of a NAME reply stays there.
take-name_list :
    (es : List FileStat) (a b c d : ℕ) (payload : Bytes)
    → take 4 (name_list es (a ∷ b ∷ c ∷ d ∷ payload)) ≡ a ∷ b ∷ c ∷ d ∷ []
unfolding name_list append_string
take-name_list [] a b c d payload = refl
take-name_list (e ∷ es) a b c d payload = take-name_list es a b c d _

module _ {World : Type 0} (b : Backend World) (id : ℕ) where
  give_handle-IsAnswered :
      (q : Request) (real : Bytes) (s t : State World)
      → answer_type q ≡ type_handle
      → t.sent ≡ s.sent
      → IsAnswered b q id s (give_handle id real t)
  unfolding give_handle grant new_handle send_handle append_uint32 append_string
  give_handle-IsAnswered q real s t k e =
      answers _ (write-IsReply b q id type_handle _ s _ e (take-id id _) (rw k))

  read-IsAnswered :
      (h real : Bytes) (offset size : ℕ) (r : Result Failure (ℤ × Bytes) × World) (s : State World)
      → resolve h s ≡ some real
      → b.read real offset size s.world ≡ r
      → IsAnswered b req_read id s (read_result id size r s)
  unfolding read_result append_uint32
  read-IsAnswered h real offset size (err e, w) s known called = answers _ (
      if_cases (IsReply b req_read id s) e.is_eof _ _
        (λ k. send_status-IsReply b req_read id _ _ s _ refl)
        (λ k. send_status-IsReply b req_read id _ _ s _ refl))
  read-IsAnswered h real offset size (ok (n, buf), w) s known called =
      if_cases (IsAnswered b req_read id s) (in_buffer size n) _ _
        (λ k. answers _ (
          write-IsReply b req_read id type_data _ s _ refl
            (rw (append_assoc (put_uint32 id) (put_uint32 (count_of n)) (take (count_of n) buf))
              (take-id id _))
            (unfold answer_type in refl)))
        (λ k. overruns _ h real buf offset size n refl known called k)

  attrs-IsAnswered :
      (q : Request) (st : FileStat) (s t : State World)
      → answer_type q ≡ type_attrs
      → t.sent ≡ s.sent
      → IsAnswered b q id s (sent_attrs id st t)
  unfolding sent_attrs send_attrs append_uint32
  attrs-IsAnswered q st s t k e =
      answers _ (write-IsReply b q id type_attrs _ s _ e (take-id id _) (rw k))

  names-IsAnswered :
      (h : Bytes) (es : List FileStat) (s t : State World)
      → t.sent ≡ s.sent
      → IsAnswered b req_readdir id s (sent_names id h es t)
  unfolding sent_names mark_drained append_uint32
  names-IsAnswered h es s t e =
      let payload : Bytes = name_list es (put_uint32 id) in
      let start : take 4 payload ≡ put_uint32 id =
        unfold put_uint32 in (take-name_list es _ _ _ _ []) in
      let r =
        write-IsReply b req_readdir id type_name payload s t e start (unfold answer_type in refl) in
      answers _ (record { reply = r.reply; sends = r.sends; carries = r.carries; fits = r.fits })

  module _ (rest : Bytes) where
    handle_open-IsAnswered :
        (s : State World) → IsAnswered b req_open id s (handle_open b id rest s)
    unfolding handle_open
    handle_open-IsAnswered s = field-IsAnswered b req_open id _ _ s λ path off.
        field-IsAnswered b req_open id _ _ s λ flags off'.
          on-IsAnswered b req_open id _ _ s
            λ real t e. give_handle-IsAnswered req_open real s t (unfold answer_type in refl) e

    handle_close-IsAnswered :
        (s : State World) → IsAnswered b req_close id s (handle_close b id rest s)
    unfolding handle_close closed forget
    handle_close-IsAnswered s = field-IsAnswered b req_close id _ _ s λ h off.
        resolving-IsAnswered b req_close id h _ s
          λ real e. done-IsAnswered b req_close id tt s _ refl

    handle_read-IsAnswered :
        (s : State World) → IsAnswered b req_read id s (handle_read b id rest s)
    unfolding handle_read
    handle_read-IsAnswered s = field-IsAnswered b req_read id _ _ s λ h off.
        field-IsAnswered b req_read id _ _ s λ offset off'.
          field-IsAnswered b req_read id _ _ s λ size off''.
            resolving-IsAnswered b req_read id h _ s
              λ real e. read-IsAnswered h real offset size _ s e refl

    handle_write-IsAnswered :
        (s : State World) → IsAnswered b req_write id s (handle_write b id rest s)
    unfolding handle_write
    handle_write-IsAnswered s = field-IsAnswered b req_write id _ _ s λ h off.
        field-IsAnswered b req_write id _ _ s λ offset off'.
          field-IsAnswered b req_write id _ _ s λ bytes off''.
            resolving-IsAnswered b req_write id h _ s λ real e.
              on-IsAnswered b req_write id _ _ s λ a t k. done-IsAnswered b req_write id a s t k

    handle_stat-IsAnswered :
        (s : State World) → IsAnswered b req_stat id s (handle_stat b id rest s)
    unfolding handle_stat
    handle_stat-IsAnswered s = field-IsAnswered b req_stat id _ _ s λ path off.
        on-IsAnswered b req_stat id _ _ s
          λ st t e. attrs-IsAnswered req_stat st s t (unfold answer_type in refl) e

    handle_lstat-IsAnswered :
        (s : State World) → IsAnswered b req_lstat id s (handle_lstat b id rest s)
    unfolding handle_lstat
    handle_lstat-IsAnswered s = field-IsAnswered b req_lstat id _ _ s λ path off.
        on-IsAnswered b req_lstat id _ _ s
          λ st t e. attrs-IsAnswered req_lstat st s t (unfold answer_type in refl) e

    handle_opendir-IsAnswered :
        (s : State World) → IsAnswered b req_opendir id s (handle_opendir b id rest s)
    unfolding handle_opendir
    handle_opendir-IsAnswered s = field-IsAnswered b req_opendir id _ _ s λ path off.
        on-IsAnswered b req_opendir id _ _ s
          λ entries t e. give_handle-IsAnswered req_opendir _ s t (unfold answer_type in refl) e

    listing-IsAnswered :
        (h real : Bytes) (s : State World)
        → resolve h s ≡ some real
        → IsAnswered b req_readdir id s (listing b id rest h real s)
    unfolding listing
    listing-IsAnswered h real s e =
        if_cases (IsAnswered b req_readdir id s) (ltb (length real) 4) _ _
          (λ short. crashes s h real refl e (ltb→lt _ _ short))
          (λ long. on-IsAnswered b req_readdir id _ _ s λ es t k. names-IsAnswered h es s t k)

    handle_readdir-IsAnswered :
        (s : State World) → IsAnswered b req_readdir id s (handle_readdir b id rest s)
    unfolding handle_readdir
    handle_readdir-IsAnswered s = field-IsAnswered b req_readdir id _ _ s λ h off.
        if_cases (IsAnswered b req_readdir id s) (is_drained h s) _ _
          (λ e. status-IsAnswered b req_readdir id _ _ s s refl)
          (λ e. resolving-IsAnswered b req_readdir id h _ s λ real k. listing-IsAnswered h real s k)

    -- A request that only calls the backend.
    call-IsAnswered :
        {A : Type 0} (q : Request) (op : Bytes → Op World A) (s : State World)
        → IsAnswered b q id s
            (field id (read_string rest 0) (λ path _. on id (op path) (done id)) s)
    call-IsAnswered q op s =
        field-IsAnswered b q id _ _ s
          λ path off. on-IsAnswered b q id _ _ s λ a t k. done-IsAnswered b q id a s t k

    handle_rename-IsAnswered :
        (s : State World) → IsAnswered b req_rename id s (handle_rename b id rest s)
    unfolding handle_rename
    handle_rename-IsAnswered s = field-IsAnswered b req_rename id _ _ s λ from off.
        field-IsAnswered b req_rename id _ _ s λ to off'.
          on-IsAnswered b req_rename id _ _ s λ a t k. done-IsAnswered b req_rename id a s t k

    pub handle-IsAnswered :
        (q : Request) (s : State World) → IsAnswered b q id s (handle b q id rest s)
    unfolding handle handle_mkdir handle_rmdir handle_remove
    handle-IsAnswered req_open s = handle_open-IsAnswered s
    handle-IsAnswered req_close s = handle_close-IsAnswered s
    handle-IsAnswered req_read s = handle_read-IsAnswered s
    handle-IsAnswered req_write s = handle_write-IsAnswered s
    handle-IsAnswered req_stat s = handle_stat-IsAnswered s
    handle-IsAnswered req_lstat s = handle_lstat-IsAnswered s
    handle-IsAnswered req_opendir s = handle_opendir-IsAnswered s
    handle-IsAnswered req_readdir s = handle_readdir-IsAnswered s
    handle-IsAnswered req_mkdir s = call-IsAnswered req_mkdir b.mkdir s
    handle-IsAnswered req_rmdir s = call-IsAnswered req_rmdir b.rmdir s
    handle-IsAnswered req_remove s = call-IsAnswered req_remove b.remove s
    handle-IsAnswered req_rename s = handle_rename-IsAnswered s
    handle-IsAnswered req_other s = status-IsAnswered b req_other id _ _ s s refl
