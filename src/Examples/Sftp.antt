-- ===== src/Examples/Sftp.antt =====
-- Inputs for sftp/sftp and sftp/server.
use go_protocols.Common.{
  ◌<◌, ◌^◌, ℕ, ◌+◌, ◌≡◌, ◌≢◌, refl, inl, inr, false, some, none, List, [], ◌∷◌, ◌++◌, arith, equal,
  ◌∙◌, Bytes, length, ok,
}
use go_protocols.Common.Text.{codes}
use go_protocols.Common.Decimal.{pos}
use go_protocols.Common.Maps.{bytes_key, lookup}
use go_protocols.Sftp.Constants.{
  type_init, type_stat, type_mkdir, type_name, type_version, status_eof,
}
use go_protocols.Sftp.Packet.{
  Packet, big_endian, put_uint32, read_packet, write_packet, read_string, append_string,
  append_uint32,
}
use go_protocols.Sftp.Packet.RoundTrip.{read_packet-write_packet}
use go_protocols.Sftp.Attr.{FileAttr, zero_time, encode, decode_attrs}
use go_protocols.Sftp.Attr.RoundTrip.{IsTime, decode_attrs-encode}
use go_protocols.Sftp.Init.{version, id_after, id_after-fresh}
use go_protocols.Sftp.Backend.{Backend, FileStat}
use go_protocols.Sftp.Server.{
  State, goes, field, on, done, or_false, new_handle, resolve, is_drained, write, send_status,
}
use go_protocols.Sftp.Server.Handles.{IsValid, new_handle-fresh}
use go_protocols.Sftp.Handlers.{sent_attrs, handle_mkdir, handle_stat, name_list, handle_readdir}
use go_protocols.Sftp.Serve.{
  req_close, finished, out_of_fuel, handle, serve, step, request_of, first_state,
}
use go_protocols.Sftp.Serve.Stream.{stream, asked, heads, run, serve-run, serve-answers}
use go_protocols.Sftp.Serve.Ends.{serve-ends}
use go_protocols.Sftp.Serve.Table.{first_state-IsValid, left, run-IsValid}
use go_protocols.Sftp.Serve.Unknown.{Untouched, by_handle, handle-Untouched}
use go_protocols.Sftp.Serve.Listing.{handle_readdir-once}

read_packet-write_packet_example :
    read_packet (write_packet 101 (codes "status") ++ (7 ∷ []))
    ≡ ok (record { type = 101; payload = codes "status" }, 7 ∷ [])
read_packet-write_packet_example =
    read_packet-write_packet 101 (codes "status") (7 ∷ []) (omega arith)

-- A file of five bytes with an owner and a time.
abbrev five_bytes : FileAttr
five_bytes = record {
  size = 5;
  uid = 1000;
  gid = 0;
  mode = 420;
  mtime = pos 1700000000;
  atime = zero_time;
}

decode_attrs-encode_example :
    decode_attrs ((9 ∷ []) ++ (encode five_bytes ++ (7 ∷ []))) 1
    ≡ ok (five_bytes, length ((9 ∷ []) ++ encode five_bytes))
decode_attrs-encode_example = decode_attrs-encode (9 ∷ []) five_bytes (7 ∷ []) (record {
  size_small = omega arith;
  uid_small = omega arith;
  gid_small = omega arith;
  mode_small = omega arith;
  mtime_time = unfold IsTime in inr (1700000000, refl, omega arith);
  atime_time = unfold IsTime in inl refl;
})

id_after-fresh_example :
    (id_after 2 ≢ 0)
    × (id_after 9 ≢ 0)
    × (id_after 2 < 2 ^ 32)
    × (id_after 2 ≢ id_after 9)
    × (id_after (2 + 4294967295) ≡ id_after 2)
id_after-fresh_example = id_after-fresh 2 9 (omega arith) (omega arith) (omega arith)

abbrev one_file : FileStat
one_file = record {
  name = codes "a";
  size = 1;
  mode = 420;
  is_dir = false;
  mtime = pos 0;
  uid = 0;
  gid = 0;
}

-- A backend on which every call works; the world counts the calls.
abbrev counting : Backend ℕ
counting = record {
  stat = λ path w. (ok one_file, w + 1);
  lstat = λ path w. (ok one_file, w + 1);
  open_file = λ path flags w. (ok (codes "file7"), w + 1);
  read = λ h offset size w. (ok (pos 3, codes "xyz"), w + 1);
  write = λ h offset bytes w. (ok (length bytes), w + 1);
  close = λ h w. (ok tt, w + 1);
  readdir = λ path w. (ok (one_file ∷ []), w + 1);
  mkdir = λ path w. (ok tt, w + 1);
  rmdir = λ path w. (ok tt, w + 1);
  remove = λ path w. (ok tt, w + 1);
  rename = λ from to w. (ok tt, w + 1);
}

abbrev made : Packet
made = record { type = type_mkdir; payload = put_uint32 5 ++ append_string [] (codes "/d") }

abbrev asked_stat : Packet
asked_stat = record { type = type_stat; payload = put_uint32 6 ++ append_string [] (codes "/d") }

abbrev two_requests : List Packet
two_requests = made ∷ asked_stat ∷ []

serve-ends_example : (serve counting (codes "no packet") 0).0 ≢ out_of_fuel
serve-ends_example = serve-ends counting (codes "no packet") 0

new_handle-fresh_example :
    let (h, t) = new_handle (codes "file7") (first_state counting 0) in
    (resolve h (first_state counting 0) ≡ none)
    × (is_drained h t ≡ false)
    × (resolve h t ≡ some (codes "file7"))
    × ((j : Bytes) → j ≢ h → resolve j t ≡ resolve j (first_state counting 0))
new_handle-fresh_example =
    new_handle-fresh (first_state counting 0) (first_state-IsValid counting 0) (codes "file7")
      (unfold first_state in omega arith)

run-IsValid_example : IsValid (run counting two_requests (first_state counting 0)).1
run-IsValid_example =
    run-IsValid counting two_requests (first_state counting 0) (first_state-IsValid counting 0)
      (unfold first_state in omega arith)

-- What is left behind the two requests.
abbrev behind : State ℕ
behind =
    (run counting two_requests
      (write type_version (append_uint32 [] version) (first_state counting 0))).1

two_requests_finish :
    serve counting (write_packet type_init (put_uint32 version) ++ stream two_requests) 0
    ≡ (finished, behind)
unfolding run step handle request_of handle_mkdir handle_stat field on done sent_attrs read_string
    append_string put_uint32 big_endian
two_requests_finish =
    serve-run counting two_requests 0
      (unfold put_uint32 append_string in (omega arith, (omega arith, tt)))
    ∙ refl

serve-answers_example : heads behind.sent ≡ put_uint32 version ∷ asked two_requests
serve-answers_example =
    serve-answers counting two_requests 0 behind
      (unfold put_uint32 append_string in (omega arith, (omega arith, tt))) two_requests_finish

handle-Untouched_example :
    Untouched
      (first_state counting 0)
      (left (handle counting req_close 7 (append_string [] (codes "h1")) (first_state counting 0)))
handle-Untouched_example =
    handle-Untouched counting req_close 7 (append_string [] (codes "h1")) (first_state counting 0)
      (unfold by_handle in refl) (λ h off e. unfold first_state resolve lookup in refl)

-- A session with one open directory.
abbrev one_directory : State ℕ
one_directory = record {
  handles = (codes "h1", codes "dir:/d") ∷ [];
  drained = [];
  next_id = 1;
  world = 0;
  sent = [];
}

first_name : read_string (append_string [] (codes "h1")) 0 ≡ ok (codes "h1", 6)
unfolding read_string append_string put_uint32 big_endian
first_name = refl

handle_readdir-once_example :
    (t : State ℕ) × (handle_readdir counting 5 (append_string [] (codes "h1")) one_directory
      ≡ goes t)
    × (t.sent
        ≡ (record { type = type_name; payload = name_list (one_file ∷ []) (append_uint32 [] 5) })
          ∷ [])
    × (handle_readdir counting 6 (append_string [] (codes "h1")) t
        ≡ goes (send_status 6 status_eof [] t))
handle_readdir-once_example =
    handle_readdir-once counting 5 6 (append_string [] (codes "h1")) (append_string [] (codes "h1"))
      one_directory (codes "h1") (codes "dir:/d") 6 6 (one_file ∷ []) 1 first_name first_name
      (unfold is_drained or_false lookup in refl) (unfold resolve lookup equal in refl)
      (omega arith) refl
