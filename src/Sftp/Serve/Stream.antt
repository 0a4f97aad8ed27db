-- ===== src/Sftp/Serve/Stream.antt =====
-- Serve on the requests that a client writes with WritePacket.
use go_protocols.Common.{
  sym, append-nil, ℕ, zero, suc, ◌^◌, ◌≤◌, ◌<◌, ◌≡◌, refl, ap, ◌∙◌, inl, inr, List, [], ◌∷◌, ◌++◌,
  append_assoc, ltb, if◌then◌else◌, Bool-cases, Bytes, All, length, length-append, take, drop, ok,
  err, arith,
}
use go_protocols.Sftp.Constants.{type_init, type_version}
use go_protocols.Sftp.Init.{version, read_init}
use go_protocols.Sftp.Packet.{
  Packet, read_full, put_uint32, big_endian, append_uint32, read_packet, write_packet, eof,
}
use go_protocols.Sftp.Packet.RoundTrip.{read_packet-write_packet}
use go_protocols.Sftp.Backend.{Backend}
use go_protocols.Sftp.Server.{State, Next, goes, stops, panics, write}
use go_protocols.Sftp.Serve.{
  Request, request_of, Ended, finished, ended_by, id_of, step, turn, after, loop, first_state,
  begin, greeted, serve,
}
use go_protocols.Sftp.Serve.Replies.{
  IsReply, IsAnswered, answers, refuses, crashes, overruns, handle-IsAnswered,
}

-- What a client sends.
unfoldable pub stream : List Packet → Bytes
stream [] = []
stream (p ∷ ps) = write_packet p.type p.payload ++ stream ps

-- Packets that ReadPacket accepts.
abbrev pub AreSmall : List Packet → Type 0
AreSmall = All (λ p. length p.payload < 2 ^ 24)

-- The ids that the requests carry: a packet of less than four bytes carries none.
unfoldable pub asked : List Packet → List Bytes
asked [] = []
asked (p ∷ ps) =
    let rest = asked ps in if ltb (length p.payload) 4 then rest else put_uint32 (id_of p) ∷ rest

-- The first four bytes of each packet.
unfoldable pub heads : List Packet → List Bytes
heads [] = []
heads (p ∷ ps) = take 4 p.payload ∷ heads ps

heads-append : (ps qs : List Packet) → heads (ps ++ qs) ≡ heads ps ++ heads qs
unfolding heads
heads-append [] qs = refl
heads-append (p ∷ ps) qs = ap (◌∷◌ (take 4 p.payload)) (heads-append ps qs)

length-stream : (ps : List Packet) → length ps ≤ length (stream ps)
unfolding stream write_packet put_uint32
length-stream [] = omega arith
length-stream (p ∷ ps) =
    omega (arith, length-append (write_packet p.type p.payload) (stream ps), length-stream ps)

read_packet-nil : read_packet [] ≡ err eof
unfolding read_packet read_full
read_packet-nil = refl

accepted : read_init (record { type = type_init; payload = put_uint32 version }) ≡ ok version
unfolding read_init put_uint32 big_endian
accepted = refl

module _ {World : Type 0} (b : Backend World) where
  -- The requests one by one, with no bytes between.
  unfoldable pub run : List Packet → State World → Ended × State World
  unfolding turn
  run [] s = (finished, s)
  run (p ∷ ps) s = turn b (run ps) (step b p s)

  turn-cong :
      (f g : State World → Ended × State World) (n : Next World)
      → ((s : State World) → f s ≡ g s)
      → turn b f n ≡ turn b g n
  unfolding turn
  turn-cong f g (goes s) h = h s
  turn-cong f g (stops s) h = refl
  turn-cong f g (panics s) h = refl

  loop-stream :
      (f : ℕ) (ps : List Packet) (s : State World)
      → AreSmall ps
      → length ps < f
      → loop b f (stream ps) s ≡ run ps s
  unfolding loop after stream ended_by run
  loop-stream zero ps s a h = absurd (omega arith)
  loop-stream (suc f) [] s a h = rw read_packet-nil
  loop-stream (suc f) (p ∷ ps) s a h =
      rw (read_packet-write_packet p.type p.payload (stream ps) a.0) (
        turn-cong (loop b f (stream ps)) (run ps) (step b p s)
          λ t. loop-stream f ps t a.1 (omega arith))

  -- A round that goes on has answered its request.
  turn-finished :
      (q : Request) (id : ℕ) (again : State World → Ended × State World) (s t : State World)
      (n : Next World)
      → IsAnswered b q id s n
      → turn b again n ≡ (finished, t)
      → (u : State World) × (IsReply b q id s u) × (again u ≡ (finished, t))
  unfolding turn
  turn-finished q id again s t _ (answers u r) e = (u, r, e)
  turn-finished q id again s t _ (refuses u r) e = absurd (cc)
  turn-finished q id again s t _ (crashes u h real k l m) e = absurd (cc)
  turn-finished q id again s t _ (overruns u h real buf offset size n k l m o) e = absurd (cc)

  run-answers :
      (ps : List Packet) (s t : State World)
      → run ps s ≡ (finished, t)
      → heads t.sent ≡ heads s.sent ++ asked ps
  unfolding run asked step
  run-answers [] s t e =
      let same : s ≡ t = ap (λ (r : Ended × State World). r.1) e in
      rw same (sym (append-nil (heads t.sent)))
  run-answers (p ∷ ps) s t e = elim (Bool-cases (ltb (length p.payload) 4)) [
    | inl short ↦ rw short (run-answers ps s t (rw short at e))
    | inr long ↦
        let answered = handle-IsAnswered b (id_of p) (drop 4 p.payload) (request_of p.type) s in
        let (u, r, k) =
          turn-finished (request_of p.type) (id_of p) (run ps) s t _ answered (rw long at e) in
        rw long (
          run-answers ps u t k
          ∙ rw
              (
                r.sends,
                heads-append s.sent (r.reply ∷ []),
                append_assoc (heads s.sent) (heads (r.reply ∷ [])) (asked ps),
              )
              (unfold heads in rw r.carries))
  ]

  -- Serve of the stream
  pub serve-run :
      (ps : List Packet) (w : World)
      → AreSmall ps
      → serve b (write_packet type_init (put_uint32 version) ++ stream ps) w
        ≡ run ps (write type_version (append_uint32 [] version) (first_state b w))
  unfolding serve greeted begin
  serve-run ps w a =
      let fuel = length-stream ps in
      rw
        (read_packet-write_packet type_init (put_uint32 version) (stream ps)
          (unfold put_uint32 in omega arith))
        (rw accepted (loop-stream (suc (length (stream ps))) ps _ a (omega (arith, fuel))))

  -- When Serve comes to the end of the requests that a client wrote with WritePacket behind INIT,
  -- each of them smaller than 2^24 bytes, it has sent the version and then one reply for each
  -- request with an id, in their order, each with the id of its request.
  pub serve-answers :
      (ps : List Packet) (w : World) (t : State World)
      → AreSmall ps
      → serve b (write_packet type_init (put_uint32 version) ++ stream ps) w ≡ (finished, t)
      → heads t.sent ≡ put_uint32 version ∷ asked ps
  unfolding asked heads put_uint32 write first_state append_uint32
  serve-answers ps w t a e = run-answers ps _ t (rw (serve-run ps w a) at e)
