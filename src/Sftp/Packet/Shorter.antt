-- ===== src/Sftp/Packet/Shorter.antt =====
-- ReadPacket takes bytes from its reader.
use go_protocols.Common.{
  ℕ, ◌+◌, ◌≤◌, ◌<◌, ◌≡◌, ◌||◌, ◌==◌, ◌^◌, inl, inr, [], ◌∷◌, ltb, leb, leb→le, Bool-cases, Bytes,
  length, length-drop, take, drop, Result, ok, err, bind-eq-ok, arith,
}
use go_protocols.Sftp.Packet.{
  Packet, Error, big_endian, missing, read_full, packet_of, read_body, read_packet,
}

read_full-shorter :
    (n : ℕ) (r a rest : Bytes) → read_full n r ≡ ok (a, rest) → length rest + n ≡ length r
unfolding read_full
read_full-shorter n r a rest e = elim (Bool-cases (leb n (length r))) [
  | inl fits ↦
      let le = leb→le n (length r) fits in
      let same : ◌≡◌ {A = Result Error (Bytes × Bytes)} (ok (take n r, drop n r)) (ok (a, rest)) =
        rw fits at e in
      let tail : drop n r ≡ rest = cc in
      let size : length (drop n r) ≡ length rest = rw tail in omega (arith, size, length-drop n r)
  | inr short ↦ absurd (
      let bad : ◌≡◌ {A = Result Error (Bytes × Bytes)} (err (missing r)) (ok (a, rest)) =
        rw short at e in
      cc)
]

packet_of-rest :
    (a rest : Bytes) (p : Packet) (rest' : Bytes)
    → packet_of (a, rest) ≡ ok (p, rest')
    → rest ≡ rest'
unfolding packet_of
packet_of-rest [] rest p rest' e = absurd (cc)
packet_of-rest (c ∷ a) rest p rest' e = cc

read_body-shorter :
    (n : ℕ) (r : Bytes) (p : Packet) (rest : Bytes)
    → read_body n r ≡ ok (p, rest)
    → length rest ≤ length r
unfolding read_body
read_body-shorter n r p rest e = elim (Bool-cases (n == 0 || ltb (2 ^ 24) n)) [
  | inl bad ↦ absurd (ground (arith, bad))
  | inr good ↦
      let (h, k, m) = bind-eq-ok (read_full n r) packet_of (rw good at e) in
      let same = packet_of-rest h.0 h.1 p rest m in
      let size : length h.1 + n ≡ length r = read_full-shorter n r h.0 h.1 k in
      let less : length h.1 ≤ length r = omega (arith, size) in rw same at less
]

-- A packet that was read leaves less.
pub read_packet-shorter :
    (r : Bytes) (p : Packet) (rest : Bytes) → read_packet r ≡ ok (p, rest) → length rest < length r
unfolding read_packet
read_packet-shorter r p rest e =
    let (h, k, m) = bind-eq-ok (read_full 4 r) (λ h. read_body (big_endian 0 h.0) h.1) e in
    let body = read_body-shorter (big_endian 0 h.0) h.1 p rest m in
    let head = read_full-shorter 4 r h.0 h.1 k in omega (arith, body, head)
