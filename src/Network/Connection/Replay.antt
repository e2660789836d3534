-- ===== src/Network/Connection/Replay.antt =====
-- internal/network/connection.go: the numbers of received packets.
use gosh.Network.Connection.{
  bad_packet, not_sealed, Connection, RecvError, old_sequence, accept, is_to_client, receive_packet,
  recv,
}
use gosh.Base.{
  ◌∙◌, sym, ◌≢◌, ℕ, ◌≤◌, ◌<◌, List, [], ◌∷◌, Bytes, true, ltb, ◌≡◌, refl, Result, ok, err,
  Result-cases, arith, inl, inr,
}
use gosh.Crypto.Session.{Cipher, Message, decrypt}
use gosh.Network.Packet.{Packet, packet_from_message, packet_from_message-seq}

-- Datagrams read one after the other, each at its time.
unfoldable pub recv_all : Cipher → Connection → List (ℕ × Bytes) → Connection
recv_all cipher c [] = c
recv_all cipher c ((now, b) ∷ rest) = recv_all cipher (recv cipher c now b).0 rest

receive_packet-expected :
    (c : Connection) (now : ℕ) (p : Packet)
    → p.seq < 9223372036854775808
    → c.expected_receiver_seq ≤ (receive_packet c now p).0.expected_receiver_seq
unfolding receive_packet accept
receive_packet-expected c now p h = ground arith

recv-expected :
    (cipher : Cipher) (c : Connection) (now : ℕ) (b : Bytes)
    → c.expected_receiver_seq ≤ (recv cipher c now b).0.expected_receiver_seq
unfolding recv
recv-expected cipher c now b = elim (Result-cases (decrypt cipher b)) [
  | inr (e, q) ↦ rw q (omega arith)
  | inl (m, q) ↦ elim (Result-cases (packet_from_message m)) [
    | inr (e, r) ↦ rw (q, r) (omega arith)
    | inl (p, r) ↦ rw (q, r) (receive_packet-expected c now p (packet_from_message-seq m p r))
  ]
]

recv_all-expected :
    (cipher : Cipher) (c : Connection) (bs : List (ℕ × Bytes))
    → c.expected_receiver_seq ≤ (recv_all cipher c bs).expected_receiver_seq
unfolding recv_all
recv_all-expected cipher c [] = omega arith
recv_all-expected cipher c ((now, b) ∷ rest) =
    omega
      (arith, recv-expected cipher c now b, recv_all-expected cipher (recv cipher c now b).0 rest)

-- A packet whose number is behind is dropped, and nothing changes.
receive_packet-old :
    (c : Connection) (now : ℕ) (p : Packet)
    → is_to_client p.direction ≡ true
    → p.seq < c.expected_receiver_seq
    → receive_packet c now p ≡ (c, err old_sequence)
unfolding receive_packet
receive_packet-old c now p d h =
    let behind : ltb p.seq c.expected_receiver_seq ≡ true = ground arith in rw (d, behind) refl

recv-old :
    (cipher : Cipher) (c : Connection) (now : ℕ) (b : Bytes) (m : Message) (p : Packet)
    → decrypt cipher b ≡ ok m
    → packet_from_message m ≡ ok p
    → is_to_client p.direction ≡ true
    → p.seq < c.expected_receiver_seq
    → recv cipher c now b ≡ (c, err old_sequence)
unfolding recv
recv-old cipher c now b m p q r d s = rw (q, r) (receive_packet-old c now p d s)

ok-ne-err :
    (r : Result RecvError Bytes) (payload : Bytes) (x : RecvError) → r ≡ ok payload → r ≢ err x
ok-ne-err r payload x e f = cc

receive_packet-ok :
    (c : Connection) (now : ℕ) (p : Packet) (payload : Bytes)
    → p.seq < 9223372036854775808
    → (receive_packet c now p).1 ≡ ok payload
    → (is_to_client p.direction ≡ true) × (p.seq < (receive_packet c now p).0.expected_receiver_seq)
unfolding receive_packet accept
receive_packet-ok c now p payload h e = ground arith

-- What an accepted datagram says of its packet, and of the connection behind it.
recv-ok :
    (cipher : Cipher) (c : Connection) (now : ℕ) (b payload : Bytes)
    → (recv cipher c now b).1 ≡ ok payload
    → (m : Message) × (p : Packet) × (decrypt cipher b ≡ ok m)
      × (packet_from_message m ≡ ok p)
      × (is_to_client p.direction ≡ true)
      × (p.seq < (recv cipher c now b).0.expected_receiver_seq)
unfolding recv
recv-ok cipher c now b payload e = elim (Result-cases (decrypt cipher b)) [
  | inr (x, q) ↦ absurd (ok-ne-err (recv cipher c now b).1 payload (not_sealed x) e (rw q refl))
  | inl (m, q) ↦ elim (Result-cases (packet_from_message m)) [
    | inr (x, r) ↦
        absurd (ok-ne-err (recv cipher c now b).1 payload (bad_packet x) e (rw (q, r) refl))
    | inl (p, r) ↦
        let accepted : (receive_packet c now p).1 ≡ ok payload = sym (rw (q, r) refl) ∙ e in
        let (d, s) = receive_packet-ok c now p payload (packet_from_message-seq m p r) accepted in
        (m, p, q, r, d, rw (q, r) s)
  ]
]

-- A datagram that was accepted is refused when it comes again, whatever was read in between, and
-- changes nothing.
pub recv-replay :
    (cipher : Cipher) (c : Connection) (now later : ℕ) (b payload : Bytes)
    (between : List (ℕ × Bytes))
    → (recv cipher c now b).1 ≡ ok payload
    → recv cipher (recv_all cipher (recv cipher c now b).0 between) later b
      ≡ (recv_all cipher (recv cipher c now b).0 between, err old_sequence)
recv-replay cipher c now later b payload between e =
    let (m, p, q, r, d, s) = recv-ok cipher c now b payload e in
    recv-old cipher (recv_all cipher (recv cipher c now b).0 between) later b m p q r d
      (omega (arith, s, recv_all-expected cipher (recv cipher c now b).0 between))
