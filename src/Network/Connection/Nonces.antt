-- ===== src/Network/Connection/Nonces.antt =====
-- internal/network/connection.go: the nonces of a run of `Send`s.
use gosh.Base.{
  ℕ, zero, suc, ◌+◌, ◌≤◌, ◌<◌, List, [], ◌∷◌, Bytes, length, take, get_elem?, Bool, Option, none,
  some, ◌≡◌, sym, ap, ◌∙◌, arith,
}
use gosh.Base.BigEndian.{uint64, uint64-put_uint64}
use gosh.Crypto.Session.{Cipher, IsCipher, decrypt-encrypt}
use gosh.Network.Packet.{to_server, to_message, nonce_val-eq}
use gosh.Network.Connection.{
  Connection, Link, Sent, maybe_hop_port, next_packet, transmit, sealed_transmit, send,
}

-- One call of `Send`: what the socket does, the time and the payload.
pub record Call : Type 0 where
  pub link : Link
  pub now : ℕ
  pub payload : Bytes

-- A run of calls, one after the other.
unfoldable pub send_all : Cipher → Connection → List Call → List Sent
unfolding send
send_all cipher c [] = []
send_all cipher c (call ∷ calls) =
    let s = send cipher c call.link call.now call.payload in s ∷ send_all cipher s.connection calls

hopped-next_seq :
    (c : Connection) (l : Link) (now : ℕ) → (maybe_hop_port c l now).0.next_seq ≡ c.next_seq
unfolding maybe_hop_port
hopped-next_seq c l now = ground arith

transmit-keeps :
    (c : Connection) (l : Link) (hopped : Bool) (dials : ℕ) (b : Bytes)
    → ((transmit c l hopped dials b).connection.next_seq ≡ c.next_seq)
      × ((transmit c l hopped dials b).datagram ≡ b)
unfolding transmit
transmit-keeps c l hopped dials b = (ground arith, ground arith)

nonce_of :
    (c : Connection) (now : ℕ) (payload : Bytes)
    → c.next_seq < 9223372036854775808
    → (to_message (next_packet c now payload).1).nonce_val ≡ c.next_seq
unfolding to_message next_packet
nonce_of c now payload few = omega (arith, nonce_val-eq to_server c.next_seq few)

-- One call takes the next number for its nonce.
send-nonce :
    (cipher : Cipher) (c : Connection) (l : Link) (now : ℕ) (payload : Bytes)
    → IsCipher cipher
    → c.next_seq < 9223372036854775808
    → ((send cipher c l now payload).connection.next_seq ≡ c.next_seq + 1)
      × (uint64 (take 8 (send cipher c l now payload).datagram) ≡ c.next_seq)
unfolding send next_packet
send-nonce cipher c l now payload h few =
    let (hopped, did, dials) = maybe_hop_port c l now in
    let same : hopped.next_seq ≡ c.next_seq = hopped-next_seq c l now in
    let (numbered, p) = next_packet hopped now payload in
    let val : (to_message p).nonce_val ≡ hopped.next_seq =
      nonce_of hopped now payload (omega (arith, same)) in
    let (b, sealed, front, opened) =
      decrypt-encrypt cipher (to_message p) h (omega (arith, val, same)) in
    let (number, datagram) = transmit-keeps numbered l did dials b in
    let whole : send cipher c l now payload ≡ transmit numbered l did dials b =
      ap (sealed_transmit numbered l did dials) sealed in
    (
      ap (λ s. s.connection.next_seq) whole ∙ number ∙ omega (arith, same),
      ap (λ s. uint64 (take 8 s.datagram)) whole
          ∙ ap (λ d. uint64 (take 8 d)) datagram
          ∙ ap uint64 front
          ∙ uint64-put_uint64 (to_message p).nonce_val (omega (arith, val, same))
          ∙ val
          ∙ same,
    )

-- In a run of calls whose numbers stay below 2 ^ 63, the datagram of each call, whether it goes out
-- or not, has in front as its nonce the first number plus the calls before it: no nonce is used for
-- two of them.
pub send_all-nonce :
    (cipher : Cipher) (c : Connection) (calls : List Call) (i : ℕ) (s : Sent)
    → IsCipher cipher
    → c.next_seq + length calls ≤ 9223372036854775808
    → get_elem? (send_all cipher c calls) i ≡ some s
    → uint64 (take 8 s.datagram) ≡ c.next_seq + i
unfolding send_all
send_all-nonce cipher c [] i s h few e = absurd cc
send_all-nonce cipher c (call ∷ calls) zero s h few e =
    let (next, nonce) =
      send-nonce cipher c call.link call.now call.payload h (omega (arith, few)) in
    ap (λ o. uint64 (take 8 (datagram_of o))) (sym e) ∙ nonce ∙ omega arith
  where
    datagram_of : Option Sent → Bytes
    datagram_of none = []
    datagram_of (some t) = t.datagram
send_all-nonce cipher c (call ∷ calls) (suc i) s h few e =
    let (next, nonce) =
      send-nonce cipher c call.link call.now call.payload h (omega (arith, few)) in
    send_all-nonce cipher (send cipher c call.link call.now call.payload).connection calls i s h
      (omega (arith, few, next)) e
    ∙ omega (arith, next)
