-- ===== src/Network/Connection/Sockets.antt =====
-- internal/network/connection.go: the sockets that a connection holds open.
use gosh.Base.{
  ℕ, ◌⊎◌, [], ◌∷◌, Bytes, Bool, true, false, ◌==◌, ==_refl, ◌≡◌, ◌≢◌, refl, Result, ok, err,
  Bool-cases, inl, inr, arith,
}
use gosh.Crypto.Session.{Cipher, CryptoError}
use gosh.Network.Connection.{
  Connection, Link, close_sock, redial, close, set_last_roundtrip_success, is_due, maybe_hop_port,
  next_packet, transmit, sealed_transmit, send, accept, receive_packet, recv,
}

-- Its current socket is open, and no other.
abbrev pub HasOne : Connection → Type 0
HasOne c = c.opened ≡ c.sock ∷ []

-- What a connection goes through up to `Close`. A socket that the system makes is none that is open.
pub data Uses (cipher : Cipher) (c : Connection) : Connection → Type 0 where
  here : Uses cipher c c
  sent :
      {d : Connection}
      → Uses cipher c d
      → (l : Link) (now : ℕ) (payload : Bytes) → l.dialed_sock ≢ d.sock
      → Uses cipher c (send cipher d l now payload).connection
  received :
      {d : Connection}
      → Uses cipher c d
      → (now : ℕ) (b : Bytes) → Uses cipher c (recv cipher d now b).0
  confirmed :
      {d : Connection} → Uses cipher c d → (t : ℕ) → Uses cipher c (set_last_roundtrip_success d t)

redial-HasOne :
    (c : Connection) (l : Link) → l.dialed_sock ≢ c.sock → HasOne c → HasOne (redial c l)
unfolding redial close_sock
redial-HasOne c l new one =
    let other : (l.dialed_sock == c.sock) ≡ false = ground arith in simp (other, one, ==_refl)

-- A connection with the same sockets.
abbrev SameSockets : Connection → Connection → Type 0
SameSockets c d = (d.opened ≡ c.opened) × (d.sock ≡ c.sock)

recv-SameSockets :
    (cipher : Cipher) (c : Connection) (now : ℕ) (b : Bytes) → SameSockets c (recv cipher c now b).0
unfolding recv receive_packet accept
recv-SameSockets cipher c now b = ground arith

hop-HasOne :
    (c : Connection) (l : Link) (now : ℕ)
    → l.dialed_sock ≢ c.sock
    → HasOne c
    → HasOne (maybe_hop_port c l now).0
      × (((maybe_hop_port c l now).1 ≡ true) ⊎ ((maybe_hop_port c l now).0.sock ≡ c.sock))
unfolding maybe_hop_port
hop-HasOne c l now new one = elim (Bool-cases (is_due c now)) [
  | inl due ↦ elim (Bool-cases l.hop_dials) [
    | inl hops ↦ simp (due, hops) (redial-HasOne c l new one, inl refl)
    | inr stays ↦ simp (due, stays) (one, inr refl)
  ]
  | inr early ↦ simp early (one, inr refl)
]

transmit-HasOne :
    (c : Connection) (l : Link) (hopped : Bool) (dials : ℕ) (b : Bytes)
    → HasOne c
    → (hopped ≡ true) ⊎ (l.dialed_sock ≢ c.sock)
    → HasOne (transmit c l hopped dials b).connection
unfolding transmit
transmit-HasOne c l true dials b one _ = ground arith
transmit-HasOne c l false dials b one (inl e) = absurd cc
transmit-HasOne c l false dials b one (inr new) =
    let anew = redial-HasOne c l new one in ground (arith, anew)

sealed_transmit-HasOne :
    (c : Connection) (l : Link) (hopped : Bool) (dials : ℕ) (r : Result CryptoError Bytes)
    → HasOne c
    → (hopped ≡ true) ⊎ (l.dialed_sock ≢ c.sock)
    → HasOne (sealed_transmit c l hopped dials r).connection
sealed_transmit-HasOne c l hopped dials (err e) one h = one
sealed_transmit-HasOne c l hopped dials (ok b) one h = transmit-HasOne c l hopped dials b one h

send-HasOne :
    (cipher : Cipher) (c : Connection) (l : Link) (now : ℕ) (payload : Bytes)
    → l.dialed_sock ≢ c.sock
    → HasOne c
    → HasOne (send cipher c l now payload).connection
unfolding send next_packet
send-HasOne cipher c l now payload new one =
    let (hopped, or_same) = hop-HasOne c l now new one in
    let d = (maybe_hop_port c l now).0 in
    let still : ((maybe_hop_port c l now).1 ≡ true) ⊎ (l.dialed_sock ≢ d.sock) =
      ground (arith, or_same) in
    sealed_transmit-HasOne (next_packet d now payload).0 l (maybe_hop_port c l now).1 _ _ hopped
      still

confirmed-HasOne : (c : Connection) (t : ℕ) → HasOne c → HasOne (set_last_roundtrip_success c t)
unfolding set_last_roundtrip_success
confirmed-HasOne c t one = ground arith

Uses-HasOne : {cipher : Cipher} {c d : Connection} → HasOne c → Uses cipher c d → HasOne d
Uses-HasOne one here = one
Uses-HasOne {cipher} one (sent {d} u l now payload new) =
    send-HasOne cipher d l now payload new (Uses-HasOne one u)
Uses-HasOne {cipher} one (received {d} u now b) =
    let (o, s) = recv-SameSockets cipher d now b in let before = Uses-HasOne one u in cc
Uses-HasOne one (confirmed {d} u t) = confirmed-HasOne d t (Uses-HasOne one u)

-- Whatever a connection goes through up to `Close`, whichever dials and writes of its sends fail: its
-- current socket is open and no other is, and `Close` leaves none open.
pub Uses-opened :
    (cipher : Cipher) (c d : Connection)
    → c.opened ≡ c.sock ∷ []
    → Uses cipher c d
    → (d.opened ≡ d.sock ∷ []) × ((close d).opened ≡ [])
unfolding close close_sock
Uses-opened cipher c d one u =
    let last : HasOne d = Uses-HasOne one u in (last, simp (last, ==_refl))
