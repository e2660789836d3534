-- ===== src/Network/Connection/Budget.antt =====
-- internal/network/connection.go: the time that one `Send` may take, against what its comments
-- promise.
use gosh.Crypto.Session.{decrypt-encrypt, Cipher, IsCipher, encrypt, CryptoError}
use gosh.Base.{
  ℕ, ◌+◌, ◌*◌, ◌≤◌, Bytes, Bool, true, false, ◌≡◌, refl, ◌⊎◌, inl, inr, Result, ok, err, arith,
}
use gosh.Network.Packet.{to_message, to_message-IsU64}
use gosh.Network.Connection.{
  Connection, Link, Sent, is_due, maybe_hop_port, next_packet, transmit, sealed_transmit, send,
}

-- The bounds of one dial and of one write.
abbrev pub dial_timeout : ℕ
dial_timeout = 1500

abbrev pub write_timeout : ℕ
write_timeout = 500

-- The longest that the dials and the writes of a call can take.
abbrev pub longest : Sent → ℕ
longest s = s.dials * dial_timeout + s.writes * write_timeout

transmit-longest :
    (c : Connection) (l : Link) (hopped : Bool) (dials : ℕ) (b : Bytes)
    → ((hopped ≡ true) × (dials ≡ 1)) ⊎ (dials ≡ 0)
    → longest (transmit c l hopped dials b) ≤ 2500
unfolding transmit
transmit-longest c l hopped dials b h = ground arith

sealed_transmit-longest :
    (c : Connection) (l : Link) (hopped : Bool) (dials : ℕ) (r : Result CryptoError Bytes)
    → ((hopped ≡ true) × (dials ≡ 1)) ⊎ (dials ≡ 0)
    → longest (sealed_transmit c l hopped dials r) ≤ 2500
sealed_transmit-longest c l hopped dials (err e) h = ground arith
sealed_transmit-longest c l hopped dials (ok b) h = transmit-longest c l hopped dials b h

maybe_hop_port-dials :
    (c : Connection) (l : Link) (now : ℕ)
    → (is_due c now ≡ false) ⊎ (l.hop_dials ≡ true)
    → (((maybe_hop_port c l now).1 ≡ true) × ((maybe_hop_port c l now).2 ≡ 1))
      ⊎ ((maybe_hop_port c l now).2 ≡ 0)
unfolding maybe_hop_port
maybe_hop_port-dials c l now (inl e) = inr (rw e refl)
maybe_hop_port-dials c l now (inr e) = ground arith

-- A `Send` whose port hop is not due, or dials, keeps to 2.5 seconds: a dial and two writes at most.
pub send-longest :
    (cipher : Cipher) (c : Connection) (l : Link) (now : ℕ) (payload : Bytes)
    → (is_due c now ≡ false) ⊎ (l.hop_dials ≡ true)
    → longest (send cipher c l now payload) ≤ 2500
unfolding send
send-longest cipher c l now payload h =
    sealed_transmit-longest _ l _ _
      (encrypt cipher (to_message (next_packet (maybe_hop_port c l now).0 now payload).1))
      (maybe_hop_port-dials c l now h)

-- A `Send` on an open connection whose due port hop fails to dial, and whose write fails too, dials a
-- second time in the same call: where that dial succeeds, the call can take 4 seconds.
pub send_dials_twice :
    (cipher : Cipher) (c : Connection) (l : Link) (now : ℕ) (payload : Bytes)
    → IsCipher cipher
    → is_due c now ≡ true
    → c.closed ≡ false
    → l.hop_dials ≡ false
    → l.writes ≡ false
    → l.redials ≡ true
    → longest (send cipher c l now payload) ≡ 4000
unfolding send maybe_hop_port next_packet transmit
send_dials_twice cipher c l now payload h due open_link no_hop no_write redial =
    let p = (next_packet (record c { last_port_choice = now }) now payload).1 in
    let (b, sealed, _, _) = decrypt-encrypt cipher (to_message p) h (to_message-IsU64 p) in
    rw (due, no_hop, sealed, no_write, open_link, redial) refl
