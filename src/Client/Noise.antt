-- ===== src/Client/Noise.antt =====
-- internal/client/client.go: what arrives on the port while `Run` reads it.
use gosh.Client.Pump.{
  receive_mtu, Act, arrived, failed, sent, confirmed, closing, Port, take_read, act, acts,
}
use gosh.Base.{
  ℕ, List, [], ◌∷◌, ◌++◌, Bytes, Bool, true, false, not, ◌&&◌, if◌then◌else◌, Result, ok, err, take,
  All, ◌≡◌, ◌≢◌, refl, sym, ap, subst, ◌∙◌, ltb, arith,
}
use gosh.Crypto.Session.{Cipher, CryptoError, Message, decrypt}
use gosh.Network.Packet.{Packet, PacketError, packet_from_message}
use gosh.Network.Connection.{
  Connection, Link, RecvError, redial, set_last_roundtrip_success, maybe_hop_port, next_packet,
  transmit, sealed_transmit, send, accept, receive_packet, receive_parsed, receive_opened,
  is_to_client, recv,
}

acts-append :
    (cipher : Cipher) (p : Port) (xs ys : List Act)
    → acts cipher p (xs ++ ys) ≡ acts cipher (acts cipher p xs) ys
unfolding acts
acts-append cipher p [] ys = refl
acts-append cipher p (a ∷ xs) ys = acts-append cipher (act cipher p a) xs ys

-- The goroutine reads, and nobody has called `Close`.
abbrev pub IsListening : Port → Type 0
IsListening p = (p.pumping ≡ true) × (p.connection.closed ≡ false)

recv-closed :
    (cipher : Cipher) (c : Connection) (now : ℕ) (b : Bytes)
    → (recv cipher c now b).0.closed ≡ c.closed
unfolding recv receive_packet accept
recv-closed cipher c now b = ground arith

hop-closed : (c : Connection) (l : Link) (now : ℕ) → (maybe_hop_port c l now).0.closed ≡ c.closed
unfolding maybe_hop_port redial
hop-closed c l now = ground arith

sealed_transmit-closed :
    (c : Connection) (l : Link) (hopped : Bool) (dials : ℕ) (r : Result CryptoError Bytes)
    → (sealed_transmit c l hopped dials r).connection.closed ≡ c.closed
unfolding transmit redial
sealed_transmit-closed c l hopped dials (err e) = refl
sealed_transmit-closed c l hopped dials (ok b) = ground arith

send-closed :
    (cipher : Cipher) (c : Connection) (l : Link) (now : ℕ) (payload : Bytes)
    → (send cipher c l now payload).connection.closed ≡ c.closed
unfolding send next_packet
send-closed cipher c l now payload =
    sealed_transmit-closed (next_packet (maybe_hop_port c l now).0 now payload).0 l _ _ _
    ∙ hop-closed c l now

take_read-IsListening :
    (p : Port) (r : Connection × Result RecvError Bytes)
    → IsListening p
    → r.0.closed ≡ p.connection.closed
    → IsListening (take_read p r)
take_read-IsListening p (c, ok payload) (h, k) e = (h, e ∙ k)
take_read-IsListening p (c, err x) (h, k) e = (ground arith, e ∙ k)

act-IsListening :
    (cipher : Cipher) (p : Port) (a : Act)
    → a ≢ closing
    → IsListening p
    → IsListening (act cipher p a)
unfolding act set_last_roundtrip_success
act-IsListening cipher p (arrived now b) d (h, k) =
    let r = recv cipher p.connection now (take receive_mtu b) in
    subst (λ v. IsListening (if v then take_read p r else p)) (sym h)
      (take_read-IsListening p r (h, k) (recv-closed cipher p.connection now (take receive_mtu b)))
act-IsListening cipher p failed d (h, k) = (ground arith, k)
act-IsListening cipher p (sent l now payload) d (h, k) =
    (h, send-closed cipher p.connection l now payload ∙ k)
act-IsListening cipher p (confirmed t) d (h, k) = (h, ground arith)
act-IsListening cipher p closing d h = absurd (d refl)

acts-IsListening :
    (cipher : Cipher) (p : Port) (xs : List Act)
    → All (λ a. a ≢ closing) xs
    → IsListening p
    → IsListening (acts cipher p xs)
unfolding acts
acts-IsListening cipher p [] d h = h
acts-IsListening cipher p (a ∷ xs) (d, ds) h =
    acts-IsListening cipher (act cipher p a) xs ds (act-IsListening cipher p a d h)

-- A refusal that leaves the connection `c` as it was.
abbrev Leaves : Connection → RecvError → Connection × Result RecvError Bytes → Type 0
Leaves c e r = r.1 ≡ err e → r ≡ (c, err e)

guarded :
    (c : Connection) (e x : RecvError) (b : Bool) (r : Connection × Result RecvError Bytes)
    → Leaves c e r
    → Leaves c e (if b then (c, err x) else r)
guarded c e x true r f h = ap (λ o. (c, o)) h
guarded c e x false r f h = f h

receive_packet-Leaves :
    (c : Connection) (now : ℕ) (p : Packet) (e : RecvError) → Leaves c e (receive_packet c now p)
unfolding receive_packet
receive_packet-Leaves c now p e =
    guarded c e _ (not (is_to_client p.direction)) _
      (guarded c e _ (ltb p.seq c.expected_receiver_seq) _ (λ h. absurd cc))

receive_opened-Leaves :
    (c : Connection) (now : ℕ) (r : Result CryptoError Message) (e : RecvError)
    → Leaves c e (receive_opened c now r)
receive_opened-Leaves c now (err x) e h = ap (λ o. (c, o)) h
receive_opened-Leaves c now (ok m) e h = parsed (packet_from_message m) h
  where
    parsed : (r : Result PacketError Packet) → Leaves c e (receive_parsed c now r)
    parsed (err x) h = ap (λ o. (c, o)) h
    parsed (ok p) h = receive_packet-Leaves c now p e h

noise :
    (cipher : Cipher) (p : Port) (now : ℕ) (b : Bytes) (e : RecvError)
    → IsListening p
    → (recv cipher p.connection now (take receive_mtu b)).1 ≡ err e
    → act cipher p (arrived now b) ≡ p
unfolding act recv
noise cipher p now b e (h, k) refused =
    let r = recv cipher p.connection now (take receive_mtu b) in
    let still : (p.pumping && not p.connection.closed) ≡ p.pumping = ground arith in
    ap (λ v. if v then take_read p r else p) h
    ∙ ap (take_read p)
        (receive_opened-Leaves p.connection now (decrypt cipher (take receive_mtu b)) e refused)
    ∙ ap (λ v. record p { pumping = v }) still

-- Noise on the port changes nothing. As long as nobody calls `Close`: the goroutine goes on reading
-- whatever arrives; and where a datagram arrives that `Recv` refuses (it is forged, garbled, the
-- client's own or an old one), or a read fails, what comes of the whole run, the connection and the
-- payloads handed on in their order, is what comes of it without that read.
pub acts-noise :
    (cipher : Cipher) (p : Port) (before after : List Act) (now : ℕ) (b : Bytes) (e : RecvError)
    → p.pumping ≡ true
    → p.connection.closed ≡ false
    → All (λ a. a ≢ closing) before
    → (recv cipher (acts cipher p before).connection now (take receive_mtu b)).1 ≡ err e
    → ((acts cipher p before).pumping ≡ true)
      × (acts cipher p (before ++ arrived now b ∷ after) ≡ acts cipher p (before ++ after))
      × (acts cipher p (before ++ failed ∷ after) ≡ acts cipher p (before ++ after))
unfolding acts act
acts-noise cipher p before after now b e h k stays refused =
    let q = acts cipher p before in
    let listens : IsListening q = acts-IsListening cipher p before stays (h, k) in
    let still : (q.pumping && not q.connection.closed) ≡ q.pumping = ground (arith, listens) in
    (
      listens.0,
      acts-append cipher p before (arrived now b ∷ after)
          ∙ ap (λ r. acts cipher r after) (noise cipher q now b e listens refused)
          ∙ sym (acts-append cipher p before after),
      acts-append cipher p before (failed ∷ after)
          ∙ ap (λ v. acts cipher (record q { pumping = v }) after) still
          ∙ sym (acts-append cipher p before after),
    )
