-- ===== src/Client/Pump.antt =====
-- internal/client/client.go: the goroutine of `Run` that reads the socket through `Recv` of
-- internal/network, while the event loop sends on the same connection, and the one that reads the input.
-- The channel to the loop is the list of what was handed on: a full channel holds a goroutine up and
-- loses nothing.
use gosh.Base.{
  length, append-nil, ℕ, List, [], ◌∷◌, ◌++◌, Bytes, Bool, true, false, not, ◌&&◌, if◌then◌else◌,
  Result, ok, err, take, ◌≡◌, refl, ap, ltb, arith,
}
use gosh.Crypto.Session.{Cipher}
use gosh.Network.Connection.{
  Connection, Link, RecvError, close, set_last_roundtrip_success, send, recv,
}

-- `receiveMTU`
abbrev pub receive_mtu : ℕ
receive_mtu = 2048

-- What happens to a connection, in the order in which it does: a read that gives a datagram, one
-- that fails or times out, and the other goroutine's calls.
pub data Act : Type 0 where
  arrived : ℕ → Bytes → Act
  failed : Act
  sent : Link → ℕ → Bytes → Act
  confirmed : ℕ → Act
  closing : Act

-- The connection, whether the goroutine still reads, and the payloads that it handed on.
pub record Port : Type 0 where
  pub connection : Connection
  pub pumping : Bool
  pub handed : List Bytes

-- What `Recv` returns; an error ends the goroutine where the connection is closed.
abbrev pub take_read : Port → Connection × Result RecvError Bytes → Port
take_read p (c, ok payload) = record p { connection = c; handed = p.handed ++ payload ∷ [] }
take_read p (c, err e) = record p { connection = c; pumping = p.pumping && not c.closed }

unfoldable pub act : Cipher → Port → Act → Port
unfolding recv send close set_last_roundtrip_success
act cipher p (arrived now b) =
    if p.pumping then take_read p (recv cipher p.connection now (take receive_mtu b)) else p
act cipher p failed = record p { pumping = p.pumping && not p.connection.closed }
act cipher p (sent l now payload) = record p {
  connection = (send cipher p.connection l now payload).connection;
}
act cipher p (confirmed t) = record p { connection = set_last_roundtrip_success p.connection t }
act cipher p closing = record p { connection = close p.connection }

unfoldable pub acts : Cipher → Port → List Act → Port
unfolding act
acts cipher p [] = p
acts cipher p (a ∷ xs) = acts cipher (act cipher p a) xs

-- The goroutine that reads the input: what each read gives, and whether it ends the input, and the
-- chunks that are handed on.
unfoldable pub pump_input : List (Bytes × Bool) → List Bytes
pump_input [] = []
pump_input ((b, ended) ∷ reads) =
    let next = pump_input reads in
    let rest = if ended then [] else next in if ltb 0 (length b) then b ∷ rest else rest

joined : List Bytes → Bytes
joined [] = []
joined (b ∷ chunks) = b ++ joined chunks

-- What is read up to the end, what comes with the end included.
read_bytes : List (Bytes × Bool) → Bytes
read_bytes [] = []
read_bytes ((b, true) ∷ reads) = b
read_bytes ((b, false) ∷ reads) = b ++ read_bytes reads

some_read : (c : ℕ) (b : Bytes) → ltb 0 (length (c ∷ b)) ≡ true
some_read c b = ground arith

-- Every byte of the input up to its end is handed on, in order.
pump_input-joined : (reads : List (Bytes × Bool)) → joined (pump_input reads) ≡ read_bytes reads
unfolding pump_input joined read_bytes
pump_input-joined [] = refl
pump_input-joined (([], true) ∷ reads) = refl
pump_input-joined ((c ∷ b, true) ∷ reads) = rw (some_read c b) (append-nil (c ∷ b))
pump_input-joined (([], false) ∷ reads) = pump_input-joined reads
pump_input-joined ((c ∷ b, false) ∷ reads) =
    rw (some_read c b) (ap (λ r. (c ∷ b) ++ r) (pump_input-joined reads))
