-- ===== src/Network/Connection.antt =====
-- internal/network/connection.go: the numbers and the clock of a `Connection`, `redial`,
-- `Close`, `Send` and `Recv`.
-- The goroutines and the locks are left out, and a socket is a number: what it does in a call is
-- that call's `Link`. Times are milliseconds since Go's zero time; the 16 bits of a
-- packet count from 1970 in the source, which adds a constant to each of them. The measurements of `Recv` are kept
-- as `samples`; Network/Dial makes the averages `srtt` and `rttvar` of them.
pub mod Budget
pub mod Nonces
pub mod Replay
pub mod Sockets
use gosh.Base.{
  ℕ, ◌+◌, ◌-◌, ◌%◌, List, [], ◌∷◌, Bytes, Bool, true, false, not, ◌&&◌, ◌||◌, ltb, ◌==◌,
  if◌then◌else◌, Option, none, some, Result, ok, err,
}
use gosh.Crypto.Session.{CryptoError, Cipher, Message, encrypt, decrypt}
use gosh.Network.Packet.{
  Packet, PacketError, Direction, to_server, to_client, ts_missing, packet_from_message, to_message,
  timestamp16, timestamp_diff,
}

abbrev pub port_hop_interval : ℕ
port_hop_interval = 10000

-- `sock` is the current socket, and `opened` those that are not closed.
pub record Connection : Type 0 where
  pub sock : ℕ
  pub opened : List ℕ
  pub closed : Bool
  pub next_seq : ℕ
  pub expected_receiver_seq : ℕ
  pub saved_timestamp : ℕ
  pub saved_timestamp_received_at : ℕ
  pub have_saved_timestamp : Bool
  pub samples : List ℕ
  pub last_heard : ℕ
  pub last_port_choice : ℕ
  pub last_roundtrip_success : ℕ

-- What the network does in one `Send`: whether the dial of a port hop succeeds, the first write, the
-- dial behind a failed write, and the write behind that; when a dial is done, and the socket that it
-- gives.
pub record Link : Type 0 where
  pub dialed_sock : ℕ
  pub hop_dials : Bool
  pub writes : Bool
  pub redials : Bool
  pub rewrites : Bool
  pub dialed_at : ℕ

pub data SendError : Type 0 where
  seal_failed : CryptoError → SendError
  write_failed : SendError
  write_and_dial_failed : SendError

-- The outcome of one `Send`: what it did to the connection, the datagram it sealed, and how often
-- it dialed and wrote.
pub record Sent : Type 0 where
  pub connection : Connection
  pub datagram : Bytes
  pub dials : ℕ
  pub writes : ℕ
  pub outcome : Option SendError

unfoldable pub set_last_roundtrip_success : Connection → ℕ → Connection
set_last_roundtrip_success c t =
    if ltb c.last_roundtrip_success t then record c { last_roundtrip_success = t } else c

abbrev pub is_due : Connection → ℕ → Bool
is_due c now =
    ltb port_hop_interval (now - c.last_port_choice)
    && ltb port_hop_interval (now - c.last_roundtrip_success)

-- The sockets left open behind a close.
unfoldable pub close_sock : ℕ → List ℕ → List ℕ
close_sock sock [] = []
close_sock sock (x ∷ xs) = let rest = close_sock sock xs in if x == sock then rest else x ∷ rest

-- The part of `redial` behind a dial that succeeds: the new socket takes the old one's place.
unfoldable pub redial : Connection → Link → Connection
redial c l = record c {
  sock = l.dialed_sock;
  opened = close_sock c.sock (l.dialed_sock ∷ c.opened);
  last_port_choice = l.dialed_at;
}

-- `Close`
unfoldable pub close : Connection → Connection
close c = record c { closed = true; opened = close_sock c.sock c.opened }

-- `maybeHopPort`: the connection, whether it redialed, and how often it dialed.
unfoldable pub maybe_hop_port : Connection → Link → ℕ → Connection × Bool × ℕ
unfolding redial
maybe_hop_port c l now =
    if not (is_due c now)
    then (c, false, 0)
    else if l.hop_dials
    then (redial c l, true, 1)
    else (record c { last_port_choice = now }, false, 1)

abbrev held_for : Connection → ℕ → ℕ
held_for c now = now - c.saved_timestamp_received_at

abbrev skip_missing : ℕ → ℕ
skip_missing r = if r == ts_missing then (r + 1) % 65536 else r

abbrev echoes : Connection → ℕ → Bool
echoes c now = c.have_saved_timestamp && ltb (held_for c now) 1000

-- The timestamp that a packet sent now answers.
unfoldable pub reply_at : Connection → ℕ → ℕ
reply_at c now =
    if echoes c now
    then skip_missing ((c.saved_timestamp + held_for c now % 65536) % 65536)
    else ts_missing

-- The packet of a `Send`, and the connection once it is numbered.
unfoldable pub next_packet : Connection → ℕ → Bytes → Connection × Packet
unfolding reply_at
next_packet c now payload = (
  record c {
    next_seq = (c.next_seq + 1) % 18446744073709551616;
    have_saved_timestamp = if echoes c now then false else c.have_saved_timestamp;
  },
  record {
    seq = c.next_seq;
    direction = to_server;
    timestamp = timestamp16 now;
    timestamp_reply = reply_at c now;
    payload = payload;
  },
)

-- What follows the sealing: a write, and one more behind a new dial where it failed, unless the
-- port was hopped in this call.
unfoldable pub transmit : Connection → Link → Bool → ℕ → Bytes → Sent
unfolding redial
transmit c l hopped dials datagram =
    if l.writes
    then record { connection = c; datagram = datagram; dials = dials; writes = 1; outcome = none }
    else if c.closed || hopped
    then record {
      connection = c;
      datagram = datagram;
      dials = dials;
      writes = 1;
      outcome = some write_failed;
    }
    else if not l.redials
    then record {
      connection = c;
      datagram = datagram;
      dials = dials + 1;
      writes = 1;
      outcome = some write_and_dial_failed;
    }
    else record {
      connection = redial c l;
      datagram = datagram;
      dials = dials + 1;
      writes = 2;
      outcome = if l.rewrites then none else some write_failed;
    }

abbrev pub sealed_transmit : Connection → Link → Bool → ℕ → Result CryptoError Bytes → Sent
sealed_transmit c l hopped dials (err e) = record {
  connection = c;
  datagram = [];
  dials = dials;
  writes = 0;
  outcome = some (seal_failed e);
}
sealed_transmit c l hopped dials (ok datagram) = transmit c l hopped dials datagram

unfoldable pub send : Cipher → Connection → Link → ℕ → Bytes → Sent
unfolding maybe_hop_port next_packet transmit
send cipher c l now payload =
    let (c, hopped, dials) = maybe_hop_port c l now in
    let (c, p) = next_packet c now payload in
    sealed_transmit c l hopped dials (encrypt cipher (to_message p))

pub data RecvError : Type 0 where
  not_sealed : CryptoError → RecvError
  bad_packet : PacketError → RecvError
  wrong_direction : RecvError
  old_sequence : RecvError

-- The packet is fresh: its number and its timestamps are taken over.
unfoldable pub accept : Connection → ℕ → Packet → Connection
accept c now p = record c {
  expected_receiver_seq = (p.seq + 1) % 18446744073709551616;
  last_heard = now;
  saved_timestamp = p.timestamp;
  saved_timestamp_received_at = now;
  have_saved_timestamp = true;
  samples =
      if p.timestamp_reply == ts_missing
      then c.samples
      else timestamp_diff (timestamp16 now) p.timestamp_reply ∷ c.samples;
}

abbrev pub is_to_client : Direction → Bool
is_to_client to_client = true
is_to_client to_server = false

unfoldable pub receive_packet : Connection → ℕ → Packet → Connection × Result RecvError Bytes
unfolding accept
receive_packet c now p =
    if not (is_to_client p.direction)
    then (c, err wrong_direction)
    else if ltb p.seq c.expected_receiver_seq
    then (c, err old_sequence)
    else (accept c now p, ok p.payload)

abbrev pub receive_parsed :
    Connection → ℕ → Result PacketError Packet → Connection × Result RecvError Bytes
receive_parsed c now (err e) = (c, err (bad_packet e))
receive_parsed c now (ok p) = receive_packet c now p

abbrev pub receive_opened :
    Connection → ℕ → Result CryptoError Message → Connection × Result RecvError Bytes
receive_opened c now (err e) = (c, err (not_sealed e))
receive_opened c now (ok m) = receive_parsed c now (packet_from_message m)

-- `Recv`, on a datagram that the socket read at `now`.
unfoldable pub recv : Cipher → Connection → ℕ → Bytes → Connection × Result RecvError Bytes
unfolding receive_packet
recv cipher c now b = receive_opened c now (decrypt cipher b)
