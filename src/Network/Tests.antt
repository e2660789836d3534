-- ===== src/Network/Tests.antt =====
-- Runs of internal/network.
use gosh.Base.{
  some, get_elem?, ◌+◌, ◌-◌, [], ◌∷◌, ◌++◌, Bytes, length, take, replicate, true, false, ◌≡◌, refl,
  ap, ◌∙◌, ok, err, arith, length-append, take-append_length,
}
use gosh.Network.Connection.{Sent, Connection, Link, old_sequence, send, recv}
use gosh.Network.Connection.Nonces.{Call, send_all, send_all-nonce}
use gosh.Base.BigEndian.{uint64, uint16, put_uint64, put_uint32}
use gosh.Crypto.Session.{Cipher, IsCipher, decrypt}
use gosh.Network.Packet.{Packet, to_client, packet_from_message}
use gosh.Network.Connection.Budget.{longest, send_dials_twice}
use gosh.Network.Connection.Replay.{recv_all, recv-replay}

-- A cipher that only adds a tag.
abbrev pub tagging : Cipher
tagging = record {
  seal = λ n text. ok (text ++ replicate 16 0);
  open_sealed = λ n b. ok (take (length b - 16) b);
}

tagging-IsCipher : IsCipher tagging
tagging-IsCipher = record {
  seal-open = λ n text h. (
    text ++ replicate 16 0,
    refl,
    length-append text (replicate 16 0),
    ap (λ k. ok (take k (text ++ replicate 16 0)))
          (omega (arith, length-append text (replicate 16 0)))
        ∙ ap ok (take-append_length text (replicate 16 0)),
  );
}

abbrev pub dialed : Connection
dialed = record {
  sock = 3;
  opened = 3 ∷ [];
  closed = false;
  next_seq = 0;
  expected_receiver_seq = 0;
  saved_timestamp = 0;
  saved_timestamp_received_at = 0;
  have_saved_timestamp = false;
  samples = [];
  last_heard = 0;
  last_port_choice = 1000;
  last_roundtrip_success = 0;
}

abbrev pub unplugged : Link
unplugged = record {
  dialed_sock = 4;
  hop_dials = false;
  writes = false;
  redials = true;
  rewrites = false;
  dialed_at = 20000;
}

abbrev greeting : Packet
greeting = record {
  seq = 4;
  direction = to_client;
  timestamp = 513;
  timestamp_reply = 65535;
  payload = 1 ∷ [];
}

send_dials_twice_example : longest (send tagging dialed unplugged 20000 (1 ∷ [])) ≡ 4000
send_dials_twice_example =
    send_dials_twice tagging dialed unplugged 20000 (1 ∷ []) tagging-IsCipher refl refl refl refl
      refl

-- `greeting` sealed.
abbrev pub datagram : Bytes
datagram = 128 ∷ 0 ∷ 0 ∷ 0 ∷ 0 ∷ 0 ∷ 0 ∷ 4 ∷ (2 ∷ 1 ∷ 255 ∷ 255 ∷ 1 ∷ []) ++ replicate 16 0

accepted : (recv tagging dialed 3000 datagram).1 ≡ ok (1 ∷ [])
unfolding recv decrypt packet_from_message uint64 uint16 put_uint64 put_uint32
accepted = refl

recv-replay_example :
    recv tagging
      (recv_all tagging (recv tagging dialed 3000 datagram).0 ((3100, 7 ∷ []) ∷ []))
      4000
      datagram
    ≡ (
      recv_all tagging (recv tagging dialed 3000 datagram).0 ((3100, 7 ∷ []) ∷ []),
      err old_sequence,
    )
recv-replay_example =
    recv-replay tagging dialed 3000 4000 datagram (1 ∷ []) ((3100, 7 ∷ []) ∷ []) accepted

abbrev first_call : Call
first_call = record { link = unplugged; now = 5000; payload = 1 ∷ [] }

abbrev second_call : Call
second_call = record { link = unplugged; now = 5010; payload = 2 ∷ [] }

abbrev second_sent : Sent
second_sent =
    send tagging (send tagging dialed unplugged 5000 (1 ∷ [])).connection unplugged 5010 (2 ∷ [])

second_of_two :
    get_elem? (send_all tagging dialed (first_call ∷ second_call ∷ [])) 1 ≡ some second_sent
unfolding send_all
second_of_two = refl

send_all-nonce_example : uint64 (take 8 second_sent.datagram) ≡ dialed.next_seq + 1
send_all-nonce_example =
    send_all-nonce tagging dialed (first_call ∷ second_call ∷ []) 1 second_sent tagging-IsCipher
      (omega arith) second_of_two
