-- ===== src/Transport/Tests.antt =====
-- Runs of internal/transport on concrete datagrams.
use gosh.Transport.Sender.{Conn, new_sender}
use gosh.Transport.Send.{tick, process_acknowledgment_through}
use gosh.Transport.Send.Bounds.{IsBounded}
use gosh.Transport.Send.Ticks.{tick-IsBounded}
use gosh.Transport.Receiver.{new_transport, receive}
use gosh.Transport.Receiver.Accepted.{IsSafe, instruction_of, receive-IsSafe}
use gosh.Base.{
  ◌==◌, if◌then◌else◌, ℕ, ◌+◌, List, [], ◌∷◌, map, Bytes, length, take, ◌≡◌, refl, arith, ok, err,
  some, true, false, Result,
}
use gosh.Transport.Error.{Zlib, ZlibError, bad_header}
use gosh.Transport.Fragment.{Fragment, Fragmenter, marshal, renumber, make_fragments}
use gosh.Transport.Assembly.{Assembly, new_assembly, ingest}
use gosh.Transport.Assembly.InOrder.{ingest_all, waiting}
use gosh.Transport.Delivery.{IsZlib, make_fragments-ingest_all}

-- A compression that only marks what it wrote.
pub stored_read : Bytes → ℕ → Result ZlibError Bytes
stored_read [] n = err bad_header
stored_read (c ∷ b) n = if c == 120 then ok (take n b) else err bad_header

abbrev pub stored : Zlib
stored = record { compress = λ b. 120 ∷ b; read = stored_read }

pub stored-IsZlib : IsZlib stored
unfolding stored_read
stored-IsZlib = record { read-compress = λ b n. refl }

abbrev fragmenter : Fragmenter
fragmenter = record { next_id = 7; last_payload = []; last_mtu = 0 }

make_fragments-ingest_all_example :
    (frags : List Fragment) × (n : ℕ) × (a' : Assembly) × (make_fragments stored fragmenter
        (1 ∷ 2 ∷ 3 ∷ 4 ∷ [])
        12
      ≡ some (renumber fragmenter (120 ∷ 1 ∷ 2 ∷ 3 ∷ 4 ∷ []) 12, frags))
    × (length frags ≡ n + 1)
    × (ingest_all stored new_assembly (map marshal frags)
        ≡ (a', waiting n (ok (some (1 ∷ 2 ∷ 3 ∷ 4 ∷ [])))))
    × (a'.have_id ≡ false)
make_fragments-ingest_all_example =
    make_fragments-ingest_all stored fragmenter (1 ∷ 2 ∷ 3 ∷ 4 ∷ []) 12 new_assembly stored-IsZlib
      (omega arith) refl (omega arith) (omega arith) (omega arith)

abbrev repaint : Bytes
repaint =
    marshal
      (record { id = 1; num = 0; final = true; contents = 120 ∷ 8 ∷ 2 ∷ 24 ∷ 1 ∷ 50 ∷ 1 ∷ 9 ∷ [] })

receive-IsSafe_example :
    IsSafe
      (λ b. true)
      (instruction_of (ingest stored (new_transport 5).assembly repaint).1)
      (new_transport 5)
      (receive stored (λ b. true) (new_transport 5) repaint).0
unfolding new_sender
receive-IsSafe_example = receive-IsSafe stored (λ b. true) (new_transport 5) repaint refl

abbrev conn : Conn
conn = record {
  half_srtt = 500;
  timeout = 1000;
  mtu = 472;
  sends = λ b. true;
  burst = 9;
  chaff = 1 ∷ 2 ∷ [];
}

new_sender-IsBounded : IsBounded (new_sender 5)
unfolding new_sender
new_sender-IsBounded = record { known = omega arith; few = omega arith; in_range = omega arith }

tick-IsBounded_example :
    IsBounded (tick stored (new_sender 5) conn 5).sender
    × IsBounded (process_acknowledgment_through (new_sender 5) 0)
tick-IsBounded_example = tick-IsBounded stored (new_sender 5) conn 5 0 new_sender-IsBounded
