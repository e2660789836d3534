-- ===== src/Transport/Receiver/Latch.antt =====
-- internal/transport/transport.go: `Recv` leaves a shutdown that has begun as it is.
use gosh.Wire.Error.{WireError}
use gosh.Transport.Error.{TransportError, Zlib}
use gosh.Base.{
  Result, ok, err, leb, ◌==◌, ℕ, [], ◌∷◌, ◌++◌, Bytes, length, Bool, Option, none, some, Bool-cases,
  inl, inr,
}
use gosh.Transport.Assembly.{ingest}
use gosh.Wire.Instruction.{Instruction, unmarshal_instruction}
use gosh.Transport.Sender.{set_data_ack}
use gosh.Transport.Send.Latch.{
  IsShutting, acknowledgment-IsShutting, set_ack_num-IsShutting, set_data_ack-IsShutting,
}
use gosh.Transport.Receiver.{
  Transport, receive, receive_assembled, receive_decoded, receive_instruction, accept_state,
  take_state, heard,
}

-- The sender of a transport is shutting down.
take_state-IsShutting :
    (t : Transport) (n : ℕ) → IsShutting t.sender → IsShutting (take_state t n).sender
unfolding take_state
take_state-IsShutting t n h = set_ack_num-IsShutting t.sender n h

accept_state-IsShutting :
    (applies : Bytes → Bool) (t : Transport) (i : Instruction)
    → IsShutting t.sender
    → IsShutting (accept_state applies t i).0.sender
unfolding accept_state
accept_state-IsShutting applies t i h =
    let taken : IsShutting (take_state t i.new_num).sender = take_state-IsShutting t i.new_num h in
    let owing : IsShutting (set_data_ack t.sender) = set_data_ack-IsShutting t.sender h in
    let merged : IsShutting
        (take_state
          (record t { sender = set_data_ack t.sender; applied = t.applied ++ i.diff ∷ [] })
          i.new_num).sender =
      take_state-IsShutting
        (record t { sender = set_data_ack t.sender; applied = t.applied ++ i.diff ∷ [] }) i.new_num
        owing in
    elim (Bool-cases (leb i.new_num t.latest_num)) [
      | inl a ↦ rw a h
      | inr a ↦ elim (Bool-cases (i.old_num == t.latest_num)) [
        | inr b ↦ rw (a, b) h
        | inl b ↦ elim (Bool-cases (length i.diff == 0)) [
          | inl c ↦ rw (a, b, c) taken
          | inr c ↦ elim (Bool-cases (applies i.diff)) [
            | inl d ↦ rw (a, b, c, d) merged
            | inr d ↦ rw (a, b, c, d) owing
          ]
        ]
      ]
    ]

heard-IsShutting :
    (t : Transport) (i : Instruction) → IsShutting t.sender → IsShutting (heard t i).sender
unfolding heard
heard-IsShutting t i h = acknowledgment-IsShutting t.sender i.ack_num h

instruction-IsShutting :
    (applies : Bytes → Bool) (t : Transport) (i : Instruction)
    → IsShutting t.sender
    → IsShutting (receive_instruction applies t i).0.sender
unfolding receive_instruction
instruction-IsShutting applies t i h = elim (Bool-cases (i.protocol_version == 2)) [
  | inl e ↦ rw e (accept_state-IsShutting applies (heard t i) i (heard-IsShutting t i h))
  | inr e ↦ rw e h
]

assembled-IsShutting :
    (applies : Bytes → Bool) (t : Transport) (r : Result TransportError (Option Bytes))
    → IsShutting t.sender
    → IsShutting (receive_assembled applies t r).0.sender
assembled-IsShutting applies t (err e) h = h
assembled-IsShutting applies t (ok none) h = h
assembled-IsShutting applies t (ok (some b)) h = decoded (unmarshal_instruction b)
  where
    decoded : (r : Result WireError Instruction) → IsShutting (receive_decoded applies t r).0.sender
    decoded (err e) = h
    decoded (ok i) = instruction-IsShutting applies t i h

pub receive-IsShutting :
    (z : Zlib) (applies : Bytes → Bool) (t : Transport) (payload : Bytes)
    → IsShutting t.sender
    → IsShutting (receive z applies t payload).0.sender
unfolding receive
receive-IsShutting z applies t payload h =
    assembled-IsShutting applies (record t { assembly = (ingest z t.assembly payload).0 })
      (ingest z t.assembly payload).1 h
