-- ===== src/Transport/Receiver.antt =====
-- internal/transport/transport.go: `Transport` and its `Recv`. The `Apply` callback is a test that
-- says which diffs it takes, and `applied` lists those it took; `last_roundtrip` is the time that
-- was last reported to the connection.
pub mod Accepted
pub mod Latch
use gosh.Base.{
  ℕ, List, [], ◌∷◌, ◌++◌, Bytes, length, Bool, true, false, not, ltb, leb, ◌==◌, if◌then◌else◌,
  Option, none, some, Result, ok, err,
}
use gosh.Wire.Error.{WireError}
use gosh.Wire.Instruction.{Instruction, unmarshal_instruction}
use gosh.Transport.Error.{TransportError, Zlib}
use gosh.Transport.Assembly.{Assembly, new_assembly, ingest}
use gosh.Transport.Sender.{
  Sender, new_sender, state_at, set_ack_num, set_data_ack, protocol_version, shutdown_num,
}
use gosh.Transport.Send.{process_acknowledgment_through}

pub record Transport : Type 0 where
  pub sender : Sender
  pub assembly : Assembly
  pub latest_num : ℕ
  pub applied : List Bytes
  pub last_roundtrip : ℕ
  pub remote_shutdown : Bool

pub data RecvError : Type 0 where
  not_assembled : TransportError → RecvError
  bad_instruction : WireError → RecvError
  version_mismatch : RecvError
  apply_failed : RecvError

abbrev pub new_transport : ℕ → Transport
new_transport now = record {
  sender = new_sender now;
  assembly = new_assembly;
  latest_num = 0;
  applied = [];
  last_roundtrip = 0;
  remote_shutdown = false;
}

-- The state is taken over, and acknowledged from now on.
unfoldable pub take_state : Transport → ℕ → Transport
take_state t num = record t { latest_num = num; sender = set_ack_num t.sender num }

-- A diff is applied only to the state on screen, and only once.
unfoldable pub accept_state :
    (Bytes → Bool) → Transport → Instruction → Transport × Option RecvError
unfolding take_state
accept_state applies t i =
    let owing = record t { sender = set_data_ack t.sender } in
    if leb i.new_num t.latest_num
    then (t, none)
    else if not (i.old_num == t.latest_num)
    then (t, none)
    else if length i.diff == 0
    then (take_state t i.new_num, none)
    else if applies i.diff
    then (take_state (record owing { applied = t.applied ++ i.diff ∷ [] }) i.new_num, none)
    else (owing, some apply_failed)

unfoldable pub heard : Transport → Instruction → Transport
unfolding state_at
heard t i =
    let s = process_acknowledgment_through t.sender i.ack_num in
    record t {
      sender = s;
      last_roundtrip = (state_at s.sent_states 0).sent_at;
      remote_shutdown = if i.new_num == shutdown_num then true else t.remote_shutdown;
    }

unfoldable pub receive_instruction :
    (Bytes → Bool) → Transport → Instruction → Transport × Option RecvError
unfolding accept_state heard
receive_instruction applies t i =
    if not (i.protocol_version == protocol_version)
    then (t, some version_mismatch)
    else accept_state applies (heard t i) i

abbrev pub receive_decoded :
    (Bytes → Bool) → Transport → Result WireError Instruction → Transport × Option RecvError
receive_decoded applies t (err e) = (t, some (bad_instruction e))
receive_decoded applies t (ok i) = receive_instruction applies t i

abbrev pub receive_assembled :
    (Bytes → Bool) → Transport → Result TransportError (Option Bytes) → Transport × Option RecvError
receive_assembled applies t (err e) = (t, some (not_assembled e))
receive_assembled applies t (ok none) = (t, none)
receive_assembled applies t (ok (some b)) = receive_decoded applies t (unmarshal_instruction b)

unfoldable pub receive : Zlib → (Bytes → Bool) → Transport → Bytes → Transport × Option RecvError
unfolding receive_instruction
receive z applies t payload =
    let (assembly, r) = ingest z t.assembly payload in
    receive_assembled applies (record t { assembly = assembly }) r
