-- ===== src/Transport/Receiver/Accepted.antt =====
-- internal/transport/transport.go: the server states that `Recv` accepts.
use gosh.Base.{
  Result-cases, ap, sym, true, false, ◌∙◌, ℕ, ◌<◌, [], ◌∷◌, ◌++◌, Bytes, length, Bool, leb, ◌==◌,
  Option, none, some, Result, ok, err, ◌≡◌, refl, Option-cases, inl, inr, Bool-cases, arith,
}
use gosh.Transport.Error.{TransportError, Zlib}
use gosh.Wire.Error.{WireError}
use gosh.Wire.Instruction.{Instruction, unmarshal_instruction}
use gosh.Transport.Assembly.{ingest}
use gosh.Transport.Sender.{Sender, set_ack_num, set_data_ack}
use gosh.Transport.Send.{process_acknowledgment_through, acknowledged}
use gosh.Transport.Receiver.{
  Transport, take_state, accept_state, heard, receive_instruction, receive_assembled, receive,
}

-- The instruction that is complete with a datagram.
abbrev pub instruction_of : Result TransportError (Option Bytes) → Option Instruction
instruction_of (err e) = none
instruction_of (ok none) = none
instruction_of (ok (some b)) = readable (unmarshal_instruction b)
  where
    readable : Result WireError Instruction → Option Instruction
    readable (err e) = none
    readable (ok i) = some i

-- It speaks this protocol, and leads from the state on screen to a later one.
abbrev pub IsDue : Transport → Instruction → Type 0
IsDue t i = (i.protocol_version ≡ 2) × (i.old_num ≡ t.latest_num) × (t.latest_num < i.new_num)

-- What an instruction does to the screen: one that is due is painted once, or, where it has no diff,
-- is taken over as it is; one that is not due, or whose diff is refused, does nothing.
pub data Shows (applies : Bytes → Bool) (i : Instruction) (t t' : Transport) : Type 0 where
  unchanged :
      (IsDue t i → ((length i.diff == 0) ≡ false) × (applies i.diff ≡ false))
      → t'.latest_num ≡ t.latest_num
      → t'.applied ≡ t.applied
      → Shows applies i t t'
  empty :
      IsDue t i
      → length i.diff ≡ 0
      → t'.latest_num ≡ i.new_num
      → t'.applied ≡ t.applied
      → Shows applies i t t'
  painted :
      IsDue t i
      → applies i.diff ≡ true
      → t'.latest_num ≡ i.new_num
      → t'.applied ≡ t.applied ++ i.diff ∷ []
      → Shows applies i t t'

-- And no instruction does nothing.
abbrev pub IsShown : (Bytes → Bool) → Option Instruction → Transport → Transport → Type 0
IsShown applies none t t' = (t'.latest_num ≡ t.latest_num) × (t'.applied ≡ t.applied)
IsShown applies (some i) t t' = Shows applies i t t'

-- The state on screen is the one that is acknowledged.
abbrev pub IsAcked : Transport → Type 0
IsAcked t = t.sender.ack_num ≡ t.latest_num

process_acknowledgment_through-ack_num :
    (s : Sender) (ack : ℕ) → (process_acknowledgment_through s ack).ack_num ≡ s.ack_num
unfolding process_acknowledgment_through
process_acknowledgment_through-ack_num s ack =
    elim (Option-cases (acknowledged ack s.sent_states)) [
      | inl e ↦ rw e refl
      | inr (kept, e) ↦ rw e refl
    ]

accept_state-IsAcked :
    (applies : Bytes → Bool) (t : Transport) (i : Instruction)
    → IsAcked t
    → IsAcked (accept_state applies t i).0
unfolding accept_state take_state set_ack_num set_data_ack
accept_state-IsAcked applies t i h = ground arith

accept_state-Shows :
    (applies : Bytes → Bool) (t : Transport) (i : Instruction)
    → i.protocol_version ≡ 2
    → Shows applies i t (accept_state applies t i).0
unfolding accept_state take_state set_ack_num set_data_ack
accept_state-Shows applies t i v = elim (Bool-cases (leb i.new_num t.latest_num)) [
  | inl e ↦ rw e (unchanged (λ due. absurd (ground (arith, due))) refl refl)
  | inr e ↦ elim (Bool-cases (i.old_num == t.latest_num)) [
    | inr k ↦ rw (e, k) (unchanged (λ due. absurd (ground (arith, due))) refl refl)
    | inl k ↦
        let due : IsDue t i = (v, ground arith, ground arith) in
        elim (Bool-cases (length i.diff == 0)) [
          | inl d ↦ rw (e, k, d) (empty due (ground arith) refl refl)
          | inr d ↦ elim (Bool-cases (applies i.diff)) [
            | inl a ↦ rw (e, k, d, a) (painted due a refl refl)
            | inr a ↦ rw (e, k, d, a) (unchanged (λ _. (d, a)) refl refl)
          ]
        ]
  ]
]

-- The transport that an instruction finds, with the same screen.
Shows-from :
    (applies : Bytes → Bool) (i : Instruction) (t u t' : Transport)
    → u.latest_num ≡ t.latest_num
    → u.applied ≡ t.applied
    → Shows applies i u t'
    → Shows applies i t t'
Shows-from applies i t u t' n a (unchanged f p q) =
    unchanged (λ due. f (due.0, due.1 ∙ sym n, omega (arith, n, due.2))) (p ∙ n) (q ∙ a)
Shows-from applies i t u t' n a (empty due d p q) =
    empty (due.0, due.1 ∙ n, omega (arith, n, due.2)) d p (q ∙ a)
Shows-from applies i t u t' n a (painted due d p q) =
    painted (due.0, due.1 ∙ n, omega (arith, n, due.2)) d p (q ∙ ap (λ r. r ++ i.diff ∷ []) a)

-- What holds of a step: the acknowledgment stays with the screen, and the screen changes as above.
abbrev pub IsSafe : (Bytes → Bool) → Option Instruction → Transport → Transport → Type 0
IsSafe applies o t t' = IsAcked t' × IsShown applies o t t'

receive_instruction-IsSafe :
    (applies : Bytes → Bool) (t : Transport) (i : Instruction)
    → IsAcked t
    → IsSafe applies (some i) t (receive_instruction applies t i).0
unfolding receive_instruction heard
receive_instruction-IsSafe applies t i h = elim (Bool-cases (i.protocol_version == 2)) [
  | inr e ↦ rw e (h, unchanged (λ due. absurd (ground (arith, due))) refl refl)
  | inl e ↦
      let acked : IsAcked (heard t i) =
        process_acknowledgment_through-ack_num t.sender i.ack_num ∙ h in
      rw e (
        accept_state-IsAcked applies (heard t i) i acked,
        Shows-from applies i t (heard t i) _ refl refl
            (accept_state-Shows applies (heard t i) i (ground arith)),
      )
]

receive_assembled-IsSafe :
    (applies : Bytes → Bool) (t : Transport) (r : Result TransportError (Option Bytes))
    → IsAcked t
    → IsSafe applies (instruction_of r) t (receive_assembled applies t r).0
receive_assembled-IsSafe applies t (err e) h = (h, (refl, refl))
receive_assembled-IsSafe applies t (ok none) h = (h, (refl, refl))
receive_assembled-IsSafe applies t (ok (some b)) h = elim (Result-cases (unmarshal_instruction b)) [
  | inr (e, q) ↦ rw q (h, (refl, refl))
  | inl (i, q) ↦ rw q (receive_instruction-IsSafe applies t i h)
]

IsShown-from :
    (applies : Bytes → Bool) (o : Option Instruction) (t u t' : Transport)
    → u.latest_num ≡ t.latest_num
    → u.applied ≡ t.applied
    → IsShown applies o u t'
    → IsShown applies o t t'
IsShown-from applies none t u t' n a (p, q) = (p ∙ n, q ∙ a)
IsShown-from applies (some i) t u t' n a s = Shows-from applies i t u t' n a s

-- Where the state on screen is the one that is acknowledged, a datagram changes the screen by the
-- instruction that it completes, and by nothing else: its diff is applied once exactly where it speaks
-- this protocol, its reference is the state on screen, its state is a later one, and `Apply` takes the
-- diff, and an empty diff needs no `Apply`; then its state is the one on screen. In every other case
-- screen and number stay. What is acknowledged stays the state on screen.
pub receive-IsSafe :
    (z : Zlib) (applies : Bytes → Bool) (t : Transport) (payload : Bytes)
    → IsAcked t
    → IsSafe applies
        (instruction_of (ingest z t.assembly payload).1)
        t
        (receive z applies t payload).0
unfolding receive
receive-IsSafe z applies t payload h =
    let (assembly, r) = ingest z t.assembly payload in
    let (acked, step) = receive_assembled-IsSafe applies (record t { assembly = assembly }) r h in
    (
      acked,
      IsShown-from applies (instruction_of r) t (record t { assembly = assembly }) _ refl refl step,
    )
