-- ===== src/Transport/Send/Ticks.antt =====
-- internal/transport/sender.go: `Tick` and the acknowledgments keep the bounds of the sent states.
use gosh.Base.{
  Option-cases, if◌then◌else◌, ◌%◌, ◌∙◌, sym, inr, inl, Bool-cases, ℕ, ◌+◌, ◌≤◌, List, [], ◌∷◌,
  Bytes, length, Bool, true, false, ◌&&◌, leb, ◌==◌, some, ◌≡◌, refl, arith,
}
use gosh.Transport.Send.{
  due_ack, is_waiting, nothing_due, tick_due, unhurried, Sending, send_in_fragments, send_empty_ack,
  touch_back, send_to_receiver, new_num, tick, acknowledged, process_acknowledgment_through,
}
use gosh.Transport.Sender.{shutdown_num, Sender, TimestampedState, Conn, back, calculate_timers}
use gosh.Transport.Error.{Zlib}
use gosh.Transport.Send.Bounds.{
  IsBounded, IsBounded-like, calculate_timers-IsBounded, send_in_fragments-IsLike,
  ack_sent-IsBounded, touched-IsBounded, receiver_sent-IsBounded,
}

sent_in_fragments-IsBounded :
    (z : Zlib) (s : Sender) (c : Conn) (diff : Bytes) (num : ℕ)
    → IsBounded s
    → IsBounded (send_in_fragments z s c diff num).sender
sent_in_fragments-IsBounded z s c diff num b =
    IsBounded-like s (send_in_fragments z s c diff num).sender
      (send_in_fragments-IsLike z s c diff num) b

send_empty_ack-IsBounded :
    (z : Zlib) (s : Sender) (c : Conn) (now : ℕ)
    → IsBounded s
    → IsBounded (send_empty_ack z s c now).sender
unfolding send_empty_ack
send_empty_ack-IsBounded z s c now b =
    let next = ((back s).num + 1) % 18446744073709551616 in
    let num = if s.shutdown_in_progress then shutdown_num else next in
    ack_sent-IsBounded (send_in_fragments z s c [] num) c now num
      (sent_in_fragments-IsBounded z s c [] num b)

maybe_touched-IsBounded :
    (s : Sender) (known : Bool) (now : ℕ)
    → IsBounded s
    → IsBounded (if known then record s { sent_states = touch_back s.sent_states now } else s)
maybe_touched-IsBounded s true now b = touched-IsBounded s now b
maybe_touched-IsBounded s false now b = b

send_to_receiver-IsBounded :
    (z : Zlib) (s : Sender) (c : Conn) (now : ℕ) (diff : Bytes)
    → IsBounded s
    → IsBounded (send_to_receiver z s c now diff).sender
unfolding send_to_receiver
send_to_receiver-IsBounded z s c now diff b =
    let num = new_num s in
    let known = num == (back s).num in
    let s' = if known then record s { sent_states = touch_back s.sent_states now } else s in
    receiver_sent-IsBounded (send_in_fragments z s' c diff num) known now num
      (sent_in_fragments-IsBounded z s' c diff num (maybe_touched-IsBounded s known now b))

-- Flags of a sender that are no matter of its states.
unhurried-IsBounded : (r : Sending) → IsBounded r.sender → IsBounded (unhurried r).sender
unhurried-IsBounded r b = elim (Bool-cases r.sent) [
  | inl e ↦ rw e (IsBounded-like r.sender _ (refl, refl) b)
  | inr e ↦ rw e b
]

idle-IsBounded : (r : Sending) (now : ℕ) → IsBounded r.sender → IsBounded (nothing_due r now).sender
idle-IsBounded r now b =
    elim (Bool-cases (r.sent && (r.sender.have_send_time && leb r.sender.next_send_time now))) [
      | inl e ↦ rw e (IsBounded-like r.sender _ (refl, refl) b)
      | inr e ↦ rw e b
    ]

acked-IsBounded :
    (z : Zlib) (s : Sender) (c : Conn) (now : ℕ)
    → IsBounded s
    → IsBounded (due_ack z s c now).sender
acked-IsBounded z s c now b = elim (Bool-cases (leb s.next_ack_time now)) [
  | inl e ↦
      rw e (unhurried-IsBounded (send_empty_ack z s c now) (send_empty_ack-IsBounded z s c now b))
  | inr e ↦ rw e b
]

tick_due-IsBounded :
    (z : Zlib) (s : Sender) (c : Conn) (now : ℕ) (diff : Bytes)
    → IsBounded s
    → IsBounded (tick_due z s c now diff).sender
tick_due-IsBounded z s c now diff b = elim (Bool-cases (length diff == 0)) [
  | inl e ↦ rw e (idle-IsBounded (due_ack z s c now) now (acked-IsBounded z s c now b))
  | inr e ↦ rw e (
      unhurried-IsBounded (send_to_receiver z s c now diff)
        (send_to_receiver-IsBounded z s c now diff b))
]

acknowledged-kept :
    (ack : ℕ) (xs kept : List TimestampedState)
    → acknowledged ack xs ≡ some kept
    → (1 ≤ length kept) × (length kept ≤ length xs)
unfolding acknowledged
acknowledged-kept ack [] kept e = absurd cc
acknowledged-kept ack (x ∷ xs) kept e = elim (Bool-cases (x.num == ack)) [
  | inl q ↦
      let found : some (x ∷ xs) ≡ some kept = sym (rw q refl) ∙ e in
      let size : length (x ∷ xs) ≡ length kept = cc in (omega (arith, size), omega (arith, size))
  | inr q ↦
      let (n, k) = acknowledged-kept ack xs kept (sym (rw q refl) ∙ e) in (n, omega (arith, k))
]

acknowledgment-IsBounded :
    (s : Sender) (ack : ℕ) → IsBounded s → IsBounded (process_acknowledgment_through s ack)
unfolding process_acknowledgment_through
acknowledgment-IsBounded s ack b = elim (Option-cases (acknowledged ack s.sent_states)) [
  | inl e ↦ rw e b
  | inr (kept, e) ↦
      let (n, k) = acknowledged-kept ack s.sent_states kept e in
      rw e (record { known = n; few = omega (arith, k, b.few); in_range = omega (arith, n) })
]

-- Where a sender keeps a known-received state, 32 states at most, and takes the receiver to have one of
-- them, a call of `Tick` and an acknowledgment each leave it so, whatever the connection does.
pub tick-IsBounded :
    (z : Zlib) (s : Sender) (c : Conn) (now ack : ℕ)
    → IsBounded s
    → IsBounded (tick z s c now).sender × IsBounded (process_acknowledgment_through s ack)
unfolding tick
tick-IsBounded z s c now ack b = (
  elim (Bool-cases (is_waiting (calculate_timers s c now) now)) [
    | inl e ↦ rw e (calculate_timers-IsBounded s c now b)
    | inr e ↦ rw e (
        tick_due-IsBounded z (calculate_timers s c now) c now _
          (calculate_timers-IsBounded s c now b))
  ],
  acknowledgment-IsBounded s ack b,
)
