-- ===== src/Transport/Send/Synced.antt =====
-- internal/transport/sender.go: the operations of a `sender` keep its states a chain.
use gosh.Base.{
  ℕ, suc, ◌+◌, ◌-◌, ◌%◌, List, [], ◌∷◌, ◌++◌, Bytes, length, take, drop, Bool, true, false, ltb,
  leb, ◌==◌, ◌&&◌, if◌then◌else◌, some, Option-cases, Bool-cases, inl, inr, ◌≡◌, refl, sym, subst,
  ◌∙◌, arith,
}
use gosh.Wire.Messages.{UserEvent}
use gosh.Statesync.UserStream.{subtract}
use gosh.Transport.Error.{Zlib}
use gosh.Transport.Sender.{
  Sender, TimestampedState, Conn, state_at, back, update_assumed_receiver_state, rationalize_states,
  hurry_ack, schedule_send, schedule_shutdown_ack, calculate_timers, shutdown_num,
}
use gosh.Transport.Send.{
  Sending, add_sent_state, send_in_fragments, ack_sent, send_empty_ack, new_num, touch_back,
  receiver_sent, send_to_receiver, unhurried, due_ack, nothing_due, tick_due, is_waiting, tick,
  acknowledged, process_acknowledgment_through,
}
use gosh.Transport.Send.Chain.{
  IsChain, IsChained, IsAlike, IsChained-alike, IsChain-cut, IsChain-snoc, IsChain-erase,
  IsChain-touch_back,
}

rationalize_states-IsChained : (s : Sender) → IsChained s → IsChained (rationalize_states s)
unfolding rationalize_states subtract
rationalize_states-IsChained s h =
    let known = (state_at s.sent_states 0).state in
    IsChain-cut (length known.events) (λ x. record x { state = subtract x.state known }) (λ x. refl)
      s.sent_states s.current_state.events h

schedule_send-IsAlike : (s : Sender) (c : Conn) (now : ℕ) → IsAlike s (schedule_send s c now)
unfolding schedule_send
schedule_send-IsAlike s c now = ground arith

hurry_ack-IsAlike : (s : Sender) (now : ℕ) → IsAlike s (hurry_ack s now)
unfolding hurry_ack
hurry_ack-IsAlike s now = ground arith

schedule_shutdown_ack-IsAlike : (s : Sender) (c : Conn) → IsAlike s (schedule_shutdown_ack s c)
unfolding schedule_shutdown_ack
schedule_shutdown_ack-IsAlike s c = ground arith

-- The timers leave the states as `rationalizeStates` does.
pub calculate_timers-IsAlike :
    (s : Sender) (c : Conn) (now : ℕ)
    → IsAlike
        (rationalize_states (update_assumed_receiver_state s c now))
        (calculate_timers s c now)
unfolding calculate_timers
calculate_timers-IsAlike s c now =
    let s2 = rationalize_states (update_assumed_receiver_state s c now) in
    let s3 = hurry_ack s2 now in
    let s4 = schedule_send s3 c now in
    let (a, a') = hurry_ack-IsAlike s2 now in
    let (b, b') = schedule_send-IsAlike s3 c now in
    let (d, d') = schedule_shutdown_ack-IsAlike s4 c in (d ∙ b ∙ a, d' ∙ b' ∙ a')

update_assumed-IsChained :
    (s : Sender) (c : Conn) (now : ℕ)
    → IsChained s
    → IsChained (update_assumed_receiver_state s c now)
unfolding update_assumed_receiver_state
update_assumed-IsChained s c now h = h

pub calculate_timers-IsChained :
    (s : Sender) (c : Conn) (now : ℕ) → IsChained s → IsChained (calculate_timers s c now)
calculate_timers-IsChained s c now h =
    IsChained-alike (rationalize_states (update_assumed_receiver_state s c now))
      (calculate_timers s c now) (calculate_timers-IsAlike s c now)
      (rationalize_states-IsChained (update_assumed_receiver_state s c now)
        (update_assumed-IsChained s c now h))

erased-IsChain :
    (e : ℕ) (xs : List TimestampedState) (now : List UserEvent)
    → IsChain xs now
    → IsChain (take e xs ++ drop (e + 1) xs) now
erased-IsChain e xs now h =
    subst (λ m. IsChain (take e xs ++ drop m xs) now) {x = suc e} (omega arith)
      (IsChain-erase e xs now h)

add_sent_state-IsChained :
    (s : Sender) (now num : ℕ) → IsChained s → IsChained (add_sent_state s now num)
unfolding add_sent_state
add_sent_state-IsChained s now num h =
    let sent : TimestampedState = record { sent_at = now; num = num; state = s.current_state } in
    let states = s.sent_states ++ sent ∷ [] in
    let grown : IsChain states s.current_state.events =
      IsChain-snoc s.sent_states s.current_state.events sent refl h in
    elim (Bool-cases (ltb 32 (length states))) [
      | inl e ↦ rw e (erased-IsChain (length states - 16) states s.current_state.events grown)
      | inr e ↦ rw e grown
    ]

send_in_fragments-IsAlike :
    (z : Zlib) (s : Sender) (c : Conn) (diff : Bytes) (num : ℕ)
    → IsAlike s (send_in_fragments z s c diff num).sender
unfolding send_in_fragments
send_in_fragments-IsAlike z s c diff num = (refl, refl)

sent_in_fragments-IsChained :
    (z : Zlib) (s : Sender) (c : Conn) (diff : Bytes) (num : ℕ)
    → IsChained s
    → IsChained (send_in_fragments z s c diff num).sender
sent_in_fragments-IsChained z s c diff num h =
    IsChained-alike s (send_in_fragments z s c diff num).sender
      (send_in_fragments-IsAlike z s c diff num) h

ack_sent-IsChained :
    (r : Sending) (c : Conn) (now num : ℕ)
    → IsChained r.sender
    → IsChained (ack_sent r c now num).sender
ack_sent-IsChained r c now num h = elim (Bool-cases r.sent) [
  | inl e ↦ rw e (add_sent_state-IsChained r.sender now num h)
  | inr e ↦ rw e h
]

send_empty_ack-IsChained :
    (z : Zlib) (s : Sender) (c : Conn) (now : ℕ)
    → IsChained s
    → IsChained (send_empty_ack z s c now).sender
unfolding send_empty_ack
send_empty_ack-IsChained z s c now h =
    let num =
      if s.shutdown_in_progress then shutdown_num else ((back s).num + 1) % 18446744073709551616 in
    ack_sent-IsChained (send_in_fragments z s c [] num) c now num
      (sent_in_fragments-IsChained z s c [] num h)

maybe_touched-IsChained :
    (s : Sender) (known : Bool) (now : ℕ)
    → IsChained s
    → IsChained (if known then record s { sent_states = touch_back s.sent_states now } else s)
maybe_touched-IsChained s true now h = IsChain-touch_back s.sent_states now s.current_state.events h
maybe_touched-IsChained s false now h = h

receiver_sent-IsChained :
    (r : Sending) (known : Bool) (now num : ℕ)
    → IsChained r.sender
    → IsChained (receiver_sent r known now num).sender
receiver_sent-IsChained r true now num h = elim (Bool-cases r.sent) [
  | inl e ↦ rw e h
  | inr e ↦ rw e h
]
receiver_sent-IsChained r false now num h = elim (Bool-cases r.sent) [
  | inl e ↦ rw e (add_sent_state-IsChained r.sender now num h)
  | inr e ↦ rw e h
]

send_to_receiver-IsChained :
    (z : Zlib) (s : Sender) (c : Conn) (now : ℕ) (diff : Bytes)
    → IsChained s
    → IsChained (send_to_receiver z s c now diff).sender
unfolding send_to_receiver
send_to_receiver-IsChained z s c now diff h =
    let num = new_num s in
    let known = num == (back s).num in
    let s' = if known then record s { sent_states = touch_back s.sent_states now } else s in
    receiver_sent-IsChained (send_in_fragments z s' c diff num) known now num
      (sent_in_fragments-IsChained z s' c diff num (maybe_touched-IsChained s known now h))

unhurried-IsChained : (r : Sending) → IsChained r.sender → IsChained (unhurried r).sender
unhurried-IsChained r h = elim (Bool-cases r.sent) [ inl e ↦ rw e h | inr e ↦ rw e h ]

due_ack-IsChained :
    (z : Zlib) (s : Sender) (c : Conn) (now : ℕ)
    → IsChained s
    → IsChained (due_ack z s c now).sender
due_ack-IsChained z s c now h = elim (Bool-cases (leb s.next_ack_time now)) [
  | inl e ↦
      rw e (unhurried-IsChained (send_empty_ack z s c now) (send_empty_ack-IsChained z s c now h))
  | inr e ↦ rw e h
]

idle-IsChained : (r : Sending) (now : ℕ) → IsChained r.sender → IsChained (nothing_due r now).sender
idle-IsChained r now h =
    elim (Bool-cases (r.sent && (r.sender.have_send_time && leb r.sender.next_send_time now))) [
      | inl e ↦ rw e h
      | inr e ↦ rw e h
    ]

tick_due-IsChained :
    (z : Zlib) (s : Sender) (c : Conn) (now : ℕ) (diff : Bytes)
    → IsChained s
    → IsChained (tick_due z s c now diff).sender
tick_due-IsChained z s c now diff h = elim (Bool-cases (length diff == 0)) [
  | inl e ↦ rw e (idle-IsChained (due_ack z s c now) now (due_ack-IsChained z s c now h))
  | inr e ↦ rw e (
      unhurried-IsChained (send_to_receiver z s c now diff)
        (send_to_receiver-IsChained z s c now diff h))
]

pub tick-IsChained :
    (z : Zlib) (s : Sender) (c : Conn) (now : ℕ) → IsChained s → IsChained (tick z s c now).sender
unfolding tick
tick-IsChained z s c now h = elim (Bool-cases (is_waiting (calculate_timers s c now) now)) [
  | inl e ↦ rw e (calculate_timers-IsChained s c now h)
  | inr e ↦ rw e (
      tick_due-IsChained z (calculate_timers s c now) c now _
        (calculate_timers-IsChained s c now h))
]

acknowledged-IsChain :
    (ack : ℕ) (xs kept : List TimestampedState) (now : List UserEvent)
    → acknowledged ack xs ≡ some kept
    → IsChain xs now
    → IsChain kept now
unfolding acknowledged
acknowledged-IsChain ack [] kept now e h = absurd cc
acknowledged-IsChain ack (x ∷ xs) kept now e h = elim (Bool-cases (x.num == ack)) [
  | inl q ↦
      let found : some (x ∷ xs) ≡ some kept = sym (rw q refl) ∙ e in
      subst (λ l. IsChain l now) {x = x ∷ xs} (cc) h
  | inr q ↦ acknowledged-IsChain ack xs kept now (sym (rw q refl) ∙ e) h.2
]

pub acknowledgment-IsChained :
    (s : Sender) (ack : ℕ) → IsChained s → IsChained (process_acknowledgment_through s ack)
unfolding process_acknowledgment_through
acknowledgment-IsChained s ack h = elim (Option-cases (acknowledged ack s.sent_states)) [
  | inl e ↦ rw e h
  | inr (kept, e) ↦ rw e (acknowledged-IsChain ack s.sent_states kept s.current_state.events e h)
]
