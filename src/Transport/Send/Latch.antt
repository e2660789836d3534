-- ===== src/Transport/Send/Latch.antt =====
-- internal/transport/sender.go: whether a shutdown is in progress is what `Tick`, acknowledgments and
-- input leave as it is.
use gosh.Base.{
  ℕ, ◌+◌, ◌%◌, List, [], Bytes, length, Bool, true, false, leb, ◌==◌, ◌&&◌, if◌then◌else◌, Option,
  none, some, ◌≡◌, Bool-cases, inl, inr, arith,
}
use gosh.Transport.Error.{Zlib}
use gosh.Transport.Sender.{
  Sender, TimestampedState, Conn, back, set_ack_num, set_data_ack, update_assumed_receiver_state,
  rationalize_states, hurry_ack, schedule_send, schedule_shutdown_ack, calculate_timers, wait_time,
  shutdown_num,
}
use gosh.Transport.Send.{
  Sending, add_sent_state, send_in_fragments, ack_sent, send_empty_ack, new_num, touch_back,
  receiver_sent, send_to_receiver, unhurried, due_ack, nothing_due, tick_ack, tick_due, is_waiting,
  tick, keep, acknowledged, process_acknowledgment_through,
}

-- The flag that says whether a shutdown is in progress.
abbrev pub HasFlag : Bool → Sender → Type 0
HasFlag b s = s.shutdown_in_progress ≡ b

abbrev pub IsShutting : Sender → Type 0
IsShutting = HasFlag true

either_way {ℓ} :
    {A : Type ℓ} (P : A → Type 0) (t : Bool) (a b : A) → P a → P b → P (if t then a else b)
either_way P true a b h k = h
either_way P false a b h k = k

abbrev Shuts : Bool → Sending → Type 0
Shuts b r = HasFlag b r.sender

module _ {b : Bool} where
  schedule_send-IsShutting :
      (s : Sender) (c : Conn) (now : ℕ) → HasFlag b s → HasFlag b (schedule_send s c now)
  unfolding schedule_send
  schedule_send-IsShutting s c now h = ground arith

  pub calculate_timers-IsShutting :
      (s : Sender) (c : Conn) (now : ℕ) → HasFlag b s → HasFlag b (calculate_timers s c now)
  unfolding calculate_timers update_assumed_receiver_state rationalize_states hurry_ack
      schedule_shutdown_ack
  calculate_timers-IsShutting s c now h =
      let s1 = rationalize_states (update_assumed_receiver_state s c now) in
      let h2 : HasFlag b (hurry_ack s1 now) = ground arith in
      let h3 : HasFlag b (schedule_send (hurry_ack s1 now) c now) =
        schedule_send-IsShutting (hurry_ack s1 now) c now h2 in
      ground arith

  pub wait_time-IsShutting :
      (s : Sender) (c : Conn) (now : ℕ) → HasFlag b s → HasFlag b (wait_time s c now).0
  unfolding wait_time
  wait_time-IsShutting s c now h = calculate_timers-IsShutting s c now h

  add_sent_state-IsShutting :
      (s : Sender) (now num : ℕ) → HasFlag b s → HasFlag b (add_sent_state s now num)
  unfolding add_sent_state
  add_sent_state-IsShutting s now num h = ground arith

  send_in_fragments-Shuts :
      (z : Zlib) (s : Sender) (c : Conn) (diff : Bytes) (num : ℕ)
      → HasFlag b s
      → Shuts b (send_in_fragments z s c diff num)
  unfolding send_in_fragments
  send_in_fragments-Shuts z s c diff num h = h

  ack_sent-Shuts :
      (r : Sending) (c : Conn) (now num : ℕ) → Shuts b r → Shuts b (ack_sent r c now num)
  ack_sent-Shuts r c now num h = elim (Bool-cases r.sent) [
    | inl e ↦ rw e (add_sent_state-IsShutting r.sender now num h)
    | inr e ↦ rw e h
  ]

  send_empty_ack-Shuts :
      (z : Zlib) (s : Sender) (c : Conn) (now : ℕ)
      → HasFlag b s
      → Shuts b (send_empty_ack z s c now)
  unfolding send_empty_ack
  send_empty_ack-Shuts z s c now h =
      let num =
        if s.shutdown_in_progress
        then shutdown_num
        else ((back s).num + 1) % 18446744073709551616 in
      ack_sent-Shuts (send_in_fragments z s c [] num) c now num
        (send_in_fragments-Shuts z s c [] num h)

  receiver_sent-Shuts :
      (r : Sending) (known : Bool) (now num : ℕ)
      → Shuts b r
      → Shuts b (receiver_sent r known now num)
  receiver_sent-Shuts r known now num h = elim (Bool-cases r.sent) [
    | inl e ↦ rw e (
        either_way (HasFlag b) known r.sender (add_sent_state r.sender now num) h
          (add_sent_state-IsShutting r.sender now num h))
    | inr e ↦ rw e h
  ]

  send_to_receiver-Shuts :
      (z : Zlib) (s : Sender) (c : Conn) (now : ℕ) (diff : Bytes)
      → HasFlag b s
      → Shuts b (send_to_receiver z s c now diff)
  unfolding send_to_receiver
  send_to_receiver-Shuts z s c now diff h =
      let num = new_num s in
      let known = num == (back s).num in
      let s' = if known then record s { sent_states = touch_back s.sent_states now } else s in
      let h' : HasFlag b s' =
        either_way (HasFlag b) known (record s { sent_states = touch_back s.sent_states now }) s h
          h in
      receiver_sent-Shuts (send_in_fragments z s' c diff num) known now num
        (send_in_fragments-Shuts z s' c diff num h')

  unhurried-Shuts : (r : Sending) → Shuts b r → Shuts b (unhurried r)
  unhurried-Shuts r h = elim (Bool-cases r.sent) [ inl e ↦ rw e h | inr e ↦ rw e h ]

  nothing_due-Shuts : (r : Sending) (now : ℕ) → Shuts b r → Shuts b (nothing_due r now)
  nothing_due-Shuts r now h =
      elim (Bool-cases (r.sent && (r.sender.have_send_time && leb r.sender.next_send_time now))) [
        | inl e ↦ rw e h
        | inr e ↦ rw e h
      ]

  tick_ack-Shuts :
      (z : Zlib) (s : Sender) (c : Conn) (now : ℕ) → HasFlag b s → Shuts b (tick_ack z s c now)
  tick_ack-Shuts z s c now h =
      nothing_due-Shuts (due_ack z s c now) now (elim (Bool-cases (leb s.next_ack_time now)) [
        | inl e ↦
            rw e (unhurried-Shuts (send_empty_ack z s c now) (send_empty_ack-Shuts z s c now h))
        | inr e ↦ rw e h
      ])

  tick_due-Shuts :
      (z : Zlib) (s : Sender) (c : Conn) (now : ℕ) (diff : Bytes)
      → HasFlag b s
      → Shuts b (tick_due z s c now diff)
  tick_due-Shuts z s c now diff h = elim (Bool-cases (length diff == 0)) [
    | inl e ↦ rw e (tick_ack-Shuts z s c now h)
    | inr e ↦ rw e (
        unhurried-Shuts (send_to_receiver z s c now diff) (send_to_receiver-Shuts z s c now diff h))
  ]

  pub tick-IsShutting :
      (z : Zlib) (s : Sender) (c : Conn) (now : ℕ) → HasFlag b s → HasFlag b (tick z s c now).sender
  unfolding tick
  tick-IsShutting z s c now h =
      let k : HasFlag b (calculate_timers s c now) = calculate_timers-IsShutting s c now h in
      elim (Bool-cases (is_waiting (calculate_timers s c now) now)) [
        | inl e ↦ rw e k
        | inr e ↦ rw e (tick_due-Shuts z (calculate_timers s c now) c now _ k)
      ]

  pub acknowledgment-IsShutting :
      (s : Sender) (ack : ℕ) → HasFlag b s → HasFlag b (process_acknowledgment_through s ack)
  unfolding process_acknowledgment_through
  acknowledgment-IsShutting s ack h = kept (acknowledged ack s.sent_states)
    where
      kept : (o : Option (List TimestampedState)) → HasFlag b (keep s o)
      kept none = h
      kept (some states) = h

  pub set_ack_num-IsShutting : (s : Sender) (n : ℕ) → HasFlag b s → HasFlag b (set_ack_num s n)
  unfolding set_ack_num
  set_ack_num-IsShutting s n h = ground arith

  pub set_data_ack-IsShutting : (s : Sender) → HasFlag b s → HasFlag b (set_data_ack s)
  unfolding set_data_ack
  set_data_ack-IsShutting s h = h
