-- ===== src/Transport/Send/Named.antt =====
-- internal/transport/sender.go: what the numbers of an instruction of `Tick` stand for.
use gosh.Base.{
  zero, suc, ℕ, ◌<◌, List, [], ◌∷◌, ◌++◌, append_assoc, Bytes, length, get_elem?, true, false, leb,
  ◌==◌, All, Bool-cases, inl, inr, some, ok, ◌≡◌, refl, sym, ap, subst, ◌∙◌, arith,
}
use gosh.Transport.Send.{
  Sending, instruction, send_empty_ack, send_to_receiver, unhurried, due_ack, nothing_due, tick_due,
  is_waiting, tick, process_acknowledgment_through,
}
use gosh.Transport.Send.Acked.{acknowledgment-IsNumbered}
use gosh.Transport.Send.Numbers.{Means, History, IsNumbered}
use gosh.Transport.Send.Bounds.{IsBounded, calculate_timers-IsBounded}
use gosh.Transport.Send.Peer.{due_diff-decoded, calculate_timers-current}
use gosh.Wire.Instruction.{Instruction}
use gosh.Base.Prefixes.{IsPrefix, IsPrefix-refl, append-drop_prefix}
use gosh.Wire.Messages.{UserEvent, unmarshal_user_message}
use gosh.Statesync.Diff.{IsUnit, expand}
use gosh.Transport.Error.{Zlib}
use gosh.Transport.Sender.{Sender, TimestampedState, Conn, state_at, calculate_timers}
use gosh.Transport.Send.Latch.{calculate_timers-IsShutting}
use gosh.Transport.Send.Chain.{IsChained, state_at-IsPrefix}
use gosh.Transport.Send.Naming.{
  Keeps, kept, Keeps-same, unhurried-same, nothing_due-same, send_empty_ack-Keeps,
  send_to_receiver-Names, calculate_timers-IsNumbered,
}
use gosh.Transport.Send.Delivered.{assumed, due_diff, due_instruction, tick-datagrams}

module _ (z : Zlib) (hist : History) (cut : List UserEvent) (s : Sender) (c : Conn) (now : ℕ)
    (numbered : IsNumbered hist cut s) (running : s.shutdown_in_progress ≡ false)
    (small : length hist < 18446744073709551616) where
  due_ack-Keeps : Keeps hist cut (due_ack z s c now).sender
  due_ack-Keeps = elim (Bool-cases (leb s.next_ack_time now)) [
    | inl e ↦ rw e (
        Keeps-same hist cut (send_empty_ack z s c now).sender
          (unhurried (send_empty_ack z s c now)).sender
          (unhurried-same (send_empty_ack z s c now)).0
          (send_empty_ack-Keeps z hist cut s c now numbered running small))
    | inr e ↦ rw e (kept hist cut s numbered)
  ]

  tick_due-Keeps : (diff : Bytes) → Keeps hist cut (tick_due z s c now diff).sender
  tick_due-Keeps diff = elim (Bool-cases (length diff == 0)) [
    | inl e ↦ rw e (
        Keeps-same hist cut (due_ack z s c now).sender (nothing_due (due_ack z s c now) now).sender
          (nothing_due-same (due_ack z s c now) now) due_ack-Keeps)
    | inr e ↦
        let (hist', grows, names, _) =
          send_to_receiver-Names z hist cut s c now diff numbered running small in
        rw e (
          Keeps-same hist cut (send_to_receiver z s c now diff).sender
            (unhurried (send_to_receiver z s c now diff)).sender
            (unhurried-same (send_to_receiver z s c now diff)).0 (hist', grows, names))
  ]

-- The states of a sender that is not shutting down, with fewer than 2 ^ 64 numbers given: where each
-- is the one that its number stands for, a call of `Tick`, sent or failed, leaves it so and changes
-- nothing that a number stands for, and so does an acknowledgment.
pub tick-IsNumbered :
    (z : Zlib) (hist : History) (cut : List UserEvent) (s : Sender) (c : Conn) (now ack : ℕ)
    → IsChained s
    → IsNumbered hist cut s
    → s.shutdown_in_progress ≡ false
    → length hist < 18446744073709551616
    → ((hist' : History) × (cut' : List UserEvent) × IsPrefix hist hist'
        × IsPrefix cut cut'
        × IsNumbered hist' cut' (tick z s c now).sender)
      × IsNumbered hist cut (process_acknowledgment_through s ack)
unfolding tick
tick-IsNumbered z hist cut s c now ack chain numbered running small =
    let t = calculate_timers s c now in
    let cut' = cut ++ (state_at s.sent_states 0).state.events in
    let timed : IsNumbered hist cut' t =
      calculate_timers-IsNumbered hist cut s c now chain numbered in
    let still : t.shutdown_in_progress ≡ false = calculate_timers-IsShutting s c now running in
    (
      elim (Bool-cases (is_waiting t now)) [
        | inl e ↦ rw e (hist, cut', IsPrefix-refl hist, (_, refl), timed)
        | inr e ↦
            let (hist', grows, names) =
              tick_due-Keeps z hist cut' t c now timed still small (due_diff t) in
            rw e (hist', cut', grows, (_, refl), names)
      ],
      acknowledgment-IsNumbered hist cut s ack numbered,
    )

All-state_at :
    (P : TimestampedState → Type 0) (xs : List TimestampedState) (i : ℕ)
    → All P xs
    → i < length xs
    → P (state_at xs i)
unfolding state_at
All-state_at P [] i h l = absurd (omega arith)
All-state_at P (x ∷ xs) zero (p, h) l = p
All-state_at P (x ∷ xs) (suc i) (p, h) l = All-state_at P xs i h (omega arith)

-- What an instruction `i` of the sender `s` says where it leaves the sender `s'`: its diff decodes to
-- events that, put behind the state that its first number stands for, are all input so far, what was
-- cut and the current state; and for these its second number stands from now on.
pub record IsNamed (hist : History) (cut : List UserEvent) (s s' : Sender) (i : Instruction)
    : Type 0 where
  pub hist' : History
  pub cut' : List UserEvent
  pub old : List UserEvent
  pub evs : List UserEvent
  pub grows : IsPrefix hist hist'
  pub numbered : IsNumbered hist' cut' s'
  pub decoded : unmarshal_user_message i.diff ≡ ok evs
  pub from : get_elem? hist i.old_num ≡ some old
  pub to : get_elem? hist' i.new_num ≡ some (cut ++ s.current_state.events)
  pub expanded : old ++ expand evs ≡ cut ++ s.current_state.events

-- The instruction that is due says what its numbers stand for: the new one stands for all input so
-- far.
pub due_instruction-names :
    (z : Zlib) (hist : History) (cut : List UserEvent) (s : Sender) (c : Conn) (now : ℕ)
    → IsChained s
    → IsBounded s
    → IsNumbered hist cut s
    → s.shutdown_in_progress ≡ false
    → length hist < 18446744073709551616
    → All IsUnit s.current_state.events
    → length s.current_state.events < 4294967296
    → is_waiting (calculate_timers s c now) now ≡ false
    → (length (due_diff (calculate_timers s c now)) == 0) ≡ false
    → (tick z s c now).sent ≡ true
    → IsNamed hist cut s (tick z s c now).sender (due_instruction (calculate_timers s c now) c)
unfolding instruction
due_instruction-names z hist cut s c now chain bounded numbered running small units few due
      some_diff sent =
    let t = calculate_timers s c now in
    let known = (state_at s.sent_states 0).state.events in
    let cut' = cut ++ known in
    let timed : IsNumbered hist cut' t =
      calculate_timers-IsNumbered hist cut s c now chain numbered in
    let still : t.shutdown_in_progress ≡ false = calculate_timers-IsShutting s c now running in
    let call = tick-datagrams z s c now due some_diff in
    let sending = send_to_receiver z t c now (due_diff t) in
    let (states, same_sent) = unhurried-same sending in
    let (hist', grows, names, named) =
      send_to_receiver-Names z hist cut' t c now (due_diff t) timed still small in
    let (evs, decoded, whole) = due_diff-decoded s c now chain units few in
    let in_range = (calculate_timers-IsBounded s c now bounded).in_range in
    let gone : sending.sent ≡ true =
      sym same_sent ∙ sym (ap (λ (r : Sending). r.sent) call) ∙ sent in
    let all : cut' ++ t.current_state.events ≡ cut ++ s.current_state.events =
      append_assoc cut known t.current_state.events
      ∙ ap (λ l. cut ++ (known ++ l)) (calculate_timers-current s c now)
      ∙ ap (λ l. cut ++ l)
          (append-drop_prefix known s.current_state.events
            (state_at-IsPrefix s.sent_states s.current_state.events 0 chain)) in
    record {
      hist' = hist';
      cut' = cut';
      old = cut' ++ (assumed t).state.events;
      evs = evs;
      grows = grows;
      numbered =
          subst (IsNumbered hist' cut') (sym (ap (λ (r : Sending). r.sender) call))
            (rw states names);
      decoded = decoded;
      from =
          All-state_at (Means hist cut') t.sent_states t.assumed_receiver_state_idx timed.0
            in_range;
      to = named gone ∙ ap some all;
      expanded =
          append_assoc cut' (assumed t).state.events (expand evs) ∙ ap (λ l. cut' ++ l) whole ∙ all;
    }
