-- ===== src/Transport/Send/Naming.antt =====
-- internal/transport/sender.go: `Tick` gives a new number to each new state, and says in an instruction
-- what its numbers stand for.
use gosh.Base.{
  ℕ, ◌+◌, ◌%◌, ◌<◌, List, [], ◌∷◌, ◌++◌, Bytes, length, get_elem?, Bool, true, false, leb, ◌==◌,
  ◌&&◌, if◌then◌else◌, All, Bool-cases, inl, inr, some, ◌≡◌, refl, sym, ap, subst, ◌∙◌, arith,
}
use gosh.Base.Prefixes.{IsPrefix, IsPrefix-refl, get_elem?-snoc}
use gosh.Wire.Messages.{UserEvent}
use gosh.Statesync.UserStream.{stream_equal}
use gosh.Statesync.Equal.{stream_equal-eq}
use gosh.Transport.Error.{Zlib}
use gosh.Transport.Sender.{
  Sender, TimestampedState, Conn, state_at, back, update_assumed_receiver_state, calculate_timers,
  shutdown_num,
}
use gosh.Transport.Send.{
  Sending, add_sent_state, send_in_fragments, ack_sent, send_empty_ack, new_num, touch_back,
  receiver_sent, send_to_receiver, unhurried, nothing_due,
}
use gosh.Transport.Send.Chain.{IsChained}
use gosh.Transport.Send.Synced.{calculate_timers-IsAlike}
use gosh.Transport.Send.Numbers.{
  History, Means, IsNumbered, back-EndsWith, add_sent_state-IsNumbered, AreNumbered-touch_back,
  rationalize_states-IsNumbered,
}

-- The numbers stand for what they stood for, and perhaps there is a new one.
abbrev pub Keeps : History → List UserEvent → Sender → Type 0
Keeps hist cut s = (hist' : History) × IsPrefix hist hist' × IsNumbered hist' cut s

-- And the number `num` stands for the current state `now` if the call has sent it.
abbrev pub Names : History → List UserEvent → List UserEvent → ℕ → Sending → Type 0
Names hist cut now num r =
    (hist' : History) × IsPrefix hist hist'
    × IsNumbered hist' cut r.sender
    × (r.sent ≡ true → get_elem? hist' num ≡ some (cut ++ now))

pub kept :
    (hist : History) (cut : List UserEvent) (s : Sender) → IsNumbered hist cut s → Keeps hist cut s
kept hist cut s h = (hist, IsPrefix-refl hist, h)

-- A sent state under the number behind the last.
added :
    (hist : History) (cut : List UserEvent) (s : Sender) (now num : ℕ)
    → IsNumbered hist cut s
    → num ≡ length hist
    → (IsNumbered (hist ++ (cut ++ s.current_state.events) ∷ []) cut (add_sent_state s now num))
      × (get_elem? (hist ++ (cut ++ s.current_state.events) ∷ []) num
          ≡ some (cut ++ s.current_state.events))
added hist cut s now num h e = (
  add_sent_state-IsNumbered hist cut s now num h e,
  rw e (get_elem?-snoc hist (cut ++ s.current_state.events)),
)

-- The last number, where it is no number of a shutdown.
back-num :
    (hist : History) (cut : List UserEvent) (s : Sender)
    → IsNumbered hist cut s
    → length hist ≡ (back s).num + 1
back-num hist cut s (_, y, ends, n) =
    n ∙ ap (λ (x : TimestampedState). x.num + 1) (sym (back-EndsWith s y ends))

pub calculate_timers-IsNumbered :
    (hist : History) (cut : List UserEvent) (s : Sender) (c : Conn) (now : ℕ)
    → IsChained s
    → IsNumbered hist cut s
    → IsNumbered hist (cut ++ (state_at s.sent_states 0).state.events) (calculate_timers s c now)
unfolding update_assumed_receiver_state
calculate_timers-IsNumbered hist cut s c now chain h =
    let (states, _) = calculate_timers-IsAlike s c now in
    rw states
      (rationalize_states-IsNumbered hist cut (update_assumed_receiver_state s c now) chain h)

ack_sent-Keeps :
    (hist : History) (cut : List UserEvent) (r : Sending) (c : Conn) (now num : ℕ)
    → IsNumbered hist cut r.sender
    → num ≡ length hist
    → Keeps hist cut (ack_sent r c now num).sender
ack_sent-Keeps hist cut r c now num h e = elim (Bool-cases r.sent) [
  | inl q ↦ let (numbered, _) = added hist cut r.sender now num h e in rw q (_, (_, refl), numbered)
  | inr q ↦ rw q (kept hist cut r.sender h)
]

pub send_empty_ack-Keeps :
    (z : Zlib) (hist : History) (cut : List UserEvent) (s : Sender) (c : Conn) (now : ℕ)
    → IsNumbered hist cut s
    → s.shutdown_in_progress ≡ false
    → length hist < 18446744073709551616
    → Keeps hist cut (send_empty_ack z s c now).sender
unfolding send_empty_ack send_in_fragments
send_empty_ack-Keeps z hist cut s c now h running small =
    let num =
      if s.shutdown_in_progress then shutdown_num else ((back s).num + 1) % 18446744073709551616 in
    let next : num ≡ length hist = ground (arith, back-num hist cut s h) in
    ack_sent-Keeps hist cut (send_in_fragments z s c [] num) c now num h next

receiver_sent-known :
    (hist : History) (cut : List UserEvent) (r : Sending) (now num : ℕ)
    → IsNumbered hist cut r.sender
    → get_elem? hist num ≡ some (cut ++ r.sender.current_state.events)
    → Names hist cut r.sender.current_state.events num (receiver_sent r true now num)
receiver_sent-known hist cut r now num h e = elim (Bool-cases r.sent) [
  | inl q ↦ rw q (hist, IsPrefix-refl hist, h, λ _. e)
  | inr q ↦ rw q (hist, IsPrefix-refl hist, h, λ _. e)
]

receiver_sent-new :
    (hist : History) (cut : List UserEvent) (r : Sending) (now num : ℕ)
    → IsNumbered hist cut r.sender
    → num ≡ length hist
    → Names hist cut r.sender.current_state.events num (receiver_sent r false now num)
receiver_sent-new hist cut r now num h e = elim (Bool-cases r.sent) [
  | inl q ↦
      let (numbered, named) = added hist cut r.sender now num h e in
      rw q (_, (_, refl), numbered, λ _. named)
  | inr q ↦ simp q (hist, IsPrefix-refl hist, h, λ never. absurd cc)
]

All-last :
    (P : TimestampedState → Type 0) (front : List TimestampedState) (y : TimestampedState)
    → All P (front ++ y ∷ [])
    → P y
All-last P [] y (p, _) = p
All-last P (x ∷ front) y (_, h) = All-last P front y h

back-Means :
    (hist : History) (cut : List UserEvent) (s : Sender)
    → IsNumbered hist cut s
    → Means hist cut (back s)
back-Means hist cut s (h, y, (front, e), n) =
    subst (Means hist cut) (sym (back-EndsWith s y (front, e)))
      (All-last (Means hist cut) front y (subst (All (Means hist cut)) e h))

-- Both ways to send a diff: a state that was sent before, and a new one.
sent-Names :
    (z : Zlib) (hist : History) (cut : List UserEvent) (s : Sender) (c : Conn) (now : ℕ)
    (diff : Bytes) (num : ℕ) (known : Bool)
    → IsNumbered hist cut s
    → (known ≡ true → get_elem? hist num ≡ some (cut ++ s.current_state.events))
    → (known ≡ false → num ≡ length hist)
    → Names hist cut s.current_state.events num (
        receiver_sent
          (send_in_fragments z
            (if known then record s { sent_states = touch_back s.sent_states now } else s)
            c
            diff
            num)
          known
          now
          num)
unfolding send_in_fragments
sent-Names z hist cut s c now diff num true h old new =
    receiver_sent-known hist cut
      (send_in_fragments z (record s { sent_states = touch_back s.sent_states now }) c diff num) now
      num (AreNumbered-touch_back hist cut s.sent_states now h) (old refl)
sent-Names z hist cut s c now diff num false h old new =
    receiver_sent-new hist cut (send_in_fragments z s c diff num) now num h (new refl)

-- A number is taken again only for the state that it stands for.
new_num-named :
    (hist : History) (cut : List UserEvent) (s : Sender)
    → IsNumbered hist cut s
    → s.shutdown_in_progress ≡ false
    → length hist < 18446744073709551616
    → ((new_num s == (back s).num) ≡ true
        → get_elem? hist (new_num s) ≡ some (cut ++ s.current_state.events))
      × ((new_num s == (back s).num) ≡ false → new_num s ≡ length hist)
unfolding new_num
new_num-named hist cut s h running small =
    elim (Bool-cases (stream_equal s.current_state (back s).state)) [
      | inl same ↦
          let events : s.current_state.events ≡ (back s).state.events =
            stream_equal-eq s.current_state (back s).state same in
          let means : get_elem? hist (back s).num ≡ some (cut ++ s.current_state.events) =
            back-Means hist cut s h ∙ ap (λ l. some (cut ++ l)) (sym events) in
          simp (running, same) ((λ _. means), (λ e. absurd (ground arith)))
      | inr differs ↦
          simp (running, differs)
            (
              (λ e. absurd (ground (arith, back-num hist cut s h))),
              (λ e. ground (arith, back-num hist cut s h)),
            )
    ]

pub send_to_receiver-Names :
    (z : Zlib) (hist : History) (cut : List UserEvent) (s : Sender) (c : Conn) (now : ℕ)
    (diff : Bytes)
    → IsNumbered hist cut s
    → s.shutdown_in_progress ≡ false
    → length hist < 18446744073709551616
    → Names hist cut s.current_state.events (new_num s) (send_to_receiver z s c now diff)
unfolding send_to_receiver
send_to_receiver-Names z hist cut s c now diff h running small =
    let (old, new) = new_num-named hist cut s h running small in
    sent-Names z hist cut s c now diff (new_num s) (new_num s == (back s).num) h old new

pub unhurried-same :
    (r : Sending)
    → ((unhurried r).sender.sent_states ≡ r.sender.sent_states) × ((unhurried r).sent ≡ r.sent)
unhurried-same r = elim (Bool-cases r.sent) [
  | inl e ↦ simp e (refl, refl)
  | inr e ↦ simp e (refl, refl)
]

pub nothing_due-same :
    (r : Sending) (now : ℕ) → (nothing_due r now).sender.sent_states ≡ r.sender.sent_states
nothing_due-same r now =
    elim (Bool-cases (r.sent && (r.sender.have_send_time && leb r.sender.next_send_time now))) [
      | inl e ↦ rw e refl
      | inr e ↦ rw e refl
    ]

pub Keeps-same :
    (hist : History) (cut : List UserEvent) (s s' : Sender)
    → s'.sent_states ≡ s.sent_states
    → Keeps hist cut s
    → Keeps hist cut s'
Keeps-same hist cut s s' e k = rw e k
