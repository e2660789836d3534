-- ===== src/Transport/Send/Bounds.antt =====
-- internal/transport/sender.go: how many sent states a `sender` keeps, and which of them it takes
-- the receiver to have.
use gosh.Base.{
  if◌then◌else◌, inr, inl, Bool-cases, ap, ℕ, ◌+◌, ◌-◌, ◌≤◌, ◌<◌, List, [], ◌∷◌, ◌++◌, map, Bytes,
  length, take, drop, length-append, length-take, length-drop, Bool, true, false, ◌&&◌, ltb, leb,
  ◌≡◌, refl, arith,
}
use gosh.Transport.Error.{Zlib}
use gosh.Transport.Sender.{
  Sender, TimestampedState, Conn, assume_loop, update_assumed_receiver_state, rationalize_states,
  hurry_ack, schedule_send, schedule_shutdown_ack, calculate_timers, ack_delay,
}
use gosh.Transport.Send.{
  Sending, add_sent_state, send_in_fragments, ack_sent, touch_back, receiver_sent,
}

-- There is a known-received state, 32 states at most are kept, and the assumed one is among them.
pub record IsBounded (s : Sender) : Type 0 where
  pub known : 1 ≤ length s.sent_states
  pub few : length s.sent_states ≤ 32
  pub in_range : s.assumed_receiver_state_idx < length s.sent_states

-- A sender with as many states and the same assumed one.
abbrev pub IsLike : Sender → Sender → Type 0
IsLike s s' =
    (length s'.sent_states ≡ length s.sent_states)
    × (s'.assumed_receiver_state_idx ≡ s.assumed_receiver_state_idx)

pub IsBounded-like : (s s' : Sender) → IsLike s s' → IsBounded s → IsBounded s'
IsBounded-like s s' (n, i) b = record {
  known = omega (arith, b.known);
  few = omega (arith, b.few);
  in_range = omega (arith, b.in_range);
}

assume_loop-lt :
    (now bound idx i : ℕ) (xs : List TimestampedState) (n : ℕ)
    → idx < n
    → i + length xs ≤ n
    → assume_loop now bound idx i xs < n
unfolding assume_loop
assume_loop-lt now bound idx i [] n h k = h
assume_loop-lt now bound idx i (x ∷ xs) n h k =
    ground (arith, assume_loop-lt now bound i (i + 1) xs n (omega arith) (omega arith))

update_assumed-IsBounded :
    (s : Sender) (c : Conn) (now : ℕ)
    → IsBounded s
    → IsBounded (update_assumed_receiver_state s c now)
unfolding update_assumed_receiver_state
update_assumed-IsBounded s c now b = record {
  known = b.known;
  few = b.few;
  in_range =
      assume_loop-lt now (c.timeout + ack_delay) 0 1 (drop 1 s.sent_states) (length s.sent_states)
        (omega (arith, b.known)) (omega (arith, b.known, length-drop 1 s.sent_states));
}

length-map :
    (f : TimestampedState → TimestampedState) (xs : List TimestampedState)
    → length (map f xs) ≡ length xs
length-map f [] = refl
length-map f (x ∷ xs) = omega (arith, length-map f xs)

rationalize_states-IsLike : (s : Sender) → IsLike s (rationalize_states s)
unfolding rationalize_states
rationalize_states-IsLike s = (length-map _ s.sent_states, refl)

hurry_ack-IsLike : (s : Sender) (now : ℕ) → IsLike s (hurry_ack s now)
unfolding hurry_ack
hurry_ack-IsLike s now = ground arith

schedule_send-IsLike : (s : Sender) (c : Conn) (now : ℕ) → IsLike s (schedule_send s c now)
unfolding schedule_send
schedule_send-IsLike s c now = ground arith

schedule_shutdown_ack-IsLike : (s : Sender) (c : Conn) → IsLike s (schedule_shutdown_ack s c)
unfolding schedule_shutdown_ack
schedule_shutdown_ack-IsLike s c = ground arith

pub calculate_timers-IsBounded :
    (s : Sender) (c : Conn) (now : ℕ) → IsBounded s → IsBounded (calculate_timers s c now)
unfolding calculate_timers
calculate_timers-IsBounded s c now b =
    let s1 = update_assumed_receiver_state s c now in
    let s2 = rationalize_states s1 in
    let s3 = hurry_ack s2 now in
    let s4 = schedule_send s3 c now in
    IsBounded-like s4 (schedule_shutdown_ack s4 c) (schedule_shutdown_ack-IsLike s4 c) (
      IsBounded-like s3 s4 (schedule_send-IsLike s3 c now) (
        IsBounded-like s2 s3 (hurry_ack-IsLike s2 now) (
          IsBounded-like s1 s2 (rationalize_states-IsLike s1)
            (update_assumed-IsBounded s c now b))))

-- One state is taken out of 33.
erased-IsBounded :
    (s : Sender) (states : List TimestampedState)
    → 1 ≤ length states
    → length states ≡ 33
    → s.assumed_receiver_state_idx < 32
    → IsBounded (record s {
      sent_states = take (length states - 16) states ++ drop (length states - 16 + 1) states;
      assumed_receiver_state_idx =
          if leb (length states - 16) s.assumed_receiver_state_idx
            && ltb 0 s.assumed_receiver_state_idx
          then s.assumed_receiver_state_idx - 1
          else s.assumed_receiver_state_idx;
    })
erased-IsBounded s states known size i =
    let left : length (take (length states - 16) states ++ drop (length states - 16 + 1) states)
        ≡ 32 =
      omega (
        arith,
        length-append (take (length states - 16) states) (drop (length states - 16 + 1) states),
        length-take (length states - 16) states,
        length-drop (length states - 16 + 1) states,
      ) in
    record {
      known = omega (arith, left);
      few = omega (arith, left);
      in_range = ground (arith, left);
    }

add_sent_state-IsBounded :
    (s : Sender) (now num : ℕ) → IsBounded s → IsBounded (add_sent_state s now num)
unfolding add_sent_state
add_sent_state-IsBounded s now num b =
    let x : TimestampedState = record { sent_at = now; num = num; state = s.current_state } in
    let size : length (s.sent_states ++ x ∷ []) ≡ length s.sent_states + 1 =
      length-append s.sent_states (x ∷ []) in
    elim (Bool-cases (ltb 32 (length (s.sent_states ++ x ∷ [])))) [
      | inl e ↦ rw e (
          erased-IsBounded s (s.sent_states ++ x ∷ []) (omega (arith, size, b.known))
            (ground (arith, size, b.few)) (ground (arith, size, b.in_range)))
      | inr e ↦ rw e (record {
        known = omega (arith, size);
        few = ground (arith, size);
        in_range = omega (arith, size, b.in_range);
      })
    ]

pub send_in_fragments-IsLike :
    (z : Zlib) (s : Sender) (c : Conn) (diff : Bytes) (num : ℕ)
    → IsLike s (send_in_fragments z s c diff num).sender
unfolding send_in_fragments
send_in_fragments-IsLike z s c diff num = (refl, refl)

pub ack_sent-IsBounded :
    (r : Sending) (c : Conn) (now num : ℕ)
    → IsBounded r.sender
    → IsBounded (ack_sent r c now num).sender
ack_sent-IsBounded r c now num b = elim (Bool-cases r.sent) [
  | inl e ↦
      let added = add_sent_state-IsBounded r.sender now num b in
      rw e (record { known = added.known; few = added.few; in_range = added.in_range })
  | inr e ↦ rw e (record { known = b.known; few = b.few; in_range = b.in_range })
]

length-touch_back : (xs : List TimestampedState) (now : ℕ) → length (touch_back xs now) ≡ length xs
unfolding touch_back
length-touch_back [] now = refl
length-touch_back (x ∷ []) now = refl
length-touch_back (x ∷ y ∷ xs) now = omega (arith, length-touch_back (y ∷ xs) now)

pub touched-IsBounded :
    (s : Sender) (now : ℕ)
    → IsBounded s
    → IsBounded (record s { sent_states = touch_back s.sent_states now })
touched-IsBounded s now b =
    IsBounded-like s (record s { sent_states = touch_back s.sent_states now })
      (length-touch_back s.sent_states now, refl) b

-- The assumed state is the last one.
last-IsBounded :
    (s s' : Sender)
    → s'.sent_states ≡ s.sent_states
    → s'.assumed_receiver_state_idx ≡ length s.sent_states - 1
    → IsBounded s
    → IsBounded s'
last-IsBounded s s' e i b =
    let n : length s'.sent_states ≡ length s.sent_states = ap length e in
    record {
      known = omega (arith, n, b.known);
      few = omega (arith, n, b.few);
      in_range = omega (arith, n, i, b.known);
    }

pub receiver_sent-IsBounded :
    (r : Sending) (known : Bool) (now num : ℕ)
    → IsBounded r.sender
    → IsBounded (receiver_sent r known now num).sender
receiver_sent-IsBounded r true now num b = elim (Bool-cases r.sent) [
  | inl e ↦ rw e (last-IsBounded r.sender _ refl refl b)
  | inr e ↦ rw e b
]
receiver_sent-IsBounded r false now num b = elim (Bool-cases r.sent) [
  | inl e ↦ rw e (
      last-IsBounded (add_sent_state r.sender now num) _ refl refl
        (add_sent_state-IsBounded r.sender now num b))
  | inr e ↦ rw e b
]
