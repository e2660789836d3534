-- ===== src/Transport/Sender.antt =====
-- internal/transport/sender.go: `sender` and its methods. Times are milliseconds. What the
-- connection answers in a call is that call's `Conn`. The sender's states are values: the source
-- clones each state that it keeps, so that no two of them share their events.
use gosh.Base.{
  ℕ, zero, suc, ◌+◌, ◌-◌, List, [], ◌∷◌, map, Bytes, length, drop, Bool, true, false, not, ◌&&◌,
  ◌||◌, ltb, ◌==◌, if◌then◌else◌,
}
use gosh.Statesync.UserStream.{UserStream, stream_equal, subtract}
use gosh.Transport.Fragment.{Fragmenter}

abbrev pub send_interval_min : ℕ
send_interval_min = 20

abbrev pub send_interval_max : ℕ
send_interval_max = 250

abbrev pub ack_interval : ℕ
ack_interval = 3000

abbrev pub ack_delay : ℕ
ack_delay = 100

abbrev pub send_mindelay : ℕ
send_mindelay = 8

abbrev pub shutdown_retries : ℕ
shutdown_retries = 16

abbrev pub protocol_version : ℕ
protocol_version = 2

abbrev pub shutdown_num : ℕ
shutdown_num = 18446744073709551615

pub record TimestampedState : Type 0 where
  pub sent_at : ℕ
  pub num : ℕ
  pub state : UserStream

-- The connection in one call: half the smoothed round trip, rounded as `sendInterval` does, the
-- retransmission timeout, the MTU, which datagrams it sends, how many fit before the deadline of a
-- burst, and the random chaff.
pub record Conn : Type 0 where
  pub half_srtt : ℕ
  pub timeout : ℕ
  pub mtu : ℕ
  pub sends : Bytes → Bool
  pub burst : ℕ
  pub chaff : Bytes

pub record Sender : Type 0 where
  pub current_state : UserStream
  pub sent_states : List TimestampedState
  pub assumed_receiver_state_idx : ℕ
  pub fragmenter : Fragmenter
  pub next_ack_time : ℕ
  pub next_send_time : ℕ
  pub have_send_time : Bool
  pub shutdown_in_progress : Bool
  pub shutdown_tries : ℕ
  pub ack_num : ℕ
  pub pending_data_ack : Bool
  pub mindelay_clock : ℕ
  pub have_mindelay : Bool

abbrev pub initial_state : ℕ → TimestampedState
initial_state now = record { sent_at = now; num = 0; state = record { events = [] } }

unfoldable pub new_sender : ℕ → Sender
new_sender now = record {
  current_state = record { events = [] };
  sent_states = initial_state now ∷ [];
  assumed_receiver_state_idx = 0;
  fragmenter = record { next_id = 0; last_payload = []; last_mtu = 0 };
  next_ack_time = now;
  next_send_time = 0;
  have_send_time = false;
  shutdown_in_progress = false;
  shutdown_tries = 0;
  ack_num = 0;
  pending_data_ack = false;
  mindelay_clock = 0;
  have_mindelay = false;
}

-- `sentStates[i]`; an index out of range, which panics in the source, gives the initial state.
unfoldable pub state_at : List TimestampedState → ℕ → TimestampedState
state_at [] i = initial_state 0
state_at (x ∷ xs) zero = x
state_at (x ∷ xs) (suc i) = state_at xs i

abbrev pub back : Sender → TimestampedState
back s = state_at s.sent_states (length s.sent_states - 1)

unfoldable pub set_ack_num : Sender → ℕ → Sender
set_ack_num s n = if ltb s.ack_num n then record s { ack_num = n } else s

unfoldable pub set_data_ack : Sender → Sender
set_data_ack s = record s { pending_data_ack = true }

unfoldable pub send_interval : Conn → ℕ
send_interval c =
    if ltb c.half_srtt send_interval_min
    then send_interval_min
    else if ltb send_interval_max c.half_srtt
    then send_interval_max
    else c.half_srtt

-- The loop of `updateAssumedReceiverState` from the index `i` on.
unfoldable pub assume_loop : ℕ → ℕ → ℕ → ℕ → List TimestampedState → ℕ
assume_loop now bound idx i [] = idx
assume_loop now bound idx i (x ∷ xs) =
    let later = assume_loop now bound i (i + 1) xs in
    if ltb (now - x.sent_at) bound then later else idx

unfoldable pub update_assumed_receiver_state : Sender → Conn → ℕ → Sender
unfolding assume_loop
update_assumed_receiver_state s c now = record s {
  assumed_receiver_state_idx = assume_loop now (c.timeout + ack_delay) 0 1 (drop 1 s.sent_states);
}

-- The first state is taken off itself last.
unfoldable pub rationalize_states : Sender → Sender
unfolding subtract state_at
rationalize_states s =
    let known = (state_at s.sent_states 0).state in
    record s {
      current_state = subtract s.current_state known;
      sent_states =
          map {A = TimestampedState} (λ x. record x { state = subtract x.state known })
            s.sent_states;
    }

abbrev max_time : ℕ → ℕ → ℕ
max_time a b = if ltb a b then b else a

unfoldable pub hurry_ack : Sender → ℕ → Sender
hurry_ack s now =
    if s.pending_data_ack && ltb (now + ack_delay) s.next_ack_time
    then record s { next_ack_time = now + ack_delay }
    else s

abbrev pub start_mindelay : Sender → ℕ → Sender
start_mindelay s now =
    if s.have_mindelay then s else record s { mindelay_clock = now; have_mindelay = true }

unfoldable pub schedule_send : Sender → Conn → ℕ → Sender
unfolding send_interval stream_equal state_at
schedule_send s c now =
    let wait = (back s).sent_at + send_interval c in
    if not (stream_equal s.current_state (back s).state)
    then (let s' = start_mindelay s now in
        record s' {
          next_send_time = max_time (s'.mindelay_clock + send_mindelay) wait;
          have_send_time = true;
        })
    else if not
        (stream_equal s.current_state (state_at s.sent_states s.assumed_receiver_state_idx).state)
    then record s { next_send_time = wait; have_send_time = true }
    else if not (stream_equal s.current_state (state_at s.sent_states 0).state)
    then record s {
      next_send_time = (back s).sent_at + (c.timeout + ack_delay);
      have_send_time = true;
    }
    else record s { have_send_time = false }

unfoldable pub schedule_shutdown_ack : Sender → Conn → Sender
unfolding send_interval state_at
schedule_shutdown_ack s c =
    if s.shutdown_in_progress || s.ack_num == shutdown_num
    then record s { next_ack_time = (back s).sent_at + send_interval c }
    else s

unfoldable pub calculate_timers : Sender → Conn → ℕ → Sender
unfolding update_assumed_receiver_state rationalize_states hurry_ack schedule_send
    schedule_shutdown_ack
calculate_timers s c now =
    let s = update_assumed_receiver_state s c now in
    let s = rationalize_states s in
    let s = hurry_ack s now in let s = schedule_send s c now in schedule_shutdown_ack s c

abbrev pub next_due : Sender → ℕ
next_due s =
    if s.have_send_time && ltb s.next_send_time s.next_ack_time
    then s.next_send_time
    else s.next_ack_time

unfoldable pub wait_time : Sender → Conn → ℕ → Sender × ℕ
unfolding calculate_timers
wait_time s c now = let s' = calculate_timers s c now in (s', next_due s' - now)
