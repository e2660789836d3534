-- ===== src/Transport/Send.antt =====
-- internal/transport/sender.go: the methods of `sender` that send, take acknowledgments and shut
-- down. With each goes what it hands to the connection.
pub mod Bounds
pub mod Ticks
pub mod Latch
pub mod Chain
pub mod Synced
pub mod Reached
pub mod Delivered
pub mod Peer
pub mod Numbers
pub mod Naming
pub mod Named
pub mod Agreed
pub mod Acked
use gosh.Base.{
  ℕ, zero, suc, ◌+◌, ◌-◌, ◌%◌, List, [], ◌∷◌, ◌++◌, map, Bytes, length, take, drop, Bool, true,
  false, not, ◌&&◌, ◌||◌, ltb, leb, ◌==◌, if◌then◌else◌, Option, none, some,
}
use gosh.Wire.Instruction.{Instruction}
use gosh.Statesync.UserStream.{UserStream, stream_equal, diff_from}
use gosh.Transport.Error.{Zlib}
use gosh.Transport.Fragment.{Fragment, Fragmenter, make_fragments}
use gosh.Transport.Sender.{
  Sender, TimestampedState, Conn, state_at, back, send_interval, calculate_timers, ack_interval,
  protocol_version, shutdown_num, shutdown_retries,
}
use mathlib.Core.Option

-- What a call hands to the connection, and whether it succeeded.
pub record Sending : Type 0 where
  pub sender : Sender
  pub datagrams : List Bytes
  pub sent : Bool

unfoldable pub add_sent_state : Sender → ℕ → ℕ → Sender
add_sent_state s now num =
    let states =
      s.sent_states ++ record { sent_at = now; num = num; state = s.current_state } ∷ [] in
    let erase = length states - 16 in
    if ltb 32 (length states)
    then record s {
      sent_states = take erase states ++ drop (erase + 1) states;
      assumed_receiver_state_idx =
          if leb erase s.assumed_receiver_state_idx && ltb 0 s.assumed_receiver_state_idx
          then s.assumed_receiver_state_idx - 1
          else s.assumed_receiver_state_idx;
    }
    else record s { sent_states = states }

unfoldable pub instruction : Sender → Conn → Bytes → ℕ → Instruction
unfolding state_at
instruction s c diff new_num = record {
  protocol_version = protocol_version;
  old_num = (state_at s.sent_states s.assumed_receiver_state_idx).num;
  new_num = new_num;
  ack_num = s.ack_num;
  throwaway_num = (state_at s.sent_states 0).num;
  diff = diff;
  chaff = c.chaff;
}

-- The loop over the fragments: past the deadline the rest is left for later, and a failed send ends
-- it.
unfoldable pub send_fragments : (Bytes → Bool) → ℕ → List Fragment → List Bytes × Bool
send_fragments sends burst [] = ([], true)
send_fragments sends zero (f ∷ fs) = ([], true)
send_fragments sends (suc burst) (f ∷ fs) =
    let (rest, sent) = send_fragments sends burst fs in
    if sends (gosh.Transport.Fragment.marshal f)
    then (gosh.Transport.Fragment.marshal f ∷ rest, sent)
    else ([], false)

-- The MTU of a connection is above a header's length, so that `none` is no case of the source.
abbrev pub fragmented :
    Fragmenter → Option (Fragmenter × List Fragment) → Fragmenter × List Fragment
fragmented fr none = (fr, [])
fragmented fr (some r) = r

unfoldable pub send_in_fragments : Zlib → Sender → Conn → Bytes → ℕ → Sending
unfolding send_fragments instruction
send_in_fragments z s c diff new_num =
    let tries = if new_num == shutdown_num then s.shutdown_tries + 1 else s.shutdown_tries in
    let bytes = gosh.Wire.Instruction.marshal (instruction s c diff new_num) in
    let (fr, fs) = fragmented s.fragmenter (make_fragments z s.fragmenter bytes c.mtu) in
    let (datagrams, sent) = send_fragments c.sends c.burst fs in
    record {
      sender = record s {
        fragmenter = fr;
        shutdown_tries = tries;
        pending_data_ack = if sent then false else s.pending_data_ack;
      };
      datagrams = datagrams;
      sent = sent;
    }

abbrev pub ack_sent : Sending → Conn → ℕ → ℕ → Sending
ack_sent r c now num =
    if r.sent
    then record r {
      sender = record (add_sent_state r.sender now num) {
        next_ack_time = now + ack_interval;
        have_send_time = false;
      };
    }
    else record r { sender = record r.sender { next_ack_time = now + send_interval c } }

unfoldable pub send_empty_ack : Zlib → Sender → Conn → ℕ → Sending
unfolding send_in_fragments add_sent_state send_interval state_at
send_empty_ack z s c now =
    let next = ((back s).num + 1) % 18446744073709551616 in
    let num = if s.shutdown_in_progress then shutdown_num else next in
    ack_sent (send_in_fragments z s c [] num) c now num

-- The number of the state that a diff leads to.
unfoldable pub new_num : Sender → ℕ
unfolding stream_equal state_at
new_num s =
    if s.shutdown_in_progress
    then shutdown_num
    else if stream_equal s.current_state (back s).state
    then (back s).num
    else ((back s).num + 1) % 18446744073709551616

-- `back.sentAt = now`
unfoldable pub touch_back : List TimestampedState → ℕ → List TimestampedState
touch_back [] now = []
touch_back (x ∷ []) now = record x { sent_at = now } ∷ []
touch_back (x ∷ y ∷ xs) now = x ∷ touch_back (y ∷ xs) now

abbrev pub receiver_sent : Sending → Bool → ℕ → ℕ → Sending
receiver_sent r known now num =
    if r.sent
    then (let s = if known then r.sender else add_sent_state r.sender now num in
        record r {
          sender = record s {
            assumed_receiver_state_idx = length s.sent_states - 1;
            next_ack_time = now + ack_interval;
            have_send_time = false;
          };
        })
    else r

unfoldable pub send_to_receiver : Zlib → Sender → Conn → ℕ → Bytes → Sending
unfolding send_in_fragments add_sent_state new_num touch_back state_at
send_to_receiver z s c now diff =
    let num = new_num s in
    let known = num == (back s).num in
    let s' = if known then record s { sent_states = touch_back s.sent_states now } else s in
    receiver_sent (send_in_fragments z s' c diff num) known now num

abbrev pub unhurried : Sending → Sending
unhurried r = if r.sent then record r { sender = record r.sender { have_mindelay = false } } else r

abbrev pub due_ack : Zlib → Sender → Conn → ℕ → Sending
due_ack z s c now =
    if leb s.next_ack_time now
    then unhurried (send_empty_ack z s c now)
    else record { sender = s; datagrams = []; sent = true }

abbrev pub nothing_due : Sending → ℕ → Sending
nothing_due r now =
    if r.sent && (r.sender.have_send_time && leb r.sender.next_send_time now)
    then record r { sender = record r.sender { have_send_time = false; have_mindelay = false } }
    else r

-- Nothing to send but perhaps an acknowledgment; a failure to send it ends the call.
abbrev pub tick_ack : Zlib → Sender → Conn → ℕ → Sending
tick_ack z s c now = nothing_due (due_ack z s c now) now

abbrev pub tick_due : Zlib → Sender → Conn → ℕ → Bytes → Sending
tick_due z s c now diff =
    if length diff == 0 then tick_ack z s c now else unhurried (send_to_receiver z s c now diff)

abbrev pub is_waiting : Sender → ℕ → Bool
is_waiting s now = ltb now s.next_ack_time && (not s.have_send_time || ltb now s.next_send_time)

unfoldable pub tick : Zlib → Sender → Conn → ℕ → Sending
unfolding calculate_timers send_empty_ack send_to_receiver diff_from state_at
tick z s0 c now =
    let s = calculate_timers s0 c now in
    let diff =
      diff_from s.current_state (state_at s.sent_states s.assumed_receiver_state_idx).state in
    if is_waiting s now
    then record { sender = s; datagrams = []; sent = true }
    else tick_due z s c now diff

-- The states from the acknowledged one on.
unfoldable pub acknowledged : ℕ → List TimestampedState → Option (List TimestampedState)
acknowledged ack [] = none
acknowledged ack (x ∷ xs) = if x.num == ack then some (x ∷ xs) else acknowledged ack xs

abbrev pub keep : Sender → Option (List TimestampedState) → Sender
keep s none = s
keep s (some kept) = record s { sent_states = kept; assumed_receiver_state_idx = 0 }

unfoldable pub process_acknowledgment_through : Sender → ℕ → Sender
unfolding acknowledged
process_acknowledgment_through s ack = keep s (acknowledged ack s.sent_states)

unfoldable pub start_shutdown : Sender → Sender
start_shutdown s = record s { shutdown_in_progress = true }

unfoldable pub shutdown_acknowledged : Sender → Bool
unfolding state_at
shutdown_acknowledged s = s.shutdown_in_progress && (state_at s.sent_states 0).num == shutdown_num

unfoldable pub shutdown_ack_timed_out : Sender → Bool
shutdown_ack_timed_out s = s.shutdown_in_progress && leb shutdown_retries s.shutdown_tries
