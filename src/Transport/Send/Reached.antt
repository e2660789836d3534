-- ===== src/Transport/Send/Reached.antt =====
-- internal/transport/sender.go: what a `sender` goes through keeps its states a chain.
use gosh.Base.{arith, ℕ, [], Bytes, refl}
use gosh.Transport.Send.Chain.{IsChained-alike, IsChained, IsChain-extend}
use gosh.Transport.Send.{start_shutdown, tick, process_acknowledgment_through}
use gosh.Transport.Sender.{set_data_ack, set_ack_num, Sender, Conn, calculate_timers, new_sender}
use gosh.Base.Int.{IsInt64, ℤ}
use gosh.Statesync.UserStream.{push_keys, push_resize}
use gosh.Transport.Error.{Zlib}
use gosh.Transport.Send.Synced.{
  tick-IsChained, acknowledgment-IsChained, calculate_timers-IsChained,
}

-- What can happen to a sender: a call of `Tick`, an acknowledgment, and input of the
-- user; and what the transport and the event loop note in it.
pub data Step (z : Zlib) : Sender → Sender → Type 0 where
  ticked : (s : Sender) (c : Conn) (now : ℕ) → Step z s (tick z s c now).sender
  acked : (s : Sender) (ack : ℕ) → Step z s (process_acknowledgment_through s ack)
  timed : (s : Sender) (c : Conn) (now : ℕ) → Step z s (calculate_timers s c now)
  typed :
      (s : Sender) (b : Bytes) → Step z s (record s { current_state = push_keys s.current_state b })
  resized :
      (s : Sender) (w h : ℤ)
      → IsInt64 w
      → IsInt64 h
      → Step z s (record s { current_state = push_resize s.current_state w h })
  heard : (s : Sender) (n : ℕ) → Step z s (set_ack_num s n)
  owed : (s : Sender) → Step z s (set_data_ack s)
  shut : (s : Sender) → Step z s (start_shutdown s)

pub data Reach (z : Zlib) (s : Sender) : Sender → Type 0 where
  here : Reach z s s
  next : {t u : Sender} → Reach z s t → Step z t u → Reach z s u

Step-IsChained : {z : Zlib} {s t : Sender} → Step z s t → IsChained s → IsChained t
unfolding push_keys push_resize set_ack_num set_data_ack start_shutdown
Step-IsChained {z} (ticked s c now) h = tick-IsChained z s c now h
Step-IsChained (acked s ack) h = acknowledgment-IsChained s ack h
Step-IsChained (timed s c now) h = calculate_timers-IsChained s c now h
Step-IsChained (typed s b) h = IsChain-extend s.sent_states s.current_state.events _ h
Step-IsChained (resized s w x _ _) h = IsChain-extend s.sent_states s.current_state.events _ h
Step-IsChained (heard s n) h = IsChained-alike s (set_ack_num s n) (ground arith) h
Step-IsChained (owed s) h = h
Step-IsChained (shut s) h = h

new_sender-IsChained : (now : ℕ) → IsChained (new_sender now)
unfolding new_sender
new_sender-IsChained now = (([], refl), tt, tt)

-- Whatever a new sender goes through (ticks over any connection, any acknowledgments, keys,
-- resizes, a shutdown), each state that it keeps begins every later one, and the current one.
pub Reach-IsChained : (z : Zlib) (now : ℕ) {s : Sender} → Reach z (new_sender now) s → IsChained s
Reach-IsChained z now here = new_sender-IsChained now
Reach-IsChained z now (next r step) = Step-IsChained step (Reach-IsChained z now r)
