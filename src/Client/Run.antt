-- ===== src/Client/Run.antt =====
-- internal/client/client.go: the event loop of `Run`, as a function of what comes in each of its
-- turns. `select` takes any event that is ready, so that every order of events is a schedule.
use gosh.Base.{
  ℕ, ◌-◌, List, [], ◌∷◌, Bytes, length, ltb, Bool, true, false, not, ◌&&◌, ◌||◌, if◌then◌else◌,
  Option, none, some,
}
use gosh.Base.Int.{ℤ}
use gosh.Statesync.UserStream.{UserStream, push_keys, push_resize}
use gosh.Osc52.Filter.{Filter}
use gosh.Transport.Error.{Zlib}
use gosh.Transport.Sender.{Sender, Conn, wait_time}
use gosh.Transport.Send.{tick, start_shutdown, shutdown_acknowledged, shutdown_ack_timed_out}
use gosh.Transport.Receiver.{Transport, RecvError, version_mismatch, receive}
use gosh.Client.Escape.{process_escapes}
use gosh.Client.Render.{filter_input}

pub record Config : Type 0 where
  pub disable_escape : Bool
  pub shutdown_timeout : ℕ

-- The variables of `Run`: `fatal` is whether the context's error is to be returned, and `ctx_done`
-- whether its cancellation is still to be waited for.
pub record Session : Type 0 where
  pub transport : Transport
  pub clip_in : Option Filter
  pub escape_pending : Bool
  pub quit_requested : Bool
  pub shutdown_from : ℕ
  pub fatal : Bool
  pub ctx_done : Bool

-- What `select` takes; a cancellation is no event where it is not waited for any more. For a datagram with what `Apply` answers for a diff, for a resize with the new
-- size.
pub data Event : Type 0 where
  cancelled : Event
  input : Bytes → Event
  datagram : (Bytes → Bool) → Bytes → Event
  resized : ℤ → ℤ → Event
  timer : Event

-- A turn: the connection and the time at its start, and the event with the time that it comes at.
pub record Turn : Type 0 where
  pub conn : Conn
  pub now : ℕ
  pub event : Event
  pub event_time : ℕ

-- How `Run` returns: with the context's error or none, or with the mismatch of versions.
pub data Ending : Type 0 where
  shut_down : Bool → Ending
  wrong_version : Ending

abbrev pub with_sender : Session → Sender → Session
with_sender s sender = record s { transport = record s.transport { sender = sender } }

abbrev pub push : Session → UserStream → Session
push s stream = with_sender s (record s.transport.sender { current_state = stream })

abbrev pub shut : Session → ℕ → Session
shut s now = record (with_sender s (start_shutdown s.transport.sender)) { shutdown_from = now }

abbrev pub answer_shutdown : Session → ℕ → Session
answer_shutdown s now =
    if s.transport.remote_shutdown && not s.transport.sender.shutdown_in_progress
    then shut s now
    else s

abbrev pub is_over : Config → Session → ℕ → Bool
is_over cfg s now =
    s.transport.sender.shutdown_in_progress
    && (shutdown_acknowledged s.transport.sender
        || shutdown_ack_timed_out s.transport.sender
        || ltb cfg.shutdown_timeout (now - s.shutdown_from))

-- The work before the wait: `none` where the loop goes on.
unfoldable pub start_turn : Zlib → Config → Session → Turn → Session × Option Ending
unfolding tick shutdown_acknowledged shutdown_ack_timed_out start_shutdown wait_time
start_turn z cfg s0 t =
    let ticked = with_sender s0 (tick z s0.transport.sender t.conn t.now).sender in
    let s = answer_shutdown ticked t.now in
    if is_over cfg s t.now
    then (s, some (shut_down s.fatal))
    else (with_sender s (wait_time s.transport.sender t.conn t.now).0, none)

abbrev pub quit_now : Session → ℕ → Session
quit_now s now =
    if s.quit_requested && not s.transport.sender.shutdown_in_progress then shut s now else s

abbrev pub forward : Session → Bytes → Session
forward s keys =
    let (clip, left) = filter_input s.clip_in keys in
    let s' = record s { clip_in = clip } in
    if ltb 0 (length left) then push s' (push_keys s.transport.sender.current_state left) else s'

abbrev pub typed_keys : Config → Session → Bytes → Session
typed_keys cfg s b =
    if cfg.disable_escape
    then forward s b
    else (let (keys, quit, pending) = process_escapes b s.escape_pending in
        forward (record s { escape_pending = pending; quit_requested = quit }) keys)

abbrev pub received : Session → Transport × Option RecvError → Session × Option Ending
received s (transport, some version_mismatch) =
    (record s { transport = transport }, some wrong_version)
received s (transport, _) = (record s { transport = transport }, none)

unfoldable pub take_event : Zlib → Config → Session → ℕ → Event → Session × Option Ending
unfolding push_keys push_resize receive process_escapes filter_input start_shutdown
take_event z cfg s now cancelled =
    if s.ctx_done
    then (record (shut s now) { ctx_done = false; quit_requested = true; fatal = true }, none)
    else (s, none)
take_event z cfg s now (input b) = (quit_now (typed_keys cfg s b) now, none)
take_event z cfg s now (datagram applies payload) =
    received s (receive z applies s.transport payload)
take_event z cfg s now (resized width height) =
    (push s (push_resize s.transport.sender.current_state width height), none)
take_event z cfg s now timer = (s, none)

abbrev pub turn_event : Zlib → Config → Turn → Session × Option Ending → Session × Option Ending
turn_event z cfg t (s, none) = take_event z cfg s t.event_time t.event
turn_event z cfg t (s, some e) = (s, some e)

abbrev pub turn : Zlib → Config → Session → Turn → Session × Option Ending
turn z cfg s t = turn_event z cfg t (start_turn z cfg s t)

-- The loop over a schedule: `none` where it still runs at the end of it.
abbrev pub go_on_with :
    (Session → Session × Option Ending) → Session × Option Ending → Session × Option Ending
go_on_with next (s, none) = next s
go_on_with next (s, some e) = (s, some e)

unfoldable pub run_loop : Zlib → Config → Session → List Turn → Session × Option Ending
unfolding start_turn take_event
run_loop z cfg s [] = (s, none)
run_loop z cfg s (t ∷ turns) = go_on_with (λ s'. run_loop z cfg s' turns) (turn z cfg s t)

-- Before the loop: the size of the terminal is the first event.
abbrev pub first_size : Session → ℤ → ℤ → Session
first_size s width height = push s (push_resize s.transport.sender.current_state width height)
