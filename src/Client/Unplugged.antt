-- ===== src/Client/Unplugged.antt =====
-- internal/client/client.go: `Run` goes on over a link that is down.
use gosh.Base.{
  append_assoc, append-nil, sym, ℕ, ◌-◌, List, [], ◌∷◌, ◌++◌, Bytes, length, ltb, Bool, true, false,
  not, ◌&&◌, ◌||◌, ◌==◌, if◌then◌else◌, Option, none, some, Bool-cases, inl, inr, All, ◌≡◌, ◌≢◌, ap,
  ◌∙◌, arith,
}
use gosh.Base.Int.{ℤ}
use gosh.Transport.Error.{Zlib}
use gosh.Transport.Sender.{wait_time}
use gosh.Transport.Send.{tick, shutdown_acknowledged, shutdown_ack_timed_out}
use gosh.Transport.Send.Latch.{tick-IsShutting, wait_time-IsShutting}
use gosh.Client.Escape.{escape_key, process_escapes, process_escapes_loop}
use gosh.Client.Render.{filter_input}
use gosh.Client.Run.{
  Config, Session, Event, input, resized, timer, Turn, Ending, shut_down, with_sender,
  answer_shutdown, is_over, start_turn, quit_now, forward, typed_keys, take_event, turn, turn_event,
  run_loop, go_on_with,
}

-- A session that nobody has asked to end, between two inputs.
abbrev pub IsOpen : Session → Type 0
IsOpen s =
    (s.transport.sender.shutdown_in_progress ≡ false)
    × (s.transport.remote_shutdown ≡ false)
    × (s.escape_pending ≡ false)
    × (s.quit_requested ≡ false)

-- What comes when the link is down: keys other than the escape key, resizes and the timer.
pub data IsLocal : Event → Type 0 where
  typed : {b : Bytes} → All (λ c. c ≢ escape_key) b → IsLocal (input b)
  sized : {w h : ℤ} → IsLocal (resized w h)
  waited : IsLocal timer

-- The loop has not ended, and the session is open.
abbrev pub GoesOn : Session × Option Ending → Type 0
GoesOn (s, none) = IsOpen s
GoesOn (s, some e) = ⊥

process_escapes_loop-plain :
    (out b : Bytes)
    → All (λ c. c ≢ escape_key) b
    → process_escapes_loop out b false ≡ (out ++ b, false, false)
unfolding process_escapes_loop
process_escapes_loop-plain out [] h = ap (λ o. (o, false, false)) (sym (append-nil out))
process_escapes_loop-plain out (c ∷ b) (p, h) =
    let plain : (c == escape_key) ≡ false = ground arith in
    rw plain (
      process_escapes_loop-plain (out ++ c ∷ []) b h
      ∙ ap (λ o. (o, false, false)) (append_assoc out (c ∷ []) b))

unless_asked :
    (a b : Bool) (s s' : Session) → a ≡ false → IsOpen s → IsOpen (if a && not b then s' else s)
unless_asked false b s s' e h = h
unless_asked true b s s' e h = absurd cc

-- The session at the test of the shutdown, and the test, which finds none.
answered : Zlib → Session → Turn → Session
answered z s t =
    answer_shutdown (with_sender s (tick z s.transport.sender t.conn t.now).sender) t.now

answered-IsOpen : (z : Zlib) (s : Session) (t : Turn) → IsOpen s → IsOpen (answered z s t)
unfolding answered
answered-IsOpen z s t h =
    let sender = (tick z s.transport.sender t.conn t.now).sender in
    unless_asked s.transport.remote_shutdown sender.shutdown_in_progress (with_sender s sender) _
      h.1 ((tick-IsShutting z s.transport.sender t.conn t.now h.0, h.1, h.2, h.3))

is_over-IsOpen : (cfg : Config) (s : Session) (now : ℕ) → IsOpen s → is_over cfg s now ≡ false
is_over-IsOpen cfg s now h = λ j.
    h.0 j
    && (shutdown_acknowledged s.transport.sender
        || shutdown_ack_timed_out s.transport.sender
        || ltb cfg.shutdown_timeout (now - s.shutdown_from))

start_turn-GoesOn :
    (z : Zlib) (cfg : Config) (s : Session) (t : Turn) → IsOpen s → GoesOn (start_turn z cfg s t)
unfolding start_turn answered
start_turn-GoesOn z cfg s t h =
    by_test (answered z s t) (is_over cfg (answered z s t) t.now)
      (is_over-IsOpen cfg (answered z s t) t.now (answered-IsOpen z s t h))
      (answered-IsOpen z s t h)
  where
    by_test :
        (s' : Session) (over : Bool)
        → over ≡ false
        → IsOpen s'
        → GoesOn (
            if over
            then (s', some (shut_down s'.fatal))
            else (with_sender s' (wait_time s'.transport.sender t.conn t.now).0, none))
    by_test s' true e g = absurd cc
    by_test s' false e g =
        (wait_time-IsShutting s'.transport.sender t.conn t.now g.0, g.1, g.2, g.3)

forward-IsOpen : (s : Session) (keys : Bytes) → IsOpen s → IsOpen (forward s keys)
forward-IsOpen s keys h = elim (Bool-cases (ltb 0 (length (filter_input s.clip_in keys).1))) [
  | inl e ↦ simp e (h)
  | inr e ↦ simp e (h)
]

typed_keys-IsOpen :
    (cfg : Config) (s : Session) (b : Bytes)
    → All (λ c. c ≢ escape_key) b
    → IsOpen s
    → IsOpen (typed_keys cfg s b)
unfolding process_escapes
typed_keys-IsOpen cfg s b p h = elim (Bool-cases cfg.disable_escape) [
  | inl e ↦ simp e (forward-IsOpen s b h)
  | inr e ↦
      let plain : process_escapes b s.escape_pending ≡ (b, false, false) =
        ap (process_escapes_loop [] b) h.2 ∙ process_escapes_loop-plain [] b p in
      let (keys, quit, pending) = process_escapes b s.escape_pending in
      simp e (
        forward-IsOpen (record s { escape_pending = pending; quit_requested = quit }) keys
          ((h.0, h.1, ap (λ r. r.2) plain, ap (λ r. r.1) plain)))
]

quit_now-IsOpen : (s : Session) (now : ℕ) → IsOpen s → IsOpen (quit_now s now)
quit_now-IsOpen s now h =
    unless_asked s.quit_requested s.transport.sender.shutdown_in_progress s _ h.3 h

take_event-GoesOn :
    (z : Zlib) (cfg : Config) (s : Session) (now : ℕ) {ev : Event}
    → IsLocal ev
    → IsOpen s
    → GoesOn (take_event z cfg s now ev)
unfolding take_event
take_event-GoesOn z cfg s now (typed {b} p) h =
    quit_now-IsOpen (typed_keys cfg s b) now (typed_keys-IsOpen cfg s b p h)
take_event-GoesOn z cfg s now sized h = h
take_event-GoesOn z cfg s now waited h = h

turn-GoesOn :
    (z : Zlib) (cfg : Config) (s : Session) (t : Turn)
    → IsLocal t.event
    → IsOpen s
    → GoesOn (turn z cfg s t)
turn-GoesOn z cfg s t l h = after (start_turn z cfg s t) (start_turn-GoesOn z cfg s t h)
  where
    after : (r : Session × Option Ending) → GoesOn r → GoesOn (turn_event z cfg t r)
    after (s', none) g = take_event-GoesOn z cfg s' t.event_time l g
    after (s', some e) g = absurd g

going_on :
    (z : Zlib) (cfg : Config) (turns : List Turn) (r : Session × Option Ending)
    → GoesOn r
    → ((s : Session) → IsOpen s → GoesOn (run_loop z cfg s turns))
    → GoesOn (go_on_with (λ s. run_loop z cfg s turns) r)
going_on z cfg turns (s, none) g next = next s g
going_on z cfg turns (s, some e) g next = absurd g

-- A link that is down ends no session: where nobody has asked to end it, and no datagram arrives, the
-- loop goes on through every schedule of keys other than the escape key, of resizes and of timers,
-- whatever becomes of the datagrams that it sends.
pub run_loop-GoesOn :
    (z : Zlib) (cfg : Config) (s : Session) (turns : List Turn)
    → IsOpen s
    → All (λ t. IsLocal t.event) turns
    → GoesOn (run_loop z cfg s turns)
unfolding run_loop
run_loop-GoesOn z cfg s [] h l = h
run_loop-GoesOn z cfg s (t ∷ turns) h (e, l) =
    going_on z cfg turns (turn z cfg s t) (turn-GoesOn z cfg s t e h)
      (λ s' g. run_loop-GoesOn z cfg s' turns g l)
