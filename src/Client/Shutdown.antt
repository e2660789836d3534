-- ===== src/Client/Shutdown.antt =====
-- internal/client/client.go: `Run` ends once its shutdown has begun.
use gosh.Base.{
  ◌≢◌, ℕ, ◌+◌, ◌-◌, ◌<◌, List, [], ◌∷◌, ◌++◌, Bytes, length, ltb, Bool, true, false, not, ◌&&◌,
  ◌||◌, if◌then◌else◌, Option, none, some, Bool-cases, ◌≡◌, refl, ap, ◌∙◌, inl, inr, All, arith,
}
use gosh.Transport.Error.{Zlib}
use gosh.Transport.Sender.{wait_time}
use gosh.Transport.Send.{tick, shutdown_acknowledged, shutdown_ack_timed_out}
use gosh.Transport.Send.Latch.{IsShutting, tick-IsShutting, wait_time-IsShutting}
use gosh.Transport.Receiver.{
  Transport, RecvError, version_mismatch, apply_failed, not_assembled, bad_instruction, receive,
}
use gosh.Transport.Receiver.Latch.{receive-IsShutting}
use gosh.Client.Escape.{process_escapes}
use gosh.Client.Render.{filter_input}
use gosh.Client.Run.{
  Config, Session, Event, cancelled, input, datagram, resized, timer, Turn, Ending, shut_down,
  with_sender, shut, answer_shutdown, is_over, start_turn, quit_now, forward, typed_keys, received,
  take_event, turn, turn_event, run_loop, go_on_with,
}

-- A session whose shutdown began at a time.
pub record IsEnding (s : Session) (from : ℕ) : Type 0 where
  pub shutting : IsShutting s.transport.sender
  pub since : s.shutdown_from ≡ from

-- An outcome that ends, or leaves the shutdown as it was.
abbrev Ends : ℕ → Session × Option Ending → Type 0
Ends from (s, none) = IsEnding s from
Ends from (s, some e) = Unit {0}

-- What starts a shutdown leaves one that has begun.
unless_begun :
    (a b : Bool) (s s' : Session) (from : ℕ)
    → b ≡ true
    → IsEnding s from
    → IsEnding (if a && not b then s' else s) from
unless_begun false b s s' from e h = h
unless_begun true true s s' from e h = h
unless_begun true false s s' from e h = absurd cc

answer_shutdown-IsEnding :
    (s : Session) (now from : ℕ) → IsEnding s from → IsEnding (answer_shutdown s now) from
answer_shutdown-IsEnding s now from h =
    unless_begun s.transport.remote_shutdown s.transport.sender.shutdown_in_progress s (shut s now)
      from h.shutting h

quit_now-IsEnding : (s : Session) (now from : ℕ) → IsEnding s from → IsEnding (quit_now s now) from
quit_now-IsEnding s now from h =
    unless_begun s.quit_requested s.transport.sender.shutdown_in_progress s (shut s now) from
      h.shutting h

forward-IsEnding :
    (s : Session) (keys : Bytes) (from : ℕ) → IsEnding s from → IsEnding (forward s keys) from
forward-IsEnding s keys from h =
    elim (Bool-cases (ltb 0 (length (filter_input s.clip_in keys).1))) [
      | inl e ↦ rw e (record { shutting = h.shutting; since = h.since })
      | inr e ↦ rw e (record { shutting = h.shutting; since = h.since })
    ]

typed_keys-IsEnding :
    (cfg : Config) (s : Session) (b : Bytes) (from : ℕ)
    → IsEnding s from
    → IsEnding (typed_keys cfg s b) from
typed_keys-IsEnding cfg s b from h = elim (Bool-cases cfg.disable_escape) [
  | inl e ↦ rw e (forward-IsEnding s b from h)
  | inr e ↦
      let (keys, quit, pending) = process_escapes b s.escape_pending in
      rw e (
        forward-IsEnding (record s { escape_pending = pending; quit_requested = quit }) keys from
          (record { shutting = h.shutting; since = h.since }))
]

received-Ends :
    (s : Session) (from : ℕ) (transport : Transport) (e : Option RecvError)
    → IsEnding s from
    → IsShutting transport.sender
    → Ends from (received s (transport, e))
received-Ends s from transport none h k = record { shutting = k; since = h.since }
received-Ends s from transport (some version_mismatch) h k = tt
received-Ends s from transport (some apply_failed) h k = record { shutting = k; since = h.since }
received-Ends s from transport (some (not_assembled x)) h k = record {
  shutting = k;
  since = h.since;
}
received-Ends s from transport (some (bad_instruction x)) h k = record {
  shutting = k;
  since = h.since;
}

-- The session at the test of the shutdown.
answered : Zlib → Session → Turn → Session
answered z s t =
    answer_shutdown (with_sender s (tick z s.transport.sender t.conn t.now).sender) t.now

answered-IsEnding :
    (z : Zlib) (s : Session) (t : Turn) (from : ℕ)
    → IsEnding s from
    → IsEnding (answered z s t) from
unfolding answered
answered-IsEnding z s t from h =
    answer_shutdown-IsEnding (with_sender s (tick z s.transport.sender t.conn t.now).sender) t.now
      from
      (record {
        shutting = tick-IsShutting z s.transport.sender t.conn t.now h.shutting;
        since = h.since;
      })

start_turn-Ends :
    (z : Zlib) (cfg : Config) (s : Session) (t : Turn) (from : ℕ)
    → IsEnding s from
    → Ends from (start_turn z cfg s t)
unfolding start_turn answered
start_turn-Ends z cfg s t from h =
    by_test (answered z s t) (is_over cfg (answered z s t) t.now) (answered-IsEnding z s t from h)
  where
    by_test :
        (s' : Session) (over : Bool)
        → IsEnding s' from
        → Ends from (
            if over
            then (s', some (shut_down s'.fatal))
            else (with_sender s' (wait_time s'.transport.sender t.conn t.now).0, none))
    by_test s' true g = tt
    by_test s' false g = record {
      shutting = wait_time-IsShutting s'.transport.sender t.conn t.now g.shutting;
      since = g.since;
    }

take_event-Ends :
    (z : Zlib) (cfg : Config) (s : Session) (now : ℕ) (ev : Event) (from : ℕ)
    → ev ≢ cancelled
    → IsEnding s from
    → Ends from (take_event z cfg s now ev)
unfolding take_event
take_event-Ends z cfg s now cancelled from d h = absurd (d refl)
take_event-Ends z cfg s now (input b) from d h =
    quit_now-IsEnding (typed_keys cfg s b) now from (typed_keys-IsEnding cfg s b from h)
take_event-Ends z cfg s now (datagram applies payload) from d h =
    received-Ends s from (receive z applies s.transport payload).0
      (receive z applies s.transport payload).1 h
      (receive-IsShutting z applies s.transport payload h.shutting)
take_event-Ends z cfg s now (resized width height) from d h = record {
  shutting = h.shutting;
  since = h.since;
}
take_event-Ends z cfg s now timer from d h = h

turn-Ends :
    (z : Zlib) (cfg : Config) (s : Session) (t : Turn) (from : ℕ)
    → t.event ≢ cancelled
    → IsEnding s from
    → Ends from (turn z cfg s t)
turn-Ends z cfg s t from d h = after (start_turn z cfg s t) (start_turn-Ends z cfg s t from h)
  where
    after : (r : Session × Option Ending) → Ends from r → Ends from (turn_event z cfg t r)
    after (s', none) g = take_event-Ends z cfg s' t.event_time t.event from d g
    after (s', some e) g = tt

last_of : (a b c : Bool) → c ≡ true → (a || b || c) ≡ true
last_of true b c e = refl
last_of false true c e = refl
last_of false false c e = e

is_over-late :
    (cfg : Config) (s : Session) (now from : ℕ)
    → IsEnding s from
    → from + cfg.shutdown_timeout < now
    → is_over cfg s now ≡ true
is_over-late cfg s now from h late =
    let past : ltb cfg.shutdown_timeout (now - s.shutdown_from) ≡ true = ground (arith, h.since) in
    (λ j.
      h.shutting j
      && (shutdown_acknowledged s.transport.sender
          || shutdown_ack_timed_out s.transport.sender
          || ltb cfg.shutdown_timeout (now - s.shutdown_from)))
    ∙ last_of (shutdown_acknowledged s.transport.sender) (shutdown_ack_timed_out s.transport.sender)
        _ past

-- A turn that starts too late is the last.
start_turn-late :
    (z : Zlib) (cfg : Config) (s : Session) (t : Turn) (from : ℕ)
    → IsEnding s from
    → from + cfg.shutdown_timeout < t.now
    → (e : Ending) × (start_turn z cfg s t ≡ (answered z s t, some e))
unfolding start_turn answered
start_turn-late z cfg s t from h late =
    by_test (answered z s t) (is_over cfg (answered z s t) t.now)
      (is_over-late cfg (answered z s t) t.now from (answered-IsEnding z s t from h) late)
  where
    by_test :
        (s' : Session) (over : Bool)
        → over ≡ true
        → (e : Ending) × (Path
            (Session × Option Ending)
            (if over
              then (s', some (shut_down s'.fatal))
              else (with_sender s' (wait_time s'.transport.sender t.conn t.now).0, none))
            (s', some e))
    by_test s' true g = (shut_down s'.fatal, refl)
    by_test s' false g = absurd cc

going_on :
    (z : Zlib) (cfg : Config) (turns : List Turn) (from : ℕ) (r : Session × Option Ending)
    → Ends from r
    → ((s : Session) → IsEnding s from → (e : Ending) × ((run_loop z cfg s turns).1 ≡ some e))
    → (e : Ending) × ((go_on_with (λ s. run_loop z cfg s turns) r).1 ≡ some e)
going_on z cfg turns from (s, none) g next = next s g
going_on z cfg turns from (s, some e) g next = (e, refl)

-- `Run` ends: once a shutdown has begun, and whatever comes but a cancellation of the context, which
-- would begin it anew, a turn that starts later than the limit after that time is the last at most.
pub run_loop_ends :
    (z : Zlib) (cfg : Config) (s : Session) (from : ℕ) (before after : List Turn) (t : Turn)
    → s.transport.sender.shutdown_in_progress ≡ true
    → s.shutdown_from ≡ from
    → All (λ b. b.event ≢ cancelled) before
    → from + cfg.shutdown_timeout < t.now
    → (e : Ending) × ((run_loop z cfg s (before ++ t ∷ after)).1 ≡ some e)
unfolding run_loop
run_loop_ends z cfg s from [] after t h k d late =
    let (e, last) = start_turn-late z cfg s t from (record { shutting = h; since = k }) late in
    (e, ap (λ r. (go_on_with (λ s'. run_loop z cfg s' after) (turn_event z cfg t r)).1) last)
run_loop_ends z cfg s from (b ∷ before) after t h k (d, ds) late =
    going_on z cfg (before ++ t ∷ after) from (turn z cfg s b)
      (turn-Ends z cfg s b from d (record { shutting = h; since = k }))
      (λ s' g. run_loop_ends z cfg s' from before after t g.shutting g.since ds late)
