-- ===== src/Client/Tests.antt =====
-- Runs of internal/client.
use gosh.Wire.Fields.{parse_fields, next_field, field_value}
use gosh.Wire.Varint.{read_varint}
use gosh.Wire.Messages.{
  visit_host_string, visit_host_extension, visit_host_instruction, unmarshal_host_message,
  host_bytes_event,
}
use gosh.Base.{
  ℕ, ◌≢◌, ap, Result, All, [], ◌∷◌, ◌++◌, Bytes, true, false, ◌≡◌, refl, inl, ok, none, some, arith,
}
use gosh.Transport.Error.{Zlib, ZlibError}
use gosh.Transport.Sender.{Conn, new_sender}
use gosh.Transport.Send.{start_shutdown}
use gosh.Transport.Receiver.{new_transport}
use gosh.Client.Run.{
  Config, Session, Event, cancelled, input, timer, Turn, Ending, run_loop, resized,
}
use gosh.Client.Shutdown.{run_loop_ends}
use gosh.Client.Unplugged.{IsOpen, GoesOn, typed, sized, waited, run_loop-GoesOn}
use gosh.Base.Int.{pos}
use gosh.Base.Text.{codes}
use gosh.Client.Answers.{after, filter_input-answer}
use gosh.Client.Render.{clip_in, Terminal, shown, apply_diff, apply_diff-shown, filter_input}
use gosh.Osc52.Filter.{esc, new, bel}
use gosh.Osc52.Policy.{Policy, write, full}
use gosh.Osc52.Machine.Sequences.{IsClipboard, clipboard}
use gosh.Client.Escape.{escape_key, process_escapes}

pending_key : process_escapes (b'a' ∷ escape_key ∷ []) false ≡ (b'a' ∷ [], false, true)
unfolding process_escapes
pending_key = refl

abbrev screen : Terminal
screen = record { clip = new write; written = [] }

-- A host message of the two bytes `hi`.
abbrev hi : Bytes
hi = 10 ∷ 6 ∷ 18 ∷ 4 ∷ 34 ∷ 2 ∷ codes "hi"

hi-events : unmarshal_host_message hi ≡ ok (host_bytes_event (codes "hi") ∷ [])
unfolding unmarshal_host_message visit_host_instruction visit_host_extension visit_host_string
    parse_fields next_field field_value read_varint
hi-events = refl

apply_diff-shown_example : apply_diff (λ b. true) screen hi ≡ (shown screen (codes "hi"), none)
apply_diff-shown_example =
    apply_diff-shown (λ b. true) screen hi (host_bytes_event (codes "hi") ∷ []) (λ b. refl)
      hi-events

abbrev answer_shape : IsClipboard 0 (b'c' ∷ []) (codes "aGk=") bel
answer_shape = record {
  zeros = omega arith;
  one_selection = (refl, tt);
  plain_selection = (refl, tt);
  plain_payload = (refl, (refl, (refl, (refl, tt))));
  terminated = inl refl;
  fits = omega arith;
}

abbrev is_write : Policy → ℕ
is_write write = 1
is_write _ = 0

write_ne_full : write ≢ full
write_ne_full e = let bad : is_write write ≡ is_write full = ap is_write e in absurd (omega arith)

-- A read that leaves a sequence open, and then an answer between two keys.
filter_input-answer_example :
    ((filter_input
        (after (clip_in write) ((esc ∷ codes "]52;c") ∷ []))
        (codes "a" ++ (clipboard 0 (b'c' ∷ []) (codes "aGk=") bel ++ codes "b"))).1
      ≡ codes "ab")
    × ((filter_input (after (clip_in full) ((esc ∷ codes "]52;c") ∷ [])) (codes "x")).1 ≡ codes "x")
filter_input-answer_example =
    filter_input-answer write ((esc ∷ codes "]52;c") ∷ []) 0 (codes "a") (b'c' ∷ []) (codes "aGk=")
      (codes "b") (codes "x") bel write_ne_full answer_shape (refl, tt) (refl, tt)

stored_read : Bytes → ℕ → Result ZlibError Bytes
stored_read b n = ok b

abbrev stored : Zlib
stored = record { compress = λ b. b; read = stored_read }

abbrev link : Conn
link = record {
  half_srtt = 50;
  timeout = 1000;
  mtu = 500;
  sends = λ d. false;
  burst = 10;
  chaff = [];
}

-- A session whose shutdown began at the time 1000, with a link on which nothing goes out.
abbrev closing : Session
closing = record {
  transport = record (new_transport 0) { sender = start_shutdown (new_sender 0) };
  clip_in = none;
  escape_pending = false;
  quit_requested = true;
  shutdown_from = 1000;
  fatal = false;
  ctx_done = true;
}

closing-IsShutting : closing.transport.sender.shutdown_in_progress ≡ true
unfolding start_shutdown
closing-IsShutting = refl

abbrev turn_at : ℕ → Event → Turn
turn_at now event = record { conn = link; now = now; event = event; event_time = now }

abbrev config : Config
config = record { disable_escape = false; shutdown_timeout = 3000 }

abbrev comes : Event → ℕ
comes cancelled = 0
comes _ = 1

not_cancelled : input (codes "x") ≢ cancelled
not_cancelled e =
    let bad : comes (input (codes "x")) ≡ comes cancelled = ap comes e in absurd (omega arith)

not_cancelled_timer : timer ≢ cancelled
not_cancelled_timer e = let bad : comes timer ≡ comes cancelled = ap comes e in absurd (omega arith)

run_loop_ends_example :
    (e : Ending) × ((run_loop stored config closing
        ((turn_at 1500 (input (codes "x")) ∷ turn_at 2500 timer ∷ []) ++ turn_at 4001 timer ∷ [])).1
      ≡ some e)
run_loop_ends_example =
    run_loop_ends stored config closing 1000
      (turn_at 1500 (input (codes "x")) ∷ turn_at 2500 timer ∷ []) [] (turn_at 4001 timer)
      closing-IsShutting refl (not_cancelled, (not_cancelled_timer, tt)) (omega arith)

-- A session that nobody has asked to end.
abbrev open_session : Session
open_session = record {
  transport = new_transport 0;
  clip_in = none;
  escape_pending = false;
  quit_requested = false;
  shutdown_from = 0;
  fatal = false;
  ctx_done = true;
}

plain_key : All (λ c. c ≢ escape_key) (codes "x")
plain_key = ((λ (e : b'x' ≡ escape_key). absurd (omega arith)), tt)

open_session-IsOpen : IsOpen open_session
unfolding new_sender
open_session-IsOpen = (refl, refl, refl, refl)

run_loop-GoesOn_example : GoesOn (
    run_loop stored config open_session (
      turn_at 500 (input (codes "x"))
      ∷ turn_at 900 (resized (pos 80) (pos 24))
      ∷ turn_at 9000 timer
      ∷ []))
run_loop-GoesOn_example =
    run_loop-GoesOn stored config open_session
      (turn_at 500 (input (codes "x"))
        ∷ turn_at 900 (resized (pos 80) (pos 24))
        ∷ turn_at 9000 timer
        ∷ [])
      open_session-IsOpen (typed plain_key, (sized, (waited, tt)))
