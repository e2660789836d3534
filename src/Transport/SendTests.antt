-- ===== src/Transport/SendTests.antt =====
-- Runs of a sender of internal/transport with something to send.
use gosh.Transport.Send.Delivered.{due_instruction, due_bytes}
use gosh.Wire.Instruction.RoundTrip.{IsValid}
use gosh.Transport.Send.{instruction, tick, new_num, process_acknowledgment_through}
use gosh.Statesync.UserStream.{diff_from, push_keys}
use gosh.Base.{ℕ, List, [], ◌∷◌, Bytes, length, true, ◌≡◌, refl, some, ok, arith, map}
use gosh.Wire.Messages.{UserEvent, marshal_user_message}
use gosh.Wire.Instruction.{Instruction, unmarshal_instruction}
use gosh.Statesync.Diff.{key}
use gosh.Transport.Assembly.{Assembly, new_assembly}
use gosh.Transport.Assembly.InOrder.{ingest_all, waiting}
use gosh.Transport.Sender.{Sender, Conn, new_sender, calculate_timers, initial_state}
use gosh.Wire.Fields.{append_bytes_field, append_uint64_field}
use gosh.Wire.Varint.{append_varint}
use gosh.Transport.Send.Agreed.{tick-names, tick-delivers}
use gosh.Transport.Send.Named.{IsNamed, tick-IsNumbered}
use gosh.Transport.Fragment.{Fragment, Fragmenter, make_fragments}
use gosh.Transport.Send.Chain.{IsChained}
use gosh.Transport.Send.Reached.{here, next, typed, Reach-IsChained}
use gosh.Transport.Send.Numbers.{History, IsNumbered}
use gosh.Transport.Send.Bounds.{IsBounded}
use gosh.Base.Prefixes.{IsPrefix}
use gosh.Transport.Tests.{stored, stored-IsZlib}

abbrev conn : Conn
conn = record {
  half_srtt = 500;
  timeout = 1000;
  mtu = 472;
  sends = λ b. true;
  burst = 99;
  chaff = 1 ∷ 2 ∷ [];
}

-- Two keys wait in it.
abbrev waiting_keys : Sender
waiting_keys = record (new_sender 5) {
  current_state = push_keys (new_sender 5).current_state (7 ∷ 8 ∷ []);
}

Reach-IsChained_example : IsChained waiting_keys
Reach-IsChained_example = Reach-IsChained stored 5 (next here (typed (new_sender 5) (7 ∷ 8 ∷ [])))

valid : IsValid (due_instruction (calculate_timers waiting_keys conn 5) conn)
unfolding new_sender push_keys calculate_timers diff_from instruction new_num marshal_user_message
    append_bytes_field append_varint
valid = record {
  protocol_version_fits = omega arith;
  old_num_fits = omega arith;
  new_num_fits = omega arith;
  ack_num_fits = omega arith;
  throwaway_num_fits = omega arith;
  diff_fits = omega arith;
  chaff_fits = omega arith;
}

abbrev bytes : Bytes
bytes = due_bytes (calculate_timers waiting_keys conn 5) conn

size_of : length bytes ≡ 24
unfolding new_sender push_keys calculate_timers diff_from instruction new_num marshal_user_message
    append_bytes_field append_varint append_uint64_field gosh.Wire.Instruction.marshal
size_of = refl

waiting_keys-IsNumbered : IsNumbered ([] ∷ []) [] waiting_keys
unfolding new_sender
waiting_keys-IsNumbered = ((refl, tt), initial_state 5, ([], refl), refl)

waiting_keys-IsBounded : IsBounded waiting_keys
unfolding new_sender
waiting_keys-IsBounded = record { known = omega arith; few = omega arith; in_range = omega arith }

waiting_keys-IsChained : IsChained waiting_keys
unfolding new_sender
waiting_keys-IsChained = ((waiting_keys.current_state.events, refl), tt, tt)

tick-IsNumbered_example :
    ((hist' : History) × (cut' : List UserEvent) × IsPrefix ([] ∷ []) hist'
      × IsPrefix {A = UserEvent} [] cut'
      × IsNumbered hist' cut' (tick stored waiting_keys conn 5).sender)
    × IsNumbered ([] ∷ []) [] (process_acknowledgment_through waiting_keys 0)
unfolding new_sender
tick-IsNumbered_example =
    tick-IsNumbered stored ([] ∷ []) [] waiting_keys conn 5 0 waiting_keys-IsChained
      waiting_keys-IsNumbered refl (omega arith)

keys_sent : (tick stored waiting_keys conn 5).sent ≡ true
unfolding tick new_sender push_keys marshal_user_message append_bytes_field append_varint
    append_uint64_field gosh.Transport.Fragment.make_fragments gosh.Wire.Instruction.marshal
keys_sent = refl

tick-names_example :
    (i : Instruction) × (fr : Fragmenter) × (frags : List Fragment) × (make_fragments stored
        waiting_keys.fragmenter
        (gosh.Wire.Instruction.marshal i)
        conn.mtu
      ≡ some (fr, frags))
    × IsPrefix
        (tick stored waiting_keys conn 5).datagrams
        (map gosh.Transport.Fragment.marshal frags)
    × IsNamed ([] ∷ []) [] waiting_keys (tick stored waiting_keys conn 5).sender i
unfolding new_sender push_keys calculate_timers diff_from instruction new_num marshal_user_message
    append_bytes_field append_varint
tick-names_example =
    tick-names stored ([] ∷ []) [] waiting_keys conn 5 waiting_keys-IsChained waiting_keys-IsBounded
      waiting_keys-IsNumbered refl (omega arith) (key 7, (key 8, tt)) (omega arith) (omega arith)
      refl refl keys_sent

tick-delivers_example :
    (i : Instruction) × (n : ℕ) × (b : Bytes) × (a' : Assembly) × (ingest_all stored new_assembly
        (tick stored waiting_keys conn 5).datagrams
      ≡ (a', waiting n (ok (some b))))
    × (unmarshal_instruction b ≡ ok i)
    × IsNamed ([] ∷ []) [] waiting_keys (tick stored waiting_keys conn 5).sender i
unfolding new_sender push_keys calculate_timers diff_from instruction new_num marshal_user_message
    append_bytes_field append_varint
tick-delivers_example =
    tick-delivers stored ([] ∷ []) [] waiting_keys conn 5 new_assembly stored-IsZlib
      waiting_keys-IsChained waiting_keys-IsBounded waiting_keys-IsNumbered refl (omega arith)
      (key 7, (key 8, tt)) (omega arith) (omega arith) refl (λ b. refl) (omega arith) refl refl
      valid (omega (arith, size_of)) (omega (arith, size_of)) (omega (arith, size_of))
