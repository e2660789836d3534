-- ===== src/Wire/Messages/Total.antt =====
-- The decoders of the user and host messages end on every input.
use gosh.Base.{
  ℕ, List, [], ◌∷◌, ◌++◌, Bytes, ◌≢◌, arith, Result, ok, err, ◌>>=◌, >>=-eq-err, inl, inr,
}
use gosh.Base.Int.{ℤ, pos}
use gosh.Wire.Error.{WireError, out_of_fuel}
use gosh.Wire.Fields.{Field, parse_fields}
use gosh.Wire.Fields.Walk.{parse_fields-ne-out_of_fuel}
use gosh.Wire.Messages.{
  UserEvent, HostEvent, visit_keystroke, visit_resize, visit_user_extension, visit_user_instruction,
  unmarshal_user_message, visit_host_string, visit_echo_ack, visit_host_extension,
  visit_host_instruction, unmarshal_host_message, resize_event, host_resize_event, echo_ack_event,
}

visit_keystroke-total : (f : Field) (s : List UserEvent) → visit_keystroke f s ≢ err out_of_fuel
unfolding visit_keystroke
visit_keystroke-total f s e = ground arith

visit_resize-total : (f : Field) (s : ℤ × ℤ) → visit_resize f s ≢ err out_of_fuel
unfolding visit_resize
visit_resize-total f (w, h) e = ground arith

visit_host_string-total : (f : Field) (s : List HostEvent) → visit_host_string f s ≢ err out_of_fuel
unfolding visit_host_string
visit_host_string-total f s e = ground arith

visit_echo_ack-total : (f : Field) (s : ℕ) → visit_echo_ack f s ≢ err out_of_fuel
unfolding visit_echo_ack
visit_echo_ack-total f s e = ground arith

-- A walk whose result is put into an event.
module _ {A B : Type 0} (m : Result WireError A) (put : A → B) where
  then_put-total : m ≢ err out_of_fuel → (m >>= λ a. ok (put a)) ≢ err out_of_fuel
  then_put-total h e = elim (>>=-eq-err m _ e) [ inl x ↦ h x | inr (a, r, x) ↦ cc ]

keystrokes-total :
    (b : Bytes) (s : List UserEvent) → parse_fields visit_keystroke b s ≢ err out_of_fuel
keystrokes-total b s = parse_fields-ne-out_of_fuel visit_keystroke b s visit_keystroke-total

resizes-total : (b : Bytes) (s : ℤ × ℤ) → parse_fields visit_resize b s ≢ err out_of_fuel
resizes-total b s = parse_fields-ne-out_of_fuel visit_resize b s visit_resize-total

visit_user_extension-total :
    (f : Field) (s : List UserEvent) → visit_user_extension f s ≢ err out_of_fuel
unfolding visit_user_extension
visit_user_extension-total f s e = ground (
  arith,
  keystrokes-total f.contents s,
  then_put-total (parse_fields visit_resize f.contents (pos 0, pos 0))
      (λ wh. s ++ resize_event wh.0 wh.1 ∷ []) (resizes-total f.contents (pos 0, pos 0)),
)

visit_host_extension-total :
    (f : Field) (s : List HostEvent) → visit_host_extension f s ≢ err out_of_fuel
unfolding visit_host_extension
visit_host_extension-total f s e = ground (
  arith,
  parse_fields-ne-out_of_fuel visit_host_string f.contents s visit_host_string-total,
  then_put-total (parse_fields visit_resize f.contents (pos 0, pos 0))
      (λ wh. s ++ host_resize_event wh.0 wh.1 ∷ []) (resizes-total f.contents (pos 0, pos 0)),
  then_put-total (parse_fields visit_echo_ack f.contents 0) (λ n. s ++ echo_ack_event n ∷ [])
      (parse_fields-ne-out_of_fuel visit_echo_ack f.contents 0 visit_echo_ack-total),
)

visit_user_instruction-total :
    (f : Field) (s : List UserEvent) → visit_user_instruction f s ≢ err out_of_fuel
unfolding visit_user_instruction
visit_user_instruction-total f s e = ground (
  arith,
  parse_fields-ne-out_of_fuel visit_user_extension f.contents s visit_user_extension-total,
)

visit_host_instruction-total :
    (f : Field) (s : List HostEvent) → visit_host_instruction f s ≢ err out_of_fuel
unfolding visit_host_instruction
visit_host_instruction-total f s e = ground (
  arith,
  parse_fields-ne-out_of_fuel visit_host_extension f.contents s visit_host_extension-total,
)

-- Both message decoders end on every input: none of their nested walks stops for want of rounds.
pub unmarshal_messages_total :
    (b : Bytes)
    → (unmarshal_user_message b ≢ err out_of_fuel) × (unmarshal_host_message b ≢ err out_of_fuel)
unfolding unmarshal_user_message unmarshal_host_message
unmarshal_messages_total b = (
  parse_fields-ne-out_of_fuel visit_user_instruction b [] visit_user_instruction-total,
  parse_fields-ne-out_of_fuel visit_host_instruction b [] visit_host_instruction-total,
)
