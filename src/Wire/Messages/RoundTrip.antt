-- ===== src/Wire/Messages/RoundTrip.antt =====
-- `UnmarshalUserMessage` undoes `MarshalUserMessage`.
use gosh.Base.{
  ◌<◌, ◌≤◌, List, [], ◌∷◌, ◌++◌, Bytes, IsU64, All, length, ◌≡◌, sym, ap, ◌∙◌, append-nil,
  append_assoc, length-append, arith, ok,
}
use gosh.Base.Int.{ℤ, pos, IsInt64, to_uint64, of_uint64, of_uint64-to_uint64, to_uint64-lt}
use gosh.Wire.Fields.{append_bytes_field, append_uint64_field, parse_fields}
use gosh.Wire.Fields.Walk.{parse_fields-nil}
use gosh.Wire.Fields.Encoded.{
  append_uint64_field-append, append_bytes_field-append, parse_fields-append_uint64_field,
  parse_fields-append_bytes_field, length-append_uint64_field, length-append_bytes_field,
  parse_fields_one,
}
use gosh.Wire.Messages.{
  UserEvent, marshal_event, marshal_user_message_loop, marshal_user_message, keys_event,
  resize_event, visit_keystroke, visit_resize, visit_user_extension, visit_user_instruction,
  unmarshal_user_message,
}

-- An event as the client builds them: a run of keys that fits memory, or a resize whose sizes are
-- 64-bit ints; the fields of the other kind are empty.
pub data IsEvent : UserEvent → Type 0 where
  keys : (b : Bytes) → length b < 4294967296 → IsEvent (keys_event b)
  resized : (w h : ℤ) → IsInt64 w → IsInt64 h → IsEvent (resize_event w h)

parse_fields-resize_body :
    (w h : ℤ)
    → IsInt64 w
    → IsInt64 h
    → parse_fields visit_resize
        (append_uint64_field (append_uint64_field [] 5 (to_uint64 w)) 6 (to_uint64 h))
        (pos 0, pos 0)
      ≡ ok (w, h)
unfolding visit_resize
parse_fields-resize_body w h hw hh =
    ap (λ b. parse_fields visit_resize b (pos 0, pos 0))
      (append_uint64_field-append _ 6 (to_uint64 h) (omega arith) (to_uint64-lt h))
    ∙ parse_fields-append_uint64_field visit_resize 5 _ _ _ (omega arith) (to_uint64-lt w)
    ∙ ap (λ b. parse_fields visit_resize b (of_uint64 (to_uint64 w), pos 0))
        (sym (append-nil (append_uint64_field [] 6 (to_uint64 h))))
    ∙ parse_fields-append_uint64_field visit_resize 6 _ [] _ (omega arith) (to_uint64-lt h)
    ∙ rw (parse_fields-nil, of_uint64-to_uint64 w hw, of_uint64-to_uint64 h hh)

length-resize_body :
    (w h : ℤ)
    → length (append_uint64_field (append_uint64_field [] 5 (to_uint64 w)) 6 (to_uint64 h)) ≤ 40
length-resize_body w h =
    rw (append_uint64_field-append _ 6 (to_uint64 h) (omega arith) (to_uint64-lt h)) (
      omega (
        arith,
        length-append (append_uint64_field [] 5 (to_uint64 w))
            (append_uint64_field [] 6 (to_uint64 h)),
        length-append_uint64_field 5 (to_uint64 w) (omega arith) (to_uint64-lt w),
        length-append_uint64_field 6 (to_uint64 h) (omega arith) (to_uint64-lt h),
      ))

length-marshal_event : {ev : UserEvent} → IsEvent ev → IsU64 (length (marshal_event ev))
unfolding marshal_event
length-marshal_event (keys b h) = omega (
  arith,
  length-append_bytes_field 4 b (omega arith) (omega arith),
  length-append_bytes_field 2 (append_bytes_field [] 4 b) (omega arith)
      (omega (arith, length-append_bytes_field 4 b (omega arith) (omega arith))),
)
length-marshal_event (resized w h hw hh) = omega (
  arith,
  length-resize_body w h,
  length-append_bytes_field 3
      (append_uint64_field (append_uint64_field [] 5 (to_uint64 w)) 6 (to_uint64 h)) (omega arith)
      (omega (arith, length-resize_body w h)),
)

-- One encoded event is decoded to that event, behind those that are there.
visit_user_instruction-marshal_event :
    {ev : UserEvent} (events : List UserEvent)
    → IsEvent ev
    → visit_user_instruction
        (record { num = 1; typ = 2; varix = 0; contents = marshal_event ev })
        events
      ≡ ok (events ++ ev ∷ [])
unfolding visit_user_instruction marshal_event visit_user_extension visit_keystroke
visit_user_instruction-marshal_event events (keys b h) =
    parse_fields_one visit_user_extension 2 (append_bytes_field [] 4 b) events (omega arith)
      (omega (arith, length-append_bytes_field 4 b (omega arith) (omega arith)))
    ∙ parse_fields_one visit_keystroke 4 b events (omega arith) (omega arith)
visit_user_instruction-marshal_event events (resized w h hw hh) =
    parse_fields_one visit_user_extension 3 _ events (omega arith)
      (omega (arith, length-resize_body w h))
    ∙ rw (parse_fields-resize_body w h hw hh)

marshal_user_message_loop-append :
    (out : Bytes) (events : List UserEvent)
    → All IsEvent events
    → marshal_user_message_loop out events ≡ out ++ marshal_user_message_loop [] events
unfolding marshal_user_message_loop
marshal_user_message_loop-append out [] h = sym (append-nil out)
marshal_user_message_loop-append out (ev ∷ events) (he, h) =
    let inner : Bytes = marshal_event ev in
    ap (λ b. marshal_user_message_loop b events)
      (append_bytes_field-append out 1 inner (omega arith) (length-marshal_event he))
    ∙ marshal_user_message_loop-append (out ++ append_bytes_field [] 1 inner) events h
    ∙ append_assoc out (append_bytes_field [] 1 inner) (marshal_user_message_loop [] events)
    ∙ ap (λ b. out ++ b)
        (sym (marshal_user_message_loop-append (append_bytes_field [] 1 inner) events h))

parse_fields-marshal_user_message :
    (events done : List UserEvent)
    → All IsEvent events
    → parse_fields visit_user_instruction (marshal_user_message_loop [] events) done
      ≡ ok (done ++ events)
unfolding marshal_user_message_loop
parse_fields-marshal_user_message [] done h =
    parse_fields-nil visit_user_instruction done ∙ ap ok (sym (append-nil done))
parse_fields-marshal_user_message (ev ∷ events) done (he, h) =
    ap (λ b. parse_fields visit_user_instruction b done)
      (marshal_user_message_loop-append (append_bytes_field [] 1 (marshal_event ev)) events h)
    ∙ parse_fields-append_bytes_field visit_user_instruction 1 (marshal_event ev)
        (marshal_user_message_loop [] events) done (omega arith) (length-marshal_event he)
    ∙ rw (visit_user_instruction-marshal_event done he)
        (parse_fields-marshal_user_message events (done ++ ev ∷ []) h)
    ∙ ap ok (append_assoc done (ev ∷ []) events)

-- A list of events comes back from its encoding, in order, where each of them is of one kind: keys,
-- fewer than 2 ^ 32 bytes of them, or a resize to a width and a height that are 64-bit integers.
pub unmarshal_user_message-marshal_user_message :
    (events : List UserEvent)
    → All IsEvent events
    → unmarshal_user_message (marshal_user_message events) ≡ ok events
unfolding unmarshal_user_message marshal_user_message
unmarshal_user_message-marshal_user_message events h = parse_fields-marshal_user_message events [] h
