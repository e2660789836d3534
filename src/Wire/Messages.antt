-- ===== src/Wire/Messages.antt =====
-- internal/wire/wire.go: ClientBuffers.UserMessage, both ways, and HostBuffers.HostMessage, which
-- the client only reads. A message is a list of events; nil and the empty slice are one list.
pub mod RoundTrip
pub mod Total
use gosh.Base.{
  ℕ, List, [], ◌∷◌, ◌++◌, Bytes, Bool, true, false, ◌&&◌, not, ◌==◌, if◌then◌else◌, Result, ok, err,
  ◌>>=◌,
}
use gosh.Base.Int.{ℤ, pos, to_uint64, of_uint64}
use gosh.Wire.Error.{WireError}
use gosh.Wire.Fields.{Field, wire_bytes, append_bytes_field, append_uint64_field, parse_fields}

pub record UserEvent : Type 0 where
  pub keys : Bytes
  pub resize : Bool
  pub width : ℤ
  pub height : ℤ

-- `inner` of one round of the loop of `MarshalUserMessage`.
unfoldable pub marshal_event : UserEvent → Bytes
marshal_event ev =
    if ev.resize
    then (let rm = append_uint64_field [] 5 (to_uint64 ev.width) in
        let rm = append_uint64_field rm 6 (to_uint64 ev.height) in append_bytes_field [] 3 rm)
    else append_bytes_field [] 2 (append_bytes_field [] 4 ev.keys)

marshal_user_message_loop : Bytes → List UserEvent → Bytes
marshal_user_message_loop out [] = out
marshal_user_message_loop out (ev ∷ events) =
    marshal_user_message_loop (append_bytes_field out 1 (marshal_event ev)) events

unfoldable pub marshal_user_message : List UserEvent → Bytes
unfolding marshal_user_message_loop marshal_event
marshal_user_message events = marshal_user_message_loop [] events

abbrev pub keys_event : Bytes → UserEvent
keys_event b = record { keys = b; resize = false; width = pos 0; height = pos 0 }

abbrev pub resize_event : ℤ → ℤ → UserEvent
resize_event w h = record { keys = []; resize = true; width = w; height = h }

abbrev is_bytes : Field → ℕ → Bool
is_bytes f num = f.num == num && f.typ == wire_bytes

-- The innermost visitors: a keystroke, and the two sizes of a resize.
unfoldable pub visit_keystroke : Field → List UserEvent → Result WireError (List UserEvent)
visit_keystroke k events =
    if is_bytes k 4 then ok (events ++ keys_event k.contents ∷ []) else ok events

unfoldable pub visit_resize : Field → ℤ × ℤ → Result WireError (ℤ × ℤ)
visit_resize r (w, h) =
    if r.num == 5
    then ok (of_uint64 r.varix, h)
    else if r.num == 6
    then ok (w, of_uint64 r.varix)
    else ok (w, h)

unfoldable pub visit_user_extension : Field → List UserEvent → Result WireError (List UserEvent)
visit_user_extension ext events =
    if is_bytes ext 2
    then parse_fields visit_keystroke ext.contents events
    else if is_bytes ext 3
    then (do
      (w, h) ← parse_fields visit_resize ext.contents (pos 0, pos 0)
      ok (events ++ resize_event w h ∷ []))
    else ok events

unfoldable pub visit_user_instruction : Field → List UserEvent → Result WireError (List UserEvent)
visit_user_instruction f events =
    if not (is_bytes f 1) then ok events else parse_fields visit_user_extension f.contents events

unfoldable pub unmarshal_user_message : Bytes → Result WireError (List UserEvent)
unmarshal_user_message b = parse_fields visit_user_instruction b []

pub record HostEvent : Type 0 where
  pub host_bytes : Bytes
  pub resize : Bool
  pub width : ℤ
  pub height : ℤ
  pub echo_ack : Bool
  pub echo_ack_num : ℕ

abbrev empty_host_event : HostEvent
empty_host_event = record {
  host_bytes = [];
  resize = false;
  width = pos 0;
  height = pos 0;
  echo_ack = false;
  echo_ack_num = 0;
}

abbrev pub host_bytes_event : Bytes → HostEvent
host_bytes_event b = record empty_host_event { host_bytes = b }

abbrev pub host_resize_event : ℤ → ℤ → HostEvent
host_resize_event w h = record empty_host_event { resize = true; width = w; height = h }

abbrev pub echo_ack_event : ℕ → HostEvent
echo_ack_event n = record empty_host_event { echo_ack = true; echo_ack_num = n }

unfoldable pub visit_host_string : Field → List HostEvent → Result WireError (List HostEvent)
visit_host_string h events =
    if is_bytes h 4 then ok (events ++ host_bytes_event h.contents ∷ []) else ok events

unfoldable pub visit_echo_ack : Field → ℕ → Result WireError ℕ
visit_echo_ack e n = if e.num == 8 then ok e.varix else ok n

unfoldable pub visit_host_extension : Field → List HostEvent → Result WireError (List HostEvent)
visit_host_extension ext events =
    if is_bytes ext 2
    then parse_fields visit_host_string ext.contents events
    else if is_bytes ext 3
    then (do
      (w, h) ← parse_fields visit_resize ext.contents (pos 0, pos 0)
      ok (events ++ host_resize_event w h ∷ []))
    else if is_bytes ext 7
    then (do n ← parse_fields visit_echo_ack ext.contents 0; ok (events ++ echo_ack_event n ∷ []))
    else ok events

unfoldable pub visit_host_instruction : Field → List HostEvent → Result WireError (List HostEvent)
visit_host_instruction f events =
    if not (is_bytes f 1) then ok events else parse_fields visit_host_extension f.contents events

unfoldable pub unmarshal_host_message : Bytes → Result WireError (List HostEvent)
unmarshal_host_message b = parse_fields visit_host_instruction b []
