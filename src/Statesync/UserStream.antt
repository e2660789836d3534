-- ===== src/Statesync/UserStream.antt =====
-- internal/statesync/userstream.go: `UserStream` and its methods. A stream is its list of events.
use gosh.Base.{
  List, [], ◌∷◌, ◌++◌, map, Bytes, length, drop, equal, Bool, true, false, not, ◌&&◌, leb, ◌==◌,
  if◌then◌else◌,
}
use gosh.Base.Int.{ℤ, pos, negsuc}
use gosh.Wire.Messages.{UserEvent, keys_event, resize_event, marshal_user_message}

pub record UserStream : Type 0 where
  pub events : List UserEvent

unfoldable pub push_keys : UserStream → Bytes → UserStream
push_keys u b = record { events = u.events ++ map (λ c. keys_event (c ∷ [])) b }

unfoldable pub push_resize : UserStream → ℤ → ℤ → UserStream
push_resize u width height = record { events = u.events ++ resize_event width height ∷ [] }

-- Comparison of two ints.
abbrev pub int_equal : ℤ → ℤ → Bool
int_equal (pos m) (pos n) = m == n
int_equal (negsuc m) (negsuc n) = m == n
int_equal _ _ = false

abbrev pub bool_equal : Bool → Bool → Bool
bool_equal true b = b
bool_equal false b = not b

unfoldable pub event_equal : UserEvent → UserEvent → Bool
event_equal a b =
    bool_equal a.resize b.resize
    && (int_equal a.width b.width && (int_equal a.height b.height && equal a.keys b.keys))

unfoldable pub events_equal : List UserEvent → List UserEvent → Bool
unfolding event_equal
events_equal [] [] = true
events_equal (a ∷ us) (b ∷ os) = event_equal a b && events_equal us os
events_equal _ _ = false

-- `UserStream.Equal`; streams of two lengths differ, as in the source.
unfoldable pub stream_equal : UserStream → UserStream → Bool
unfolding events_equal
stream_equal u o = events_equal u.events o.events

unfoldable pub subtract : UserStream → UserStream → UserStream
subtract u prefix = record { events = drop (length prefix.events) u.events }

-- A keystroke joins the last event where that is one of keys, too.
unfoldable pub absorb : List UserEvent → UserEvent → List UserEvent
absorb [] ev = keys_event ev.keys ∷ []
absorb (x ∷ []) ev =
    if x.resize then x ∷ keys_event ev.keys ∷ [] else record x { keys = x.keys ++ ev.keys } ∷ []
absorb (x ∷ y ∷ xs) ev = x ∷ absorb (y ∷ xs) ev

unfoldable pub coalesce : List UserEvent → List UserEvent → List UserEvent
unfolding absorb
coalesce coalesced [] = coalesced
coalesce coalesced (ev ∷ suffix) =
    coalesce (if ev.resize then coalesced ++ ev ∷ [] else absorb coalesced ev) suffix

unfoldable pub diff_from : UserStream → UserStream → Bytes
unfolding coalesce
diff_from u existing =
    if leb (length u.events) (length existing.events)
    then []
    else marshal_user_message (coalesce [] (drop (length existing.events) u.events))
