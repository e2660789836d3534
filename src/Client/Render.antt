-- ===== src/Client/Render.antt =====
-- internal/client/client.go: `apply` and `filterInput`, the two ends of the clipboard filter.
use gosh.Base.{
  inr, inl, Bool-cases, List, [], ◌∷◌, ◌++◌, append-nil, append_assoc, Bytes, length, Bool, true,
  false, ◌==◌, if◌then◌else◌, Option, none, some, Result, ok, err, ◌≡◌, refl, sym, ap, ◌∙◌, arith,
}
use gosh.Osc52.Filter.{Filter, new, filter, filter_chunk}
use gosh.Wire.Error.{WireError}
use gosh.Wire.Messages.{HostEvent, unmarshal_host_message}
use gosh.Osc52.Policy.{Policy, write, full, off}
use gosh.Osc52.Machine.{feed_all}
use gosh.Osc52.Machine.Streams.{feed_all-append}
use gosh.Osc52.Machine.Refines.{filter-feed_all}

pub data ApplyError : Type 0 where
  bad_host_message : WireError → ApplyError
  write_failed : ApplyError

-- The terminal: what a write does, and what has been written.
pub record Terminal : Type 0 where
  pub clip : Filter
  pub written : Bytes

-- The filter's rounds never run out (`filter-feed_all`), so that `none` is no case of the source.
abbrev pub filtered : Filter → Option (Filter × Bytes) → Filter × Bytes
filtered f none = (f, [])
filtered f (some r) = r

-- What the filter left of an event.
abbrev pub write_out : (Bytes → Bool) → Terminal → Filter → Bytes → Terminal × Option ApplyError
write_out writes t clip out =
    if length out == 0
    then (record t { clip = clip }, none)
    else if writes out
    then (record { clip = clip; written = t.written ++ out }, none)
    else (record t { clip = clip }, some write_failed)

-- One event: no bytes and nothing left of them are no write.
unfoldable pub apply_event : (Bytes → Bool) → Terminal → HostEvent → Terminal × Option ApplyError
apply_event writes t ev =
    if length ev.host_bytes == 0
    then (t, none)
    else (let (clip, out) = filtered t.clip (filter t.clip [] ev.host_bytes) in
        write_out writes t clip out)

abbrev pub go_on :
    Terminal × Option ApplyError
    → (Terminal → Terminal × Option ApplyError)
    → Terminal × Option ApplyError
go_on (t, none) k = k t
go_on (t, some e) k = (t, some e)

unfoldable pub apply_events :
    (Bytes → Bool) → Terminal → List HostEvent → Terminal × Option ApplyError
unfolding apply_event
apply_events writes t [] = (t, none)
apply_events writes t (ev ∷ events) =
    go_on (apply_event writes t ev) (λ t'. apply_events writes t' events)

abbrev pub apply_message :
    (Bytes → Bool) → Terminal → Result WireError (List HostEvent) → Terminal × Option ApplyError
apply_message writes t (err e) = (t, some (bad_host_message e))
apply_message writes t (ok events) = apply_events writes t events

unfoldable pub apply_diff : (Bytes → Bool) → Terminal → Bytes → Terminal × Option ApplyError
unfolding apply_events
apply_diff writes t diff = apply_message writes t (unmarshal_host_message diff)

-- `filterInput`: there is no filter under the policy full.
unfoldable pub filter_input : Option Filter → Bytes → Option Filter × Bytes
filter_input none keys = (none, keys)
filter_input (some f) keys =
    if length keys == 0
    then (some f, keys)
    else (let (g, out) = filtered f (filter_chunk f [] keys) in (some g, out))

-- The filters of a new session.
abbrev pub clip_in : Policy → Option Filter
clip_in full = none
clip_in write = some (new off)
clip_in off = some (new off)

-- The terminal bytes of a message, one after the other.
abbrev pub all_bytes : List HostEvent → Bytes
all_bytes [] = []
all_bytes (ev ∷ events) = ev.host_bytes ++ all_bytes events

-- The terminal once the bytes `b` went through its filter.
abbrev pub shown : Terminal → Bytes → Terminal
shown t b = record { clip = (feed_all t.clip b).0; written = t.written ++ (feed_all t.clip b).1 }

shown-empty : (t : Terminal) → t ≡ shown t []
unfolding feed_all
shown-empty t = λ i. record t { written = sym (append-nil t.written) i }

shown-append : (t : Terminal) (a b : Bytes) → shown (shown t a) b ≡ shown t (a ++ b)
shown-append t a b =
    let (clip, out) = feed_all t.clip a in
    (λ i. record {
      clip = (feed_all clip b).0;
      written = append_assoc t.written out (feed_all clip b).1 i;
    })
    ∙ (λ i. record {
      clip = (sym (feed_all-append a b t.clip) i).0;
      written = t.written ++ (sym (feed_all-append a b t.clip) i).1;
    })

write_out-ok :
    (writes : Bytes → Bool) (t : Terminal) (clip : Filter) (out : Bytes)
    → ((b : Bytes) → writes b ≡ true)
    → write_out writes t clip out ≡ (record { clip = clip; written = t.written ++ out }, none)
write_out-ok writes t clip [] h =
    λ i. (record { clip = clip; written = sym (append-nil t.written) i }, none)
write_out-ok writes t clip (x ∷ out) h =
    let some_left : (length (x ∷ out) == 0) ≡ false = ground arith in
    rw (some_left, h (x ∷ out)) refl

length-empty : (b : Bytes) → (length b == 0) ≡ true → [] ≡ b
length-empty [] e = refl
length-empty (c ∷ b) e = absurd (ground arith)

apply_event-shown :
    (writes : Bytes → Bool) (t : Terminal) (ev : HostEvent)
    → ((b : Bytes) → writes b ≡ true)
    → apply_event writes t ev ≡ (shown t ev.host_bytes, none)
unfolding apply_event
apply_event-shown writes t ev h = elim (Bool-cases (length ev.host_bytes == 0)) [
  | inl e ↦
      rw e
        ((λ i. (shown-empty t i, none)) ∙ (λ i. (shown t (length-empty ev.host_bytes e i), none)))
  | inr e ↦
      rw (e, filter-feed_all t.clip [] ev.host_bytes)
        (write_out-ok writes t (feed_all t.clip ev.host_bytes).0 (feed_all t.clip ev.host_bytes).1
          h)
]

apply_events-shown :
    (writes : Bytes → Bool) (t : Terminal) (events : List HostEvent)
    → ((b : Bytes) → writes b ≡ true)
    → apply_events writes t events ≡ (shown t (all_bytes events), none)
unfolding apply_events
apply_events-shown writes t [] h = λ i. (shown-empty t i, none)
apply_events-shown writes t (ev ∷ events) h =
    ap (λ r. go_on r (λ t'. apply_events writes t' events)) (apply_event-shown writes t ev h)
    ∙ apply_events-shown writes (shown t ev.host_bytes) events h
    ∙ (λ i. (shown-append t ev.host_bytes (all_bytes events) i, none))

-- Where the terminal takes every write, what a message shows is what the clipboard filter makes of
-- its terminal bytes taken together, however the server cut them into events.
pub apply_diff-shown :
    (writes : Bytes → Bool) (t : Terminal) (diff : Bytes) (events : List HostEvent)
    → ((b : Bytes) → writes b ≡ true)
    → unmarshal_host_message diff ≡ ok events
    → apply_diff writes t diff ≡ (shown t (all_bytes events), none)
unfolding apply_diff
apply_diff-shown writes t diff events h e = rw e (apply_events-shown writes t events h)
