-- ===== src/Transport/Send/Delivered.antt =====
-- internal/transport/sender.go: a diff of `Tick`, from the sender to the peer's assembly.
use gosh.Base.{
  length-append, ℕ, zero, suc, ◌≤◌, ◌<◌, List, [], ◌∷◌, ◌++◌, map, Bytes, length, All, Bool, true,
  false, ◌==◌, if◌then◌else◌, some, ok, ◌≡◌, refl, sym, ap, subst, ◌∙◌, arith, Bool-cases, inl, inr,
}
use gosh.Base.Prefixes.{IsPrefix}
use gosh.Wire.Messages.{UserEvent, unmarshal_user_message}
use gosh.Wire.Instruction.{Instruction, unmarshal_instruction}
use gosh.Statesync.UserStream.{UserStream, diff_from}
use gosh.Statesync.Diff.{IsUnit, expand, diff_from-append}
use gosh.Transport.Error.{Zlib}
use gosh.Transport.Fragment.{Fragment, Fragmenter, frag_header_len, make_fragments}
use gosh.Transport.Sender.{Sender, TimestampedState, Conn, state_at, back, calculate_timers}
use gosh.Transport.Send.{
  Sending, send_fragments, send_in_fragments, receiver_sent, send_to_receiver, unhurried, new_num,
  touch_back, instruction, tick, is_waiting,
}

All-suffix : (P : UserEvent → Type 0) (a b : List UserEvent) → All P (a ++ b) → All P b
All-suffix P [] b h = h
All-suffix P (x ∷ a) b (p, h) = All-suffix P a b h

-- A diff from a state that begins the current one decodes to what the current one has more.
pub diff_from-IsPrefix :
    (u x : UserStream)
    → IsPrefix x.events u.events
    → All IsUnit u.events
    → length u.events < 4294967296
    → (evs : List UserEvent) × (unmarshal_user_message (diff_from u x) ≡ ok evs)
      × (x.events ++ expand evs ≡ u.events)
diff_from-IsPrefix u x (rest, e) units few =
    let whole : All IsUnit (x.events ++ rest) = subst (All IsUnit) e units in
    let (evs, decoded, expanded) =
      diff_from-append x.events rest (All-suffix IsUnit x.events rest whole)
        (omega (arith, ap (length {A = UserEvent}) e, length-append x.events rest)) in
    (
      evs,
      ap (λ (l : List UserEvent). unmarshal_user_message (diff_from (record { events = l }) x)) e
          ∙ decoded,
      ap (λ l. x.events ++ l) expanded ∙ sym e,
    )

-- A connection that takes every datagram, with time for all of them.
pub send_fragments-all :
    (sends : Bytes → Bool) (burst : ℕ) (fs : List Fragment)
    → ((b : Bytes) → sends b ≡ true)
    → length fs ≤ burst
    → send_fragments sends burst fs ≡ (map gosh.Transport.Fragment.marshal fs, true)
unfolding send_fragments
send_fragments-all sends burst [] takes h = refl
send_fragments-all sends zero (f ∷ fs) takes h = absurd (omega arith)
send_fragments-all sends (suc burst) (f ∷ fs) takes h =
    rw
      (
        takes (gosh.Transport.Fragment.marshal f),
        send_fragments-all sends burst fs takes (omega arith),
      )
      refl

-- The state that the receiver is taken to have.
abbrev pub assumed : Sender → TimestampedState
assumed s = state_at s.sent_states s.assumed_receiver_state_idx

-- The diff that is due.
abbrev pub due_diff : Sender → Bytes
due_diff s = diff_from s.current_state (assumed s).state

-- The instruction that carries it.
abbrev pub due_instruction : Sender → Conn → Instruction
due_instruction s c = instruction s c (due_diff s) (new_num s)

abbrev pub due_bytes : Sender → Conn → Bytes
due_bytes s c = gosh.Wire.Instruction.marshal (due_instruction s c)

touch_back-num :
    (xs : List TimestampedState) (t i : ℕ)
    → (state_at (touch_back xs t) i).num ≡ (state_at xs i).num
unfolding touch_back state_at
touch_back-num [] t i = refl
touch_back-num (x ∷ []) t zero = refl
touch_back-num (x ∷ []) t (suc i) = refl
touch_back-num (x ∷ y ∷ xs) t zero = refl
touch_back-num (x ∷ y ∷ xs) t (suc i) = touch_back-num (y ∷ xs) t i

abbrev touched : Sender → Bool → ℕ → Sender
touched s known now = if known then record s { sent_states = touch_back s.sent_states now } else s

touched-instruction :
    (s : Sender) (known : Bool) (now : ℕ) (c : Conn) (diff : Bytes) (num : ℕ)
    → (instruction (touched s known now) c diff num ≡ instruction s c diff num)
      × ((touched s known now).fragmenter ≡ s.fragmenter)
unfolding instruction
touched-instruction s false now c diff num = (refl, refl)
touched-instruction s true now c diff num = (
  rw
      (
        touch_back-num s.sent_states now s.assumed_receiver_state_idx,
        touch_back-num s.sent_states now 0,
      )
      refl,
  refl,
)

receiver_sent-datagrams :
    (r : Sending) (known : Bool) (now num : ℕ)
    → (unhurried (receiver_sent r known now num)).datagrams ≡ r.datagrams
receiver_sent-datagrams r known now num = elim (Bool-cases r.sent) [
  | inl e ↦ rw e refl
  | inr e ↦ rw e refl
]

receiver_sent-sent :
    (r : Sending) (known : Bool) (now num : ℕ)
    → (unhurried (receiver_sent r known now num)).sent ≡ r.sent
receiver_sent-sent r known now num = elim (Bool-cases r.sent) [
  | inl e ↦ simp e refl
  | inr e ↦ simp e refl
]

-- What a call hands to the connection where a diff is due: the fragments of its instruction, as far as
-- they are sent.
abbrev pub IsHanded : Conn → List Fragment → Sending → Type 0
IsHanded c frags r =
    (r.datagrams ≡ (send_fragments c.sends c.burst frags).0)
    × (r.sent ≡ (send_fragments c.sends c.burst frags).1)

send_in_fragments-IsHanded :
    (z : Zlib) (s : Sender) (c : Conn) (diff : Bytes) (num : ℕ) (fr : Fragmenter)
    (frags : List Fragment)
    → make_fragments z s.fragmenter (gosh.Wire.Instruction.marshal (instruction s c diff num)) c.mtu
      ≡ some (fr, frags)
    → IsHanded c frags (send_in_fragments z s c diff num)
unfolding send_in_fragments
send_in_fragments-IsHanded z s c diff num fr frags cut = (rw cut refl, rw cut refl)

pub send_to_receiver-IsHanded :
    (z : Zlib) (s : Sender) (c : Conn) (now : ℕ) (fr : Fragmenter) (frags : List Fragment)
    → make_fragments z s.fragmenter (due_bytes s c) c.mtu ≡ some (fr, frags)
    → IsHanded c frags (unhurried (send_to_receiver z s c now (due_diff s)))
unfolding send_to_receiver
send_to_receiver-IsHanded z s c now fr frags cut =
    let num = new_num s in
    let known = num == (back s).num in
    let (same, held) = touched-instruction s known now c (due_diff s) num in
    let cut' : make_fragments z (touched s known now).fragmenter
          (gosh.Wire.Instruction.marshal (instruction (touched s known now) c (due_diff s) num))
          c.mtu
        ≡ some (fr, frags) =
      rw (same, held) cut in
    let r = send_in_fragments z (touched s known now) c (due_diff s) num in
    let (datagrams, sent) =
      send_in_fragments-IsHanded z (touched s known now) c (due_diff s) num fr frags cut' in
    (receiver_sent-datagrams r known now num ∙ datagrams, receiver_sent-sent r known now num ∙ sent)

-- They are the first ones, in order.
pub send_fragments-IsPrefix :
    (sends : Bytes → Bool) (burst : ℕ) (fs : List Fragment)
    → IsPrefix (send_fragments sends burst fs).0 (map gosh.Transport.Fragment.marshal fs)
unfolding send_fragments
send_fragments-IsPrefix sends burst [] = ([], refl)
send_fragments-IsPrefix sends zero (f ∷ fs) = (_, refl)
send_fragments-IsPrefix sends (suc burst) (f ∷ fs) =
    let (rest, e) = send_fragments-IsPrefix sends burst fs in
    elim (Bool-cases (sends (gosh.Transport.Fragment.marshal f))) [
      | inl taken ↦ rw taken (rest, ap (◌∷◌ (gosh.Transport.Fragment.marshal f)) e)
      | inr failed ↦ rw failed (_, refl)
    ]

pub tick-datagrams :
    (z : Zlib) (s : Sender) (c : Conn) (now : ℕ)
    → is_waiting (calculate_timers s c now) now ≡ false
    → (length (due_diff (calculate_timers s c now)) == 0) ≡ false
    → tick z s c now
      ≡ unhurried (
          send_to_receiver z (calculate_timers s c now) c now (due_diff (calculate_timers s c now)))
unfolding tick
tick-datagrams z s c now due some_diff = rw (due, some_diff) refl
