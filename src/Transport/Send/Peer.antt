-- ===== src/Transport/Send/Peer.antt =====
-- internal/transport/sender.go: what the peer learns from a call of `Tick` whose datagrams arrive.
use gosh.Base.{
  take, Option, none, ◌%◌, ltb, Bool-cases, inl, inr, ℕ, zero, suc, ◌+◌, ◌-◌, ◌*◌, ◌≤◌, ◌<◌, List,
  [], ◌∷◌, ◌++◌, Bytes, length, length-drop, drop, All, IsU64, true, false, ◌==◌, some, ok, ◌≡◌,
  refl, sym, ap, subst, ◌∙◌, arith,
}
use gosh.Transport.Fragment.{
  renumber, Fragmenter, Fragment, make_fragments_loop, make_fragments, frag_header_len,
}
use gosh.Transport.Send.{tick, is_waiting}
use mathlib.Core.Option
use gosh.Wire.Messages.{UserEvent, unmarshal_user_message}
use gosh.Wire.Instruction.{unmarshal_instruction}
use gosh.Wire.Instruction.RoundTrip.{IsValid, unmarshal_instruction-marshal}
use gosh.Statesync.UserStream.{subtract}
use gosh.Statesync.Diff.{IsUnit, expand}
use gosh.Transport.Error.{Zlib, max_uncompressed}
use gosh.Transport.Assembly.{Assembly}
use gosh.Transport.Assembly.InOrder.{ingest_all, waiting}
use gosh.Transport.Delivery.{IsZlib, make_fragments-ingest_all}
use gosh.Transport.Sender.{
  Sender, Conn, state_at, update_assumed_receiver_state, rationalize_states, hurry_ack,
  schedule_send, schedule_shutdown_ack, calculate_timers,
}
use gosh.Transport.Send.Chain.{IsChained, state_at-IsPrefix}
use gosh.Transport.Send.Synced.{calculate_timers-IsAlike, calculate_timers-IsChained}
use gosh.Transport.Send.Delivered.{
  diff_from-IsPrefix, assumed, due_diff, due_instruction, due_bytes, send_to_receiver-IsHanded,
  send_fragments-all, IsHanded, tick-datagrams,
}

All-drop : (P : UserEvent → Type 0) (n : ℕ) (xs : List UserEvent) → All P xs → All P (drop n xs)
All-drop P zero xs h = h
All-drop P (suc n) [] h = tt
All-drop P (suc n) (x ∷ xs) (p, h) = All-drop P n xs h

-- The timers cut the front of the current state, and leave the fragmenter alone.
pub calculate_timers-current :
    (s : Sender) (c : Conn) (now : ℕ)
    → (calculate_timers s c now).current_state.events
      ≡ drop (length (state_at s.sent_states 0).state.events) s.current_state.events
unfolding rationalize_states subtract update_assumed_receiver_state
calculate_timers-current s c now = ap (λ u. u.events) (calculate_timers-IsAlike s c now).1

schedule_send-fragmenter :
    (s : Sender) (c : Conn) (now : ℕ) → (schedule_send s c now).fragmenter ≡ s.fragmenter
unfolding schedule_send
schedule_send-fragmenter s c now = ground arith

pub calculate_timers-fragmenter :
    (s : Sender) (c : Conn) (now : ℕ) → (calculate_timers s c now).fragmenter ≡ s.fragmenter
unfolding calculate_timers update_assumed_receiver_state rationalize_states hurry_ack
    schedule_shutdown_ack
calculate_timers-fragmenter s c now =
    let s1 = rationalize_states (update_assumed_receiver_state s c now) in
    let kept = schedule_send-fragmenter (hurry_ack s1 now) c now in ground arith

map-eq-some {ℓ κ} :
    {A : Type ℓ} {B : Type κ} (f : A → B) (o : Option A) {b : B}
    → Option.map f o ≡ some b
    → (a : A) × (o ≡ some a) × (f a ≡ b)
map-eq-some f none e = absurd cc
map-eq-some f (some a) e = (a, refl, cc)

length-make_fragments_loop :
    (fuel id num chunk : ℕ) (payload : Bytes) (frags : List Fragment)
    → make_fragments_loop fuel id num chunk payload ≡ some frags
    → length frags ≤ fuel
unfolding make_fragments_loop
length-make_fragments_loop zero id num chunk payload frags e = absurd cc
length-make_fragments_loop (suc fuel) id num chunk payload frags e =
    elim (Bool-cases (ltb chunk (length payload))) [
      | inl more ↦
          let (fs, cut, same) =
            map-eq-some
              (◌∷◌ (record { id = id; num = num; final = false; contents = take chunk payload }))
              (make_fragments_loop fuel id ((num + 1) % 65536) chunk (drop chunk payload))
              (sym (rw more refl) ∙ e) in
          omega (
            arith,
            ap (length {A = Fragment}) same,
            length-make_fragments_loop fuel id ((num + 1) % 65536) chunk (drop chunk payload) fs
                cut,
          )
      | inr last ↦
          let only : some (record { id = id; num = num; final = true; contents = payload } ∷ [])
              ≡ some frags =
            sym (rw last refl) ∙ e in
          let one : record { id = id; num = num; final = true; contents = payload } ∷ [] ≡ frags =
            cc in
          omega (arith, ap (length {A = Fragment}) one)
    ]

-- Each round makes a fragment.
length-make_fragments :
    (z : Zlib) (fr : Fragmenter) (b : Bytes) (mtu : ℕ) (fr' : Fragmenter) (frags : List Fragment)
    → make_fragments z fr b mtu ≡ some (fr', frags)
    → length frags ≤ length (z.compress b) + 1
unfolding make_fragments
length-make_fragments z fr b mtu fr' frags e = elim (Bool-cases (ltb mtu frag_header_len)) [
  | inl small ↦
      let never : Path (Option (Fragmenter × List Fragment)) none (some (fr', frags)) =
        sym (rw small refl) ∙ e in
      absurd cc
  | inr wide ↦
      let (fs, cut, same) =
        map-eq-some (λ frags. (renumber fr (z.compress b) mtu, frags))
          (make_fragments_loop (length (z.compress b) + 1) (renumber fr (z.compress b) mtu).next_id
            0 (mtu - frag_header_len) (z.compress b))
          (sym (rw wide refl) ∙ e) in
      subst (λ l. length l ≤ length (z.compress b) + 1) (ap (λ p. p.1) same)
        (length-make_fragments_loop (length (z.compress b) + 1) _ 0 (mtu - frag_header_len)
          (z.compress b) fs cut)
]

-- The diff that is due leads from the assumed state to the current one.
pub due_diff-decoded :
    (s : Sender) (c : Conn) (now : ℕ)
    → IsChained s
    → All IsUnit s.current_state.events
    → length s.current_state.events < 4294967296
    → (evs : List UserEvent) × (unmarshal_user_message (due_diff (calculate_timers s c now))
        ≡ ok evs)
      × ((assumed (calculate_timers s c now)).state.events ++ expand evs
          ≡ (calculate_timers s c now).current_state.events)
due_diff-decoded s c now chained units few =
    let t = calculate_timers s c now in
    let known = (state_at s.sent_states 0).state.events in
    let cut = calculate_timers-current s c now in
    diff_from-IsPrefix t.current_state (assumed t).state
      (state_at-IsPrefix t.sent_states t.current_state.events t.assumed_receiver_state_idx
        (calculate_timers-IsChained s c now chained))
      (subst (All IsUnit) (sym cut) (All-drop IsUnit (length known) s.current_state.events units))
      (omega
        (arith, ap (length {A = UserEvent}) cut, length-drop (length known) s.current_state.events))

make_fragments_loop-total :
    (fuel id num chunk : ℕ) (payload : Bytes)
    → 1 ≤ chunk
    → length payload < fuel
    → (frags : List Fragment) × (make_fragments_loop fuel id num chunk payload ≡ some frags)
unfolding make_fragments_loop
make_fragments_loop-total zero id num chunk payload c h = absurd (omega arith)
make_fragments_loop-total (suc fuel) id num chunk payload c h =
    elim (Bool-cases (ltb chunk (length payload))) [
      | inl more ↦
          let (fs, cut) =
            make_fragments_loop-total fuel id ((num + 1) % 65536) chunk (drop chunk payload) c
              (ground (arith, length-drop chunk payload)) in
          (
            record { id = id; num = num; final = false; contents = take chunk payload } ∷ fs,
            rw (more, cut) refl,
          )
      | inr last ↦
          (record { id = id; num = num; final = true; contents = payload } ∷ [], rw last refl)
    ]

-- With room behind the header everything can be cut up.
pub make_fragments_total :
    (z : Zlib) (fr : Fragmenter) (b : Bytes) (mtu : ℕ)
    → frag_header_len < mtu
    → (frags : List Fragment) × (make_fragments z fr b mtu
        ≡ some (renumber fr (z.compress b) mtu, frags))
unfolding make_fragments
make_fragments_total z fr b mtu h =
    let wide : ltb mtu frag_header_len ≡ false = ground arith in
    let (frags, cut) =
      make_fragments_loop-total (length (z.compress b) + 1) (renumber fr (z.compress b) mtu).next_id
        0 (mtu - frag_header_len) (z.compress b) (omega arith) (omega arith) in
    (frags, rw (wide, cut) refl)

-- What a `Tick` that a diff is due for hands over.
pub tick-IsHanded :
    (z : Zlib) (s : Sender) (c : Conn) (now : ℕ) (fr : Fragmenter) (frags : List Fragment)
    → is_waiting (calculate_timers s c now) now ≡ false
    → (length (due_diff (calculate_timers s c now)) == 0) ≡ false
    → make_fragments z
        (calculate_timers s c now).fragmenter
        (due_bytes (calculate_timers s c now) c)
        c.mtu
      ≡ some (fr, frags)
    → IsHanded c frags (tick z s c now)
tick-IsHanded z s c now fr frags due some_diff made =
    subst (IsHanded c frags) (sym (tick-datagrams z s c now due some_diff))
      (send_to_receiver-IsHanded z (calculate_timers s c now) c now fr frags made)

-- A peer whose assembly holds no part of an instruction gets the instruction of a `Tick`, where every
-- datagram is taken and arrives in order.
pub tick-ingested :
    (z : Zlib) (s : Sender) (c : Conn) (now : ℕ) (a : Assembly)
    → IsZlib z
    → IsU64 s.fragmenter.next_id
    → a.have_id ≡ false
    → ((b : Bytes) → c.sends b ≡ true)
    → frag_header_len < c.mtu
    → is_waiting (calculate_timers s c now) now ≡ false
    → (length (due_diff (calculate_timers s c now)) == 0) ≡ false
    → IsValid (due_instruction (calculate_timers s c now) c)
    → length (z.compress (due_bytes (calculate_timers s c now) c))
      ≤ 32768 * (c.mtu - frag_header_len)
    → length (due_bytes (calculate_timers s c now) c) ≤ max_uncompressed
    → length (z.compress (due_bytes (calculate_timers s c now) c)) < c.burst
    → (n : ℕ) × (a' : Assembly) × (ingest_all z a (tick z s c now).datagrams
        ≡ (a', waiting n (ok (some (due_bytes (calculate_timers s c now) c)))))
      × (unmarshal_instruction (due_bytes (calculate_timers s c now) c)
          ≡ ok (due_instruction (calculate_timers s c now) c))
      × ((tick z s c now).sent ≡ true)
tick-ingested z s c now a zl id no_id takes mtu due some_diff valid size max long =
    let t = calculate_timers s c now in
    let kept = calculate_timers-fragmenter s c now in
    let (frags, n, a', made, _, run, _) =
      make_fragments-ingest_all z t.fragmenter (due_bytes t c) c.mtu a zl (rw kept id) no_id mtu
        size max in
    let all =
      send_fragments-all c.sends c.burst frags takes
        (omega (arith, length-make_fragments z t.fragmenter (due_bytes t c) c.mtu _ frags made)) in
    let (datagrams, sent) = tick-IsHanded z s c now _ frags due some_diff made in
    (
      n,
      a',
      ap (λ l. ingest_all z a l) (datagrams ∙ ap (λ p. p.0) all) ∙ run,
      unmarshal_instruction-marshal (due_instruction t c) valid,
      sent ∙ ap (λ p. p.1) all,
    )
