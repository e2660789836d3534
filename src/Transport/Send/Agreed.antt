-- ===== src/Transport/Send/Agreed.antt =====
-- internal/transport/sender.go: what the datagrams of a `Tick` say, and what a peer makes of them.
use gosh.Base.{
  ℕ, ◌-◌, ◌*◌, ◌≤◌, ◌<◌, List, map, Bytes, length, All, IsU64, true, false, ◌==◌, some, ok, ◌≡◌,
  subst, sym, ap, ◌∙◌,
}
use gosh.Base.Prefixes.{IsPrefix}
use gosh.Wire.Messages.{UserEvent}
use gosh.Wire.Instruction.{Instruction, unmarshal_instruction}
use gosh.Wire.Instruction.RoundTrip.{IsValid}
use gosh.Statesync.Diff.{IsUnit}
use gosh.Transport.Error.{Zlib, max_uncompressed}
use gosh.Transport.Fragment.{Fragment, Fragmenter, make_fragments, frag_header_len}
use gosh.Transport.Assembly.{Assembly}
use gosh.Transport.Assembly.InOrder.{ingest_all, waiting}
use gosh.Transport.Delivery.{IsZlib}
use gosh.Transport.Sender.{Sender, Conn, calculate_timers}
use gosh.Transport.Send.{tick, is_waiting}
use gosh.Transport.Send.Chain.{IsChained}
use gosh.Transport.Send.Bounds.{IsBounded}
use gosh.Transport.Send.Numbers.{History, IsNumbered}
use gosh.Transport.Send.Delivered.{due_diff, due_instruction, due_bytes, send_fragments-IsPrefix}
use gosh.Transport.Send.Peer.{
  make_fragments_total, tick-IsHanded, tick-ingested, calculate_timers-fragmenter,
}
use gosh.Transport.Send.Named.{IsNamed, due_instruction-names}

-- What a `Tick` that a diff is due for has handed to the connection is the first fragments, in order, of
-- one instruction. Its diff is decoded to events that, put behind the state that the number it starts
-- from stands for, are all input so far; and for these the number that it leads to stands from now
-- on, while what the numbers given before stand for is not changed. This is so whatever has been cut,
-- acknowledged, sent again or lost before, for a sender whose states are a chain, within its bounds
-- and numbered, whose current state is fewer than 2 ^ 32 single keys and resizes, as long as no
-- shutdown has begun, fewer than 2 ^ 64 numbers are given, the MTU is above the header's length, and
-- the call reports no failure.
pub tick-names :
    (z : Zlib) (hist : History) (cut : List UserEvent) (s : Sender) (c : Conn) (now : ℕ)
    → IsChained s
    → IsBounded s
    → IsNumbered hist cut s
    → s.shutdown_in_progress ≡ false
    → length hist < 18446744073709551616
    → All IsUnit s.current_state.events
    → length s.current_state.events < 4294967296
    → frag_header_len < c.mtu
    → is_waiting (calculate_timers s c now) now ≡ false
    → (length (due_diff (calculate_timers s c now)) == 0) ≡ false
    → (tick z s c now).sent ≡ true
    → (i : Instruction) × (fr : Fragmenter) × (frags : List Fragment) × (make_fragments z
          s.fragmenter
          (gosh.Wire.Instruction.marshal i)
          c.mtu
        ≡ some (fr, frags))
      × IsPrefix (tick z s c now).datagrams (map gosh.Transport.Fragment.marshal frags)
      × IsNamed hist cut s (tick z s c now).sender i
tick-names z hist cut s c now chain bounded numbered running small units few mtu due some_diff
      sent =
    let t = calculate_timers s c now in
    let kept = calculate_timers-fragmenter s c now in
    let (frags, made) = make_fragments_total z t.fragmenter (due_bytes t c) c.mtu mtu in
    let (datagrams, _) = tick-IsHanded z s c now _ frags due some_diff made in
    (
      due_instruction t c,
      _,
      frags,
      ap (λ fr. make_fragments z fr (due_bytes t c) c.mtu) (sym kept) ∙ made,
      subst (λ l. IsPrefix l (map gosh.Transport.Fragment.marshal frags)) (sym datagrams)
          (send_fragments-IsPrefix c.sends c.burst frags),
      due_instruction-names z hist cut s c now chain bounded numbered running small units few due
          some_diff sent,
    )

-- What a `Tick` that a diff is due for hands over, given in order to a peer whose assembly holds no part
-- of an instruction, is one instruction, complete with the last datagram, which the peer decodes to
-- one whose diff leads from what its first number stands for to all input so far, which its second
-- number stands for from now on. Conditions: the sender's states are a chain,
-- within its bounds and numbered; its current state is fewer than 2 ^ 32 single keys and resizes; no
-- shutdown has begun, and fewer than 2 ^ 64 numbers are given; the fragmenter's next id is a uint64; the connection takes
-- every datagram, and its burst has room for more of them than the compressed instruction has bytes; each
-- number and length of the instruction is within its Go type; the MTU is above the header's length
-- and such that 32768 fragments hold the compressed instruction, which is not above 4 MiB
-- before it is compressed; and zlib reads back what it wrote.
pub tick-delivers :
    (z : Zlib) (hist : History) (cut : List UserEvent) (s : Sender) (c : Conn) (now : ℕ)
    (a : Assembly)
    → IsZlib z
    → IsChained s
    → IsBounded s
    → IsNumbered hist cut s
    → s.shutdown_in_progress ≡ false
    → length hist < 18446744073709551616
    → All IsUnit s.current_state.events
    → length s.current_state.events < 4294967296
    → IsU64 s.fragmenter.next_id
    → a.have_id ≡ false
    → ((b : Bytes) → c.sends b ≡ true)
    → frag_header_len < c.mtu
    → is_waiting (calculate_timers s c now) now ≡ false
    → (length (due_diff (calculate_timers s c now)) == 0) ≡ false
    → IsValid (due_instruction (calculate_timers s c now) c)
    → length (z.compress (due_bytes (calculate_timers s c now) c))
      ≤ 32768 * (c.mtu - frag_header_len)
    → length (due_bytes (calculate_timers s c now) c) ≤ max_uncompressed
    → length (z.compress (due_bytes (calculate_timers s c now) c)) < c.burst
    → (i : Instruction) × (n : ℕ) × (b : Bytes) × (a' : Assembly) × (ingest_all z a
          (tick z s c now).datagrams
        ≡ (a', waiting n (ok (some b))))
      × (unmarshal_instruction b ≡ ok i)
      × IsNamed hist cut s (tick z s c now).sender i
tick-delivers z hist cut s c now a zl chain bounded numbered running small units few id no_id takes
      mtu due some_diff valid size max long =
    let t = calculate_timers s c now in
    let (n, a', run, read, sent) =
      tick-ingested z s c now a zl id no_id takes mtu due some_diff valid size max long in
    (
      due_instruction t c,
      n,
      due_bytes t c,
      a',
      run,
      read,
      due_instruction-names z hist cut s c now chain bounded numbered running small units few due
          some_diff sent,
    )
