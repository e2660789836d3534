-- ===== src/Osc52/Machine/Refines.antt =====
-- The loop of `Filter` computes what the machine does, in three rounds a byte at most.
use gosh.Base.{
  ℕ, zero, suc, ◌+◌, ◌*◌, ◌<◌, [], ◌∷◌, Bytes, length, ◌≡◌, refl, sym, ap, ◌∙◌, append-nil, arith,
  some,
}
use gosh.Osc52.Filter.{
  Filter, State, text, in_esc, in_prefix, in_body, in_body_esc, round, filter_loop, filter,
}
use gosh.Osc52.Machine.{emits, feed_in, feed_all}
use gosh.Osc52.Machine.Rounds.{
  Agrees, rereads, rereads-le, feed_at, round_esc-Agrees, round_prefix-Agrees, round_body-Agrees,
  round_body_esc-Agrees, round_text-Agrees,
}

round-Agrees :
    (s : State) (f : Filter) (dst : Bytes) (c : ℕ) (src : Bytes)
    → f.state ≡ s
    → Agrees dst
        (round s f dst c src)
        (feed_all f (c ∷ src))
        (3 * length (c ∷ src) + rereads s f.dropping)
unfolding round
round-Agrees text f dst c src t = round_text-Agrees f dst c src t
round-Agrees in_esc f dst c src t =
    rw (feed_at f c src t) (unfold feed_in in round_esc-Agrees f dst c src)
round-Agrees in_prefix f dst c src t =
    rw (feed_at f c src t) (unfold feed_in in round_prefix-Agrees f dst c src)
round-Agrees in_body f dst c src t =
    rw (feed_at f c src t) (unfold feed_in in round_body-Agrees f dst c src t)
round-Agrees in_body_esc f dst c src t =
    rw (feed_at f c src t) (unfold feed_in in round_body_esc-Agrees f dst c src)

filter_loop-feed_all :
    (fuel : ℕ) (f : Filter) (dst src : Bytes)
    → 3 * length src + rereads f.state f.dropping < fuel
    → filter_loop fuel f dst src ≡ some (emits (feed_all f src) dst)
unfolding filter_loop
filter_loop-feed_all fuel f dst [] h =
    unfold feed_all in ap (λ b. some (f, b)) (sym (append-nil dst))
filter_loop-feed_all zero f dst (c ∷ src) h = absurd (omega arith)
filter_loop-feed_all (suc fuel) f dst (c ∷ src) h =
    let (out, last, less) = round-Agrees f.state f dst c src refl in
    filter_loop-feed_all fuel _ _ _ (omega arith) ∙ ap some (λ i. (last i, out i))

-- One call of `Filter` never runs out of rounds, and gives what the machine gives byte by byte.
pub filter-feed_all :
    (f : Filter) (dst src : Bytes) → filter f dst src ≡ some (emits (feed_all f src) dst)
filter-feed_all f dst src =
    unfold filter in
    filter_loop-feed_all (3 * length src + 3) f dst src
      (omega (arith, rereads-le f.state f.dropping))
