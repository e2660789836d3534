-- ===== src/Osc52/Machine/Limits.antt =====
-- `Filter` of internal/osc52/osc52.go on sequences that are aborted or too long, and the bound on
-- what it holds back.
use gosh.Base.{
  ℕ, ◌+◌, ◌≤◌, ◌<◌, [], ◌∷◌, ◌++◌, Bytes, length, true, false, subst, ◌≡◌, ◌⊎◌, inl, inr, refl, sym,
  ap, ◌∙◌, append-nil, arith, some, length-append,
}
use gosh.Osc52.Policy.{Policy}
use gosh.Osc52.Filter.{
  Filter, State, text, in_esc, in_prefix, in_body, in_body_esc, can, sub, max_sequence, reset, new,
  emit, filter, close,
}
use mathlib.Core.Option.{some-injective}
use gosh.Osc52.Machine.{feed_body, emits, feed_in, feed, feed_all}
use gosh.Osc52.Machine.Rounds.{feed_at}
use gosh.Osc52.Machine.Refines.{filter-feed_all}
use gosh.Osc52.Machine.Streams.{IsPlain, feed_all-held, is_plain, feed_body-plain}
use native.Mathlib.Decide.{dec_le}
use gosh.Osc52.Machine.Sequences.{
  introducer, number, opened, done, length-number, feed_all-introducer, feed_all-close,
  IsTerminator,
}

-- A sequence that starts in the text state, keeps within the buffer's bound, and that CAN or SUB
-- breaks off puts out nothing, under every policy.
pub filter_aborted :
    (f : Filter) (dst : Bytes) (k : ℕ) (b : Bytes) (x : ℕ)
    → f.state ≡ text
    → f.dropping ≡ false
    → k ≤ 6
    → IsPlain b
    → k + length b ≤ 65530
    → (x ≡ can) ⊎ (x ≡ sub)
    → filter f dst (introducer k (b ++ x ∷ [])) ≡ some (done f k, dst)
unfolding opened
filter_aborted f dst k b x t d kb h n e =
    filter-feed_all f dst (introducer k (b ++ x ∷ []))
    ∙ ap (λ r. some (emits r dst))
        (feed_all-introducer f k (b ++ x ∷ []) t kb
          ∙ feed_all-held b (x ∷ []) (opened f k) refl d h room
          ∙ broken e)
    ∙ ap (λ o. some (done f k, o)) (append-nil dst)
  where
    room : length (opened f k).buf + length b ≤ max_sequence
    room = omega (arith, length-number k, length-append (number k) (b';' ∷ []))

    broken :
        (x ≡ can) ⊎ (x ≡ sub)
        → feed_all (record (opened f k) { buf = (opened f k).buf ++ b }) (x ∷ []) ≡ (done f k, [])
    broken (inl e) = unfold feed_all feed_in reset in rw e refl
    broken (inr e) = unfold feed_all feed_in reset in rw e refl

feed_body-dropped :
    (f : Filter) (c : ℕ) → f.dropping ≡ true → is_plain c ≡ true → feed_body f c ≡ (f, [])
unfolding feed_body
feed_body-dropped f c d h = ground arith

feed_all-dropped :
    (b rest : Bytes) (f : Filter)
    → f.state ≡ in_body
    → f.dropping ≡ true
    → IsPlain b
    → feed_all f (b ++ rest) ≡ feed_all f rest
unfolding feed_in
feed_all-dropped [] rest f t d h = refl
feed_all-dropped (c ∷ b) rest f t d (h, hs) =
    feed_at f c (b ++ rest) t ∙ rw (feed_body-dropped f c d h) (feed_all-dropped b rest f t d hs)

feed_body-full :
    (f : Filter) (c : ℕ)
    → f.dropping ≡ false
    → is_plain c ≡ true
    → max_sequence ≤ length f.buf
    → feed_body f c ≡ (record f { dropping = true; buf = [] }, [])
unfolding feed_body
feed_body-full f c d h n = ground arith

-- Plain bytes past the buffer's bound turn the sequence into one that is dropped.
feed_all-outgrown :
    (b rest : Bytes) (f : Filter)
    → f.state ≡ in_body
    → f.dropping ≡ false
    → IsPlain b
    → length f.buf ≤ max_sequence
    → max_sequence < length f.buf + length b
    → feed_all f (b ++ rest) ≡ feed_all (record f { dropping = true; buf = [] }) rest
unfolding feed_in
feed_all-outgrown [] rest f t d h lo hi = absurd (omega arith)
feed_all-outgrown (c ∷ b) rest f t d (h, hs) lo hi = elim (dec_le max_sequence (length f.buf)) [
  | yes all ↦
      feed_at f c (b ++ rest) t
      ∙ rw (feed_body-full f c d h all)
          (feed_all-dropped b rest (record f { dropping = true; buf = [] }) t refl hs)
  | no room ↦
      feed_at f c (b ++ rest) t
      ∙ rw (feed_body-plain f c d h (omega arith)) (
          feed_all-outgrown b rest (record f { buf = f.buf ++ c ∷ [] }) t d hs
            (omega (arith, length-append f.buf (c ∷ [])))
            (omega (arith, length-append f.buf (c ∷ []))))
]

-- A sequence that starts in the text state and outgrows the buffer is read to its end and puts out
-- nothing, under every policy.
pub filter_oversized :
    (f : Filter) (dst : Bytes) (k : ℕ) (b : Bytes) (term : ℕ)
    → f.state ≡ text
    → f.dropping ≡ false
    → k ≤ 6
    → IsPlain b
    → IsTerminator term
    → 65531 < k + length b
    → filter f dst (introducer k (b ++ close term)) ≡ some (done f k, dst)
unfolding opened
filter_oversized f dst k b term t d kb h ht n =
    filter-feed_all f dst (introducer k (b ++ close term))
    ∙ ap (λ r. some (emits r dst))
        (feed_all-introducer f k (b ++ close term) t kb
          ∙ feed_all-outgrown b (close term) (opened f k) refl d h
              (omega (arith, length-number k, length-append (number k) (b';' ∷ [])))
              (omega (arith, length-number k, length-append (number k) (b';' ∷ [])))
          ∙ feed_all-close (record (opened f k) { dropping = true; buf = [] }) term refl ht)
    ∙ unfold emit reset in ap (λ o. some (done f k, o)) (append-nil dst)

-- What each state may hold back.
unfoldable pub IsBounded : State → Filter → Type 0
IsBounded text f = length f.buf ≤ max_sequence
IsBounded in_esc f = length f.buf ≤ 1
IsBounded in_prefix f = (length f.buf ≤ 2 + f.digits) × (f.digits ≤ 8)
IsBounded in_body f = length f.buf ≤ max_sequence
IsBounded in_body_esc f = length f.buf ≤ max_sequence

feed_in-IsBounded :
    (s : State) (f : Filter) (c : ℕ)
    → f.state ≡ s
    → IsBounded s f
    → IsBounded (feed_in s f c).0.state (feed_in s f c).0
unfolding IsBounded
feed_in-IsBounded text f c t h = unfold feed_in in ground (arith, length-append f.buf (c ∷ []))
feed_in-IsBounded in_esc f c t h = unfold feed_in in ground (arith, length-append f.buf (c ∷ []))
feed_in-IsBounded in_prefix f c t h = unfold feed_in in ground (arith, length-append f.buf (c ∷ []))
feed_in-IsBounded in_body f c t h = unfold feed_in in ground (arith, length-append f.buf (c ∷ []))
feed_in-IsBounded in_body_esc f c t h =
    unfold feed_in in ground (arith, length-append f.buf (c ∷ []))

feed_all-IsBounded :
    (src : Bytes) (f : Filter)
    → IsBounded f.state f
    → IsBounded (feed_all f src).0.state (feed_all f src).0
unfolding feed_all
feed_all-IsBounded [] f h = h
feed_all-IsBounded (c ∷ src) f h =
    feed_all-IsBounded src (feed f c).0 (feed_in-IsBounded f.state f c refl h)

bounded-max : (s : State) (f : Filter) → IsBounded s f → length f.buf ≤ max_sequence
unfolding IsBounded
bounded-max in_prefix f h = omega arith
bounded-max text f h = h
bounded-max in_esc f h = omega arith
bounded-max in_body f h = h
bounded-max in_body_esc f h = h

-- After any input a new filter holds back no more than its bound.
pub filter-bounded :
    (p : Policy) (src : Bytes) (dst out : Bytes) (g : Filter)
    → filter (new p) dst src ≡ some (g, out)
    → length g.buf ≤ max_sequence
unfolding new
filter-bounded p src dst out g e =
    ap_bound (some-injective _ _ (sym (filter-feed_all (new p) dst src) ∙ e))
      (bounded-max _ _ (feed_all-IsBounded src (new p) (unfold IsBounded in omega arith)))
  where
    ap_bound :
        {r : Filter × Bytes}
        → r ≡ (g, out)
        → length r.0.buf ≤ max_sequence
        → length g.buf ≤ max_sequence
    ap_bound q h = subst (λ s. length s.0.buf ≤ max_sequence) q h
