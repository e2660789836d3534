-- ===== src/Client/Answers.antt =====
-- internal/client/client.go: `filterInput` on what a terminal answers, in the run of a session's input.
use gosh.Base.{
  ℕ, List, [], ◌∷◌, ◌++◌, append-nil, Bytes, length, length-append, Bool, true, false, ◌==◌, ◌⊎◌,
  Option, none, some, ◌≡◌, ◌≢◌, refl, sym, ap, ◌∙◌, Bool-cases, inl, inr, arith,
}
use gosh.Osc52.Policy.{Policy, write, full, off}
use gosh.Osc52.Filter.{
  Filter, State, text, in_esc, in_prefix, in_body, in_body_esc, esc, new, reset, release, emit,
  filter, flush, filter_chunk,
}
use gosh.Osc52.Machine.{
  feed_text, feed_released, feed_esc, feed_prefix, feed_body, feed_body_esc, feed_in, feed,
  feed_all,
}
use gosh.Osc52.Machine.Refines.{filter-feed_all}
use gosh.Osc52.Machine.Streams.{IsFree, filter-append, filter-text}
use gosh.Osc52.Machine.Sequences.{IsClipboard, clipboard, done, allowed, filter-clipboard}
use gosh.Client.Render.{filter_input, clip_in}

-- The filter behind a run of reads.
pub after : Option Filter → List Bytes → Option Filter
after o [] = o
after o (keys ∷ reads) = after (filter_input o keys).0 reads

abbrev is_body : State → Bool
is_body in_body = true
is_body in_body_esc = true
is_body _ = false

-- It lets no clipboard sequence through, and drops bytes only in a sequence's body.
abbrev IsSound : Filter → Type 0
IsSound f = (f.policy ≡ off) × ((f.dropping ≡ false) ⊎ (is_body f.state ≡ true))

-- And it holds nothing back.
abbrev IsBetween : Filter → Type 0
IsBetween f = (f.policy ≡ off) × (f.state ≡ text) × (f.dropping ≡ false)

feed_text-IsSound :
    (f : Filter) (c : ℕ) → f.dropping ≡ false → f.policy ≡ off → IsSound (feed_text f c).0
unfolding feed_text
feed_text-IsSound f c d p = ground arith

feed_released-IsSound : (f : Filter) (c : ℕ) → f.policy ≡ off → IsSound (feed_released f c).0
unfolding feed_released reset
feed_released-IsSound f c p = feed_text-IsSound (reset f) c refl p

feed_esc-IsSound :
    (f : Filter) (c : ℕ) → f.dropping ≡ false → f.policy ≡ off → IsSound (feed_esc f c).0
unfolding feed_esc
feed_esc-IsSound f c d p = ground (arith, feed_released-IsSound f c p)

feed_prefix-IsSound :
    (f : Filter) (c : ℕ) → f.dropping ≡ false → f.policy ≡ off → IsSound (feed_prefix f c).0
unfolding feed_prefix
feed_prefix-IsSound f c d p = ground (arith, feed_released-IsSound f c p)

feed_body-IsSound :
    (f : Filter) (c : ℕ) → f.state ≡ in_body → f.policy ≡ off → IsSound (feed_body f c).0
unfolding feed_body emit reset
feed_body-IsSound f c s p = let body : is_body f.state ≡ true = rw s refl in ground (arith, body)

feed_body_esc-IsSound : (f : Filter) (c : ℕ) → f.policy ≡ off → IsSound (feed_body_esc f c).0
unfolding feed_body_esc emit reset
feed_body_esc-IsSound f c p =
    let next = feed_esc-IsSound (record (reset f) { buf = esc ∷ []; state = in_esc }) c refl p in
    ground (arith, next)

not_dropping :
    (f : Filter) (s : State) → f.state ≡ s → is_body s ≡ false → IsSound f → f.dropping ≡ false
not_dropping f s e b (p, inl d) = d
not_dropping f s e b (p, inr d) = let both : is_body s ≡ true = ap is_body (sym e) ∙ d in absurd cc

feed_in-IsSound :
    (s : State) (f : Filter) (c : ℕ) → f.state ≡ s → IsSound f → IsSound (feed_in s f c).0
unfolding feed_in
feed_in-IsSound text f c e h = feed_text-IsSound f c (not_dropping f text e refl h) h.0
feed_in-IsSound in_esc f c e h = feed_esc-IsSound f c (not_dropping f in_esc e refl h) h.0
feed_in-IsSound in_prefix f c e h = feed_prefix-IsSound f c (not_dropping f in_prefix e refl h) h.0
feed_in-IsSound in_body f c e h = feed_body-IsSound f c e h.0
feed_in-IsSound in_body_esc f c e h = feed_body_esc-IsSound f c h.0

feed_all-IsSound : (f : Filter) (b : Bytes) → IsSound f → IsSound (feed_all f b).0
unfolding feed_all
feed_all-IsSound f [] h = h
feed_all-IsSound f (c ∷ b) h = feed_all-IsSound (feed f c).0 b (feed_in-IsSound f.state f c refl h)

flush-IsBetween : (f : Filter) (out : Bytes) → IsSound f → IsBetween (flush f out).0
unfolding flush release reset
flush-IsBetween f out h = by_state f.state refl
  where
    by_state : (s : State) → f.state ≡ s → IsBetween (flush f out).0
    by_state text e = let p = h.0 in let d = not_dropping f text e refl h in ground arith
    by_state in_esc e = let p = h.0 in ground arith
    by_state in_prefix e = let p = h.0 in ground arith
    by_state in_body e = let p = h.0 in ground arith
    by_state in_body_esc e = let p = h.0 in ground arith

filter_chunk-fed :
    (f : Filter) (b : Bytes) → filter_chunk f [] b ≡ some (flush (feed_all f b).0 (feed_all f b).1)
unfolding filter_chunk
filter_chunk-fed f b = rw (filter-feed_all f [] b) refl

-- A read leaves nothing held back.
filter_input-IsBetween :
    (f : Filter) (keys : Bytes)
    → IsBetween f
    → (g : Filter) × ((filter_input (some f) keys).0 ≡ some g) × IsBetween g
unfolding filter_input
filter_input-IsBetween f keys h = elim (Bool-cases (length keys == 0)) [
  | inl e ↦ (f, rw e refl, h)
  | inr e ↦ (
    (flush (feed_all f keys).0 (feed_all f keys).1).0,
    rw (e, filter_chunk-fed f keys) refl,
    flush-IsBetween (feed_all f keys).0 (feed_all f keys).1
        (feed_all-IsSound f keys (h.0, inl h.2)),
  )
]

after-IsBetween :
    (f : Filter) (reads : List Bytes)
    → IsBetween f
    → (g : Filter) × (after (some f) reads ≡ some g) × IsBetween g
unfolding after
after-IsBetween f [] h = (f, refl, h)
after-IsBetween f (keys ∷ reads) h =
    let (g, e, k) = filter_input-IsBetween f keys h in
    let (g', e', k') = after-IsBetween g reads k in (g', ap (λ o. after o reads) e ∙ e', k')

clip_in-IsBetween : (p : Policy) → p ≢ full → (f : Filter) × (clip_in p ≡ some f) × IsBetween f
unfolding new
clip_in-IsBetween write d = (new off, refl, (refl, refl, refl))
clip_in-IsBetween off d = (new off, refl, (refl, refl, refl))
clip_in-IsBetween full d = absurd (d refl)

filter-answer :
    (f : Filter) (k : ℕ) (front pc pd back : Bytes) (term : ℕ)
    → IsBetween f
    → IsClipboard k pc pd term
    → IsFree esc front
    → IsFree esc back
    → filter f [] (front ++ (clipboard k pc pd term ++ back)) ≡ some (done f k, front ++ back)
unfolding allowed
filter-answer f k front pc pd back term (p, t, d) h a b =
    let seq = clipboard k pc pd term in
    let nothing : allowed f.policy pc pd term ≡ [] = rw p refl in
    let taken : filter f front seq ≡ some (done f k, front) =
      filter-clipboard f front k pc pd term t d h
      ∙ ap (λ o. some (done f k, front ++ o)) nothing
      ∙ ap (λ o. some (done f k, o)) (append-nil front) in
    filter-append f f [] front front (seq ++ back) (filter-text f [] front t a)
    ∙ filter-append f (done f k) front front seq back taken
    ∙ filter-text (done f k) front back refl b

answer_taken :
    (f : Filter) (k : ℕ) (front pc pd back : Bytes) (term : ℕ)
    → IsBetween f
    → IsClipboard k pc pd term
    → IsFree esc front
    → IsFree esc back
    → (filter_input (some f) (front ++ (clipboard k pc pd term ++ back))).1 ≡ front ++ back
unfolding filter_input filter_chunk flush
answer_taken f k front pc pd back term h c a b =
    let some_keys : (length (front ++ (clipboard k pc pd term ++ back)) == 0) ≡ false = ground (
      arith,
      length-append front (clipboard k pc pd term ++ back),
      length-append (clipboard k pc pd term) back,
    ) in
    rw (some_keys, filter-answer f k front pc pd back term h c a b) refl

after-none : (reads : List Bytes) → after none reads ≡ none
unfolding after filter_input
after-none [] = refl
after-none (keys ∷ reads) = after-none reads

-- Whatever the input was read before: outside of the policy full, a terminal's answer to a clipboard
-- query that arrives in one read is taken out of it, and what stands before and behind it in the read,
-- where no ESC is in it, goes on; under the policy full every read goes on as it is.
pub filter_input-answer :
    (p : Policy) (reads : List Bytes) (k : ℕ) (front pc pd back keys : Bytes) (term : ℕ)
    → p ≢ full
    → IsClipboard k pc pd term
    → IsFree esc front
    → IsFree esc back
    → ((filter_input (after (clip_in p) reads) (front ++ (clipboard k pc pd term ++ back))).1
        ≡ front ++ back)
      × ((filter_input (after (clip_in full) reads) keys).1 ≡ keys)
unfolding filter_input
filter_input-answer p reads k front pc pd back keys term d h a b =
    let (f, e, between) = clip_in-IsBetween p d in
    let (g, e', still) = after-IsBetween f reads between in
    (
      ap (λ o. (filter_input o (front ++ (clipboard k pc pd term ++ back))).1)
            (ap (λ o. after o reads) e ∙ e')
          ∙ answer_taken g k front pc pd back term still h a b,
      ap (λ o. (filter_input o keys).1) (after-none reads),
    )
