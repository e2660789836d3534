-- ===== src/Osc52/Machine.antt =====
-- What the loop of `Filter` in internal/osc52/osc52.go comes to, one byte at a time: a machine that
-- reads each byte once and says what it adds to the output.
mod Emitted
mod Rounds
pub mod Refines
pub mod Streams
pub mod Sequences
pub mod Limits
use gosh.Base.{
  ℕ, suc, ◌+◌, ◌-◌, ◌*◌, List, [], ◌∷◌, ◌++◌, Bytes, length, Bool, true, false, not, ◌&&◌, ◌||◌,
  ltb, leb, ◌==◌, if◌then◌else◌,
}
use gosh.Osc52.Filter.{
  Filter, State, text, in_esc, in_prefix, in_body, in_body_esc, esc, bel, can, sub, osc_number,
  max_digits, max_sequence, reset, emit,
}

abbrev pub emits : Filter × Bytes → Bytes → Filter × Bytes
emits (f, out) held = (f, held ++ out)

unfoldable pub feed_text : Filter → ℕ → Filter × Bytes
feed_text f c = if c == esc then (record f { buf = esc ∷ []; state = in_esc }, []) else (f, c ∷ [])

-- Held bytes that are no clipboard sequence go out, and the byte is text.
unfoldable pub feed_released : Filter → ℕ → Filter × Bytes
unfolding feed_text reset
feed_released f c = emits (feed_text (reset f) c) f.buf

unfoldable pub feed_esc : Filter → ℕ → Filter × Bytes
unfolding feed_released
feed_esc f c =
    if c == b']'
    then (record f { buf = f.buf ++ c ∷ []; num = 0; digits = 0; state = in_prefix }, [])
    else feed_released f c

unfoldable pub feed_prefix : Filter → ℕ → Filter × Bytes
unfolding feed_released
feed_prefix f c =
    if (leb b'0' c && leb c b'9') && ltb f.digits max_digits
    then (
      record f { num = f.num * 10 + (c - b'0'); digits = f.digits + 1; buf = f.buf ++ c ∷ [] },
      [],
    )
    else if c == b';' && (ltb 0 f.digits && f.num == osc_number)
    then (record f { buf = f.buf ++ c ∷ []; state = in_body }, [])
    else feed_released f c

unfoldable pub feed_body : Filter → ℕ → Filter × Bytes
unfolding emit reset
feed_body f c =
    if c == bel
    then emit f [] bel
    else if c == esc
    then (record f { state = in_body_esc }, [])
    else if c == can || c == sub
    then (reset f, [])
    else if f.dropping
    then (f, [])
    else if leb max_sequence (length f.buf)
    then (record f { dropping = true; buf = [] }, [])
    else (record f { buf = f.buf ++ c ∷ [] }, [])

-- An ESC that closes nothing starts the next sequence.
unfoldable pub feed_body_esc : Filter → ℕ → Filter × Bytes
unfolding emit reset feed_esc
feed_body_esc f c =
    if c == b'\\'
    then emit f [] esc
    else feed_esc (record (reset f) { buf = esc ∷ []; state = in_esc }) c

unfoldable pub feed_in : State → Filter → ℕ → Filter × Bytes
unfolding feed_text feed_esc feed_prefix feed_body feed_body_esc
feed_in text f c = feed_text f c
feed_in in_esc f c = feed_esc f c
feed_in in_prefix f c = feed_prefix f c
feed_in in_body f c = feed_body f c
feed_in in_body_esc f c = feed_body_esc f c

abbrev pub feed : Filter → ℕ → Filter × Bytes
feed f c = feed_in f.state f c

-- The filter and the output after all of `src`.
unfoldable pub feed_all : Filter → Bytes → Filter × Bytes
unfolding feed_in
feed_all f [] = (f, [])
feed_all f (c ∷ src) = let (f', out) = feed f c in emits (feed_all f' src) out
