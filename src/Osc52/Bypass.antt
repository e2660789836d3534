-- ===== src/Osc52/Bypass.antt =====
-- internal/osc52/osc52.go: two forms of input that leave the filter as a clipboard sequence although
-- the policy forbids it.
use gosh.Base.{
  arith, equal, replicate, ℕ, zero, suc, ◌+◌, [], ◌∷◌, ◌++◌, Bytes, ◌≡◌, refl, ap, ◌∙◌, some,
}
use gosh.Osc52.Policy.{Policy, write}
use gosh.Osc52.Filter.{Filter, in_prefix, esc, reset, new, filter}
use gosh.Osc52.Machine.{emits, feed_in, feed_all}
use gosh.Osc52.Machine.Streams.{IsFree, feed_all-append, feed_all-text}
use gosh.Osc52.Machine.Sequences.{
  introducer, number, clipboard, done, allowed, IsClipboard, feed_all-clipboard,
}
use gosh.Osc52.Machine.Refines.{filter-feed_all}

-- The filter when an ESC has broken off `ESC ] 5`.
abbrev broken_off : Policy → Filter
broken_off p = record (new p) { num = 5; digits = 1 }

abbrev introducer_start : Bytes
introducer_start = esc ∷ b']' ∷ (replicate 7 b'0')

feed_all-broken_off :
    (p : Policy) (src : Bytes)
    → feed_all (new p) (esc ∷ b']' ∷ b'5' ∷ esc ∷ src)
      ≡ emits (feed_all (broken_off p) (esc ∷ src)) (esc ∷ b']' ∷ b'5' ∷ [])
unfolding new feed_all feed_in reset
feed_all-broken_off p src = refl

-- A dropped read query between `ESC ] 5` and `2 ;` joins the two: under the write policy what comes
-- out is `ESC ] 52 ;` and whatever follows, so that a second query there reaches the terminal.
pub filter_spliced :
    (k : ℕ) (pc rest : Bytes) (term : ℕ)
    → IsClipboard k pc (b'?' ∷ []) term
    → IsFree esc rest
    → (g : Filter) × (filter
          (new write)
          []
          (esc ∷ b']' ∷ b'5' ∷ (clipboard k pc (b'?' ∷ []) term ++ b'2' ∷ b';' ∷ rest))
        ≡ some (g, introducer 0 rest))
unfolding new
filter_spliced k pc rest term h r = (
  done (broken_off write) k,
  filter-feed_all (new write) [] (esc ∷ b']' ∷ b'5' ∷ (query ++ tail))
      ∙ ap (λ o. some (emits o []))
          (feed_all-broken_off write _
            ∙ ap (λ o. emits o (esc ∷ b']' ∷ b'5' ∷ []))
                (feed_all-append query tail (broken_off write)
                  ∙ ap (λ o. emits (feed_all o.0 tail) o.1) dropped
                  ∙ feed_all-text tail (done (broken_off write) k) refl (refl, (refl, r)))),
)
  where
    query : Bytes
    query = clipboard k pc (b'?' ∷ []) term

    tail : Bytes
    tail = b'2' ∷ b';' ∷ rest

    dropped : feed_all (broken_off write) query ≡ (done (broken_off write) k, [])
    dropped =
        unfold allowed equal in
        feed_all-clipboard (broken_off write) k pc (b'?' ∷ []) term refl refl h

abbrev eight_digits : Policy → Filter
eight_digits p = record (new p) {
  state = in_prefix;
  buf = introducer_start ++ b'0' ∷ [];
  num = 0;
  digits = 8;
}

number-IsFree-esc : (k : ℕ) (rest : Bytes) → IsFree esc rest → IsFree esc (number k ++ b';' ∷ rest)
number-IsFree-esc zero rest r = (refl, (refl, (refl, r)))
number-IsFree-esc (suc k) rest r = (refl, number-IsFree-esc k rest r)

feed_all-ninth :
    (p : Policy) (k : ℕ) (rest : Bytes)
    → feed_all (eight_digits p) (number k ++ b';' ∷ rest)
      ≡ emits
          (feed_all (record (new p) { digits = 8 }) (number k ++ b';' ∷ rest))
          (introducer_start ++ b'0' ∷ [])
unfolding new feed_all feed_in reset
feed_all-ninth p zero rest = refl
feed_all-ninth p (suc k) rest = refl

-- The number's first eight digits are held, and the ninth releases them.
feed_all-long_number :
    (p : Policy) (k : ℕ) (rest : Bytes)
    → IsFree esc rest
    → (g : Filter) × (feed_all (new p) (introducer (suc (suc (suc (suc (suc (suc (suc k))))))) rest)
        ≡ (g, introducer (suc (suc (suc (suc (suc (suc (suc k))))))) rest))
feed_all-long_number p zero rest r = (
  record (new p) { num = 5; digits = 8 },
  unfold new feed_all feed_in reset in
      ap (λ o. emits o (introducer_start ++ b'5' ∷ b'2' ∷ []))
        (feed_all-text (b';' ∷ rest) (record (new p) { num = 5; digits = 8 }) refl (refl, r)),
)
feed_all-long_number p (suc k) rest r = (
  record (new p) { digits = 8 },
  unfold new feed_all feed_in in
      feed_all-ninth p k rest
      ∙ ap (λ o. emits o (introducer_start ++ b'0' ∷ []))
          (feed_all-text (number k ++ b';' ∷ rest) (record (new p) { digits = 8 }) refl
            (number-IsFree-esc k rest r)),
)

-- A number of nine digits or more is taken for another sequence: with seven leading zeros or more a
-- clipboard sequence goes out byte for byte, under every policy.
pub filter_long_number :
    (p : Policy) (k : ℕ) (rest : Bytes)
    → IsFree esc rest
    → (g : Filter) × (filter (new p) [] (introducer (k + 7) rest)
        ≡ some (g, introducer (k + 7) rest))
filter_long_number p k rest r =
    let (g, e) = feed_all-long_number p k rest r in
    let same : suc (suc (suc (suc (suc (suc (suc k)))))) ≡ k + 7 = omega arith in
    (g, rw (← same) (filter-feed_all (new p) [] _ ∙ ap (λ o. some (emits o [])) e))
