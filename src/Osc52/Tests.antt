-- ===== src/Osc52/Tests.antt =====
-- Runs of the filter of internal/osc52/osc52.go, from its own tests, and the theorems on input.
use gosh.Base.{
  ℕ, zero, suc, ◌+◌, [], ◌∷◌, ◌++◌, Bytes, equal, ◌≡◌, refl, arith, inl, Option, some, ok,
  replicate,
}
use gosh.Base.Text.{codes}
use gosh.Osc52.Policy.{Policy, write, full, off, parse_policy, policy_string}
use gosh.Osc52.Filter.{Filter, esc, bel, new, filter}
use gosh.Osc52.Machine.{emits, feed_all}
use gosh.Osc52.Machine.Refines.{filter-feed_all}
use gosh.Osc52.Machine.Streams.{IsPlain, filter-text}
use gosh.Osc52.Machine.Sequences.{
  IsClipboard, introducer, clipboard, done, allowed, filter-clipboard,
}
use gosh.Osc52.Bypass.{filter_spliced, filter_long_number}
use mathlib.Core.Option

-- What one call on a new filter puts out.
run : Policy → Bytes → Option Bytes
unfolding new filter
run p src = Option.map (λ r. r.1) (filter (new p) [] src)

base64_hi : Bytes
base64_hi = codes "aGk="

runs :
    (run write (clipboard 0 [] base64_hi bel) ≡ some (clipboard 0 (b'c' ∷ []) base64_hi bel))
    × (run write (clipboard 1 (b'p' ∷ []) base64_hi esc)
        ≡ some (clipboard 0 (b'p' ∷ []) base64_hi esc))
    × (run write (clipboard 0 (b'c' ∷ []) (b'?' ∷ []) bel ++ b'x' ∷ []) ≡ some (b'x' ∷ []))
    × (run full (clipboard 0 (b'c' ∷ []) (b'?' ∷ []) bel)
        ≡ some (clipboard 0 (b'c' ∷ []) (b'?' ∷ []) bel))
    × (run off (b'x' ∷ (clipboard 0 [] base64_hi bel ++ b'y' ∷ [])) ≡ some (codes "xy"))
    × (run off (esc ∷ codes "]0;title") ≡ some (esc ∷ codes "]0;title"))
unfolding run base64_hi equal
runs = (refl, refl, refl, refl, refl, refl)

-- The policy write refuses a read query, yet this input leaves one on the terminal.
spliced_query :
    run write
      (esc ∷ codes "]5" ++ (clipboard 0 (b'c' ∷ []) (b'?' ∷ []) bel ++ (codes "2;c;?" ++ bel ∷ [])))
    ≡ some (clipboard 0 (b'c' ∷ []) (b'?' ∷ []) bel)
unfolding run equal
spliced_query = refl

policy_strings : (p : Policy) → parse_policy (policy_string p) ≡ ok p
unfolding parse_policy policy_string equal
policy_strings write = refl
policy_strings full = refl
policy_strings off = refl

filter-feed_all_example :
    filter (new write) [] (codes "a") ≡ some (emits (feed_all (new write) (codes "a")) [])
filter-feed_all_example = filter-feed_all (new write) [] (codes "a")

first_half : filter (new write) [] (codes "ab") ≡ some (new write, codes "ab")
unfolding new
first_half = filter-text (new write) [] (codes "ab") refl (refl, (refl, tt))

abbrev query_shape : IsClipboard 1 (b'c' ∷ []) (b'?' ∷ []) bel
query_shape = record {
  zeros = omega arith;
  one_selection = (refl, tt);
  plain_selection = (refl, tt);
  plain_payload = (refl, tt);
  terminated = inl refl;
  fits = omega arith;
}

filter-clipboard_example :
    filter (new write) (codes "a") (clipboard 1 (b'c' ∷ []) (b'?' ∷ []) bel)
    ≡ some (done (new write) 1, codes "a" ++ allowed write (b'c' ∷ []) (b'?' ∷ []) bel)
unfolding new
filter-clipboard_example =
    filter-clipboard (new write) (codes "a") 1 (b'c' ∷ []) (b'?' ∷ []) bel refl refl query_shape

IsPlain-replicate : (n : ℕ) → IsPlain (replicate n b'A')
IsPlain-replicate zero = tt
IsPlain-replicate (suc n) = (refl, IsPlain-replicate n)

filter_spliced_example :
    (g : Filter) × (filter (new write) [] (
        esc
        ∷ b']'
        ∷ b'5'
        ∷ (clipboard 1 (b'c' ∷ []) (b'?' ∷ []) bel ++ b'2' ∷ b';' ∷ (codes "c;?" ++ bel ∷ [])))
      ≡ some (g, introducer 0 (codes "c;?" ++ bel ∷ [])))
filter_spliced_example =
    filter_spliced 1 (b'c' ∷ []) (codes "c;?" ++ bel ∷ []) bel query_shape
      (refl, (refl, (refl, (refl, tt))))

filter_long_number_example :
    (g : Filter) × (filter (new off) [] (introducer (2 + 7) (codes "c;?" ++ bel ∷ []))
      ≡ some (g, introducer (2 + 7) (codes "c;?" ++ bel ∷ [])))
filter_long_number_example =
    filter_long_number off 2 (codes "c;?" ++ bel ∷ []) (refl, (refl, (refl, (refl, tt))))
