-- ===== src/Bootstrap/Redaction.antt =====
-- internal/bootstrap/bootstrap.go: what `RedactKeys` leaves holds no key.
use gosh.Base.{
  ℕ, zero, suc, ◌≤◌, [], ◌∷◌, ◌++◌, Bytes, length, Option, none, some, All, All-append,
  append_assoc, Bool, true, false, not, ◌==◌, if◌then◌else◌, Bool-cases, Option-cases, ==_iff, ◌≡◌,
  ◌≢◌, inl, inr, refl, sym, ap, ◌∙◌, subst, arith,
}
use gosh.Base.Text.{codes}
use gosh.Bootstrap.Output.{
  Match, span, is_digit, is_key_char, strip_prefix, line_end, after_prefix, with_port, with_gap,
  with_key, with_end, either, connect_prefix, match_here, find_from, find_connect, taken,
  redact_from, redact_keys,
}
use gosh.Bootstrap.Started.{match_here-other, strip_prefix-append, span-stops}
use gosh.Bootstrap.OneLine.{SameLine, found, match_here-SameLine}

-- The digits that a span takes, and the port of a match.
abbrev IsPort : Bytes → Type 0
IsPort port = All (λ c. is_digit c ≡ true) port × (1 ≤ length port) × (length port ≤ 5)

span-All :
    (p : ℕ → Bool) (n : ℕ) (s : Bytes)
    → All (λ c. p c ≡ true) (span p n s).0 × (length (span p n s).0 ≤ n)
unfolding span
span-All p zero s = (tt, omega arith)
span-All p (suc n) [] = (tt, omega arith)
span-All p (suc n) (c ∷ s) = elim (Bool-cases (p c)) [
  | inl e ↦ rw e ((e, (span-All p n s).0), omega (arith, (span-All p n s).1))
  | inr e ↦ rw e (tt, omega arith)
]

with_end-port :
    (port key : Bytes) (o : Option Bytes) {m : Match} → with_end port key o ≡ some m → m.port ≡ port
with_end-port port key none h = absurd cc
with_end-port port key (some behind) {m} h = sym (ap port_of h)
  where
    port_of : Option Match → Bytes
    port_of none = port
    port_of (some n) = n.port

with_key-port :
    (port key rest : Bytes) {m : Match} → with_key port (key, rest) ≡ some m → m.port ≡ port
with_key-port port key rest {m} = by_test (length key == 22)
  where
    by_test :
        (t : Bool)
        → (if not t then none else with_end port key (line_end rest)) ≡ some m
        → m.port ≡ port
    by_test true h = with_end-port port key (line_end rest) h
    by_test false h = absurd cc

with_gap-port :
    (port : Bytes) (o : Option Bytes) {m : Match} → with_gap port o ≡ some m → m.port ≡ port
with_gap-port port none h = absurd cc
with_gap-port port (some s) h =
    with_key-port port (span is_key_char 22 s).0 (span is_key_char 22 s).1 h

with_port-port :
    (port rest : Bytes) {m : Match}
    → with_port (port, rest) ≡ some m
    → (m.port ≡ port) × ((length port == 0) ≡ false)
with_port-port port rest {m} = by_test (length port == 0)
  where
    by_test :
        (t : Bool)
        → (if t then none else with_gap port (strip_prefix (b' ' ∷ []) rest)) ≡ some m
        → (m.port ≡ port) × (t ≡ false)
    by_test true h = absurd cc
    by_test false h = (with_gap-port port (strip_prefix (b' ' ∷ []) rest) h, refl)

after_prefix-IsPort : (o : Option Bytes) {m : Match} → after_prefix o ≡ some m → IsPort m.port
after_prefix-IsPort none h = absurd cc
after_prefix-IsPort (some s) h =
    let (same, some_digit) = with_port-port (span is_digit 5 s).0 (span is_digit 5 s).1 h in
    let (digits, few) = span-All is_digit 5 s in subst IsPort (sym same) (digits, ground arith, few)

match_here-IsPort : (s : Bytes) {m : Match} → match_here s ≡ some m → IsPort m.port
unfolding match_here
match_here-IsPort s h = after_prefix-IsPort (strip_prefix connect_prefix s) h

-- The text put for a match does not match.
match_here-redacted :
    (port rest : Bytes)
    → IsPort port
    → match_here (connect_prefix ++ (port ++ (codes " <key redacted>" ++ rest))) ≡ none
unfolding match_here span strip_prefix
match_here-redacted port rest (digits, some_digit, few) =
    let full : (length port == 0) ≡ false = ground arith in
    ap after_prefix (strip_prefix-append connect_prefix (port ++ (codes " <key redacted>" ++ rest)))
    ∙ ap with_port
        (span-stops is_digit 5 port b' ' (codes "<key redacted>" ++ rest) digits few refl)
    ∙ rw full refl

find_from-one_line :
    (a rest : Bytes) → All (λ c. c ≢ 10) a → find_from false (a ++ rest) ≡ find_from false rest
unfolding find_from
find_from-one_line [] rest h = refl
find_from-one_line (c ∷ a) rest (h, hs) =
    let other : (c == 10) ≡ false = ground arith in rw other (find_from-one_line a rest hs)

digits-one_line : (port : Bytes) → All (λ c. is_digit c ≡ true) port → All (λ c. c ≢ 10) port
digits-one_line [] h = tt
digits-one_line (c ∷ port) (h, hs) = (other h, digits-one_line port hs)
  where
    clash : is_digit 10 ≡ true → ⊥
    clash e = cc

    other : is_digit c ≡ true → c ≢ 10
    other e = λ newline. absurd (clash (ap is_digit (sym newline) ∙ e))

-- A line is left as it is from within.
SameLine-redact_from : (s : Bytes) → SameLine s (redact_from 0 false s)
unfolding redact_from
SameLine-redact_from [] = tt
SameLine-redact_from (c ∷ s) = elim (Bool-cases (c == 10)) [
  | inl e ↦ (refl, inl ((==_iff c 10).0 e))
  | inr e ↦ (refl, inr (rw e (SameLine-redact_from s)))
]

SameLine-redact_line : (c : ℕ) (s : Bytes) → SameLine (c ∷ s) (c ∷ redact_from 0 (c == 10) s)
SameLine-redact_line c s = elim (Bool-cases (c == 10)) [
  | inl e ↦ (refl, inl ((==_iff c 10).0 e))
  | inr e ↦ (refl, inr (rw e (SameLine-redact_from s)))
]

not_found : {o r : Option Match} → o ≡ none → found o ≡ found r → r ≡ none
not_found {o} {r} e f = by_cases r (ap found (sym e) ∙ f)
  where
    by_cases : (r : Option Match) → false ≡ found r → r ≡ none
    by_cases none g = refl
    by_cases (some m) g = absurd cc

-- The text put for a match, at the start of a line: what follows it holds no match.
find_from-redacted :
    (m : Match) (rest : Bytes)
    → IsPort m.port
    → find_from false rest ≡ none
    → find_from true ((connect_prefix ++ (m.port ++ codes " <key redacted>")) ++ rest) ≡ none
unfolding find_from
find_from-redacted m rest port h =
    let text = codes "OSH CONNECT " ++ (m.port ++ codes " <key redacted>") in
    let line : All (λ c. c ≢ 10) text =
      All-append (λ c. c ≢ 10) (codes "OSH CONNECT ") (m.port ++ codes " <key redacted>")
        (ground arith)
        (All-append (λ c. c ≢ 10) m.port (codes " <key redacted>") (digits-one_line m.port port.0)
          (ground arith)) in
    let shut : match_here ((connect_prefix ++ (m.port ++ codes " <key redacted>")) ++ rest) ≡ none =
      ap (λ t. match_here (connect_prefix ++ t))
        (append_assoc m.port (codes " <key redacted>") rest)
      ∙ match_here-redacted m.port rest port in
    (λ j. either (shut j) (find_from false (text ++ rest))) ∙ find_from-one_line text rest line ∙ h

first_byte : (c : ℕ) (s : Bytes) {m : Match} → match_here (c ∷ s) ≡ some m → (c == 10) ≡ false
first_byte c s e = elim (Bool-cases (c == b'M')) [
  | inl k ↦ ap (λ x. x == 10) ((==_iff c b'M').0 k)
  | inr k ↦ absurd (clash (sym (match_here-other c s k) ∙ e))
]
  where
    clash : {m : Match} → none ≡ some m → ⊥
    clash h = cc

-- Whether a line starts behind the bytes that are skipped.
abbrev starts_at : ℕ → Bool → Bool
starts_at zero starts = starts
starts_at (suc skip) starts = false

starts_at-false : (skip : ℕ) → starts_at skip false ≡ false
starts_at-false zero = refl
starts_at-false (suc skip) = refl

find_from-redact_from :
    (skip : ℕ) (starts : Bool) (s : Bytes)
    → find_from (starts_at skip starts) (redact_from skip starts s) ≡ none
unfolding redact_from find_from
find_from-redact_from skip starts [] = refl
find_from-redact_from (suc skip) starts (c ∷ s) =
    ap (λ t. find_from t (redact_from skip false s)) (sym (starts_at-false skip))
    ∙ find_from-redact_from skip false s
find_from-redact_from zero false (c ∷ s) = find_from-redact_from 0 (c == 10) s
find_from-redact_from zero true (c ∷ s) = elim (Option-cases (match_here (c ∷ s))) [
  | inl e ↦ rw e (
      ap (λ m. either m (find_from (c == 10) (redact_from 0 (c == 10) s)))
        (not_found e
          (match_here-SameLine (c ∷ s) (c ∷ redact_from 0 (c == 10) s) (SameLine-redact_line c s)))
      ∙ find_from-redact_from 0 (c == 10) s)
  | inr (m, e) ↦
      let skip = taken (length s) (some m) in
      let within : find_from false (redact_from skip (c == 10) s) ≡ none =
        ap (λ t. find_from false (redact_from skip t s)) (first_byte c s e)
        ∙ ap (λ t. find_from t (redact_from skip false s)) (sym (starts_at-false skip))
        ∙ find_from-redact_from skip false s in
      rw e
        (find_from-redacted m (redact_from skip (c == 10) s) (match_here-IsPort (c ∷ s) e) within)
]

-- No line of what is left of an output by `RedactKeys` holds a port and a key as mosh-server prints
-- them, whatever the output is.
pub find_connect-redact_keys : (output : Bytes) → find_connect (redact_keys output) ≡ none
find_connect-redact_keys output = find_from-redact_from 0 true output
