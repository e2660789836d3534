-- ===== src/Bootstrap/OneLine.antt =====
-- internal/bootstrap/bootstrap.go: whether `connectRE` matches at the start of a line is a matter of
-- that line alone.
use gosh.Base.{
  ◌⊎◌, ℕ, zero, suc, [], ◌∷◌, Bytes, length, Option, none, some, All, Bool, true, false, not, ◌==◌,
  ◌||◌, ◌&&◌, if◌then◌else◌, Bool-cases, ==_iff, ◌≡◌, ◌≢◌, inl, inr, refl, sym, ap, ◌∙◌, arith,
}
use gosh.Bootstrap.Output.{
  span, is_digit, is_key_char, is_space, strip_prefix, line_end, after_prefix, with_port, with_gap,
  with_key, with_end, either, connect_prefix, match_here,
}

-- Texts that agree up to the first newline, or up to their end.
abbrev pub SameLine : Bytes → Bytes → Type 0
SameLine [] [] = Unit {0}
SameLine [] (d ∷ t) = ⊥
SameLine (c ∷ s) [] = ⊥
SameLine (c ∷ s) (d ∷ t) = (c ≡ d) × ((c ≡ 10) ⊎ SameLine s t)

abbrev SameRest : Option Bytes → Option Bytes → Type 0
SameRest none none = Unit {0}
SameRest none (some t) = ⊥
SameRest (some s) none = ⊥
SameRest (some s) (some t) = SameLine s t

abbrev pub found {ℓ} : {A : Type ℓ} → Option A → Bool
found none = false
found (some a) = true

strip_prefix-SameLine :
    (p s t : Bytes)
    → All (λ c. c ≢ 10) p
    → SameLine s t
    → SameRest (strip_prefix p s) (strip_prefix p t)
unfolding strip_prefix
strip_prefix-SameLine [] s t n h = h
strip_prefix-SameLine (x ∷ p) [] [] n h = tt
strip_prefix-SameLine (x ∷ p) [] (d ∷ t) n h = absurd h
strip_prefix-SameLine (x ∷ p) (c ∷ s) [] n h = absurd h
strip_prefix-SameLine (x ∷ p) (c ∷ s) (d ∷ t) (n, ns) (e, h) = elim (Bool-cases (x == c)) [
  | inl k ↦
      let k' : (x == d) ≡ true = ap (λ y. x == y) (sym e) ∙ k in
      rw (k, k')
        (strip_prefix-SameLine p s t ns
          (elim h [ inl newline ↦ absurd (n ((==_iff x c).0 k ∙ newline)) | inr same ↦ same ]))
  | inr k ↦ let k' : (x == d) ≡ false = ap (λ y. x == y) (sym e) ∙ k in rw (k, k') tt
]

span-SameLine :
    (p : ℕ → Bool) (n : ℕ) (s t : Bytes)
    → p 10 ≡ false
    → SameLine s t
    → ((span p n s).0 ≡ (span p n t).0) × SameLine (span p n s).1 (span p n t).1
unfolding span
span-SameLine p zero s t e h = (refl, h)
span-SameLine p (suc n) [] [] e h = (refl, tt)
span-SameLine p (suc n) [] (d ∷ t) e h = absurd h
span-SameLine p (suc n) (c ∷ s) [] e h = absurd h
span-SameLine p (suc n) (c ∷ s) (d ∷ t) e (k, h) = elim (Bool-cases (p c)) [
  | inl yes_c ↦
      let yes_d : p d ≡ true = ap p (sym k) ∙ yes_c in
      rw (yes_c, yes_d)
        (elim h [
          | inl newline ↦ absurd (clash (ap p (sym newline) ∙ yes_c) e)
          | inr same ↦
              let (front, rest) = span-SameLine p n s t e same in ((λ j. k j ∷ front j), rest)
        ])
  | inr no_c ↦ let no_d : p d ≡ false = ap p (sym k) ∙ no_c in rw (no_c, no_d) (refl, (k, h))
]
  where
    clash : {b : Bool} → b ≡ true → b ≡ false → ⊥
    clash a b = cc

line_end-step :
    (c : ℕ) (s : Bytes)
    → found (line_end (c ∷ s)) ≡ (is_space c && ((c == 10) || found (line_end s)))
unfolding line_end
line_end-step c s = by_cases (is_space c) (c == 10) (line_end s)
  where
    by_cases :
        (space newline : Bool) (further : Option Bytes)
        → found
            (if not space then none else either further (if newline then some (c ∷ s) else none))
          ≡ (space && (newline || found further))
    by_cases false newline further = refl
    by_cases true true none = refl
    by_cases true true (some b) = refl
    by_cases true false none = refl
    by_cases true false (some b) = refl

line_end-SameLine : (s t : Bytes) → SameLine s t → found (line_end s) ≡ found (line_end t)
line_end-SameLine [] [] h = refl
line_end-SameLine [] (d ∷ t) h = absurd h
line_end-SameLine (c ∷ s) [] h = absurd h
line_end-SameLine (c ∷ s) (d ∷ t) (k, h) =
    line_end-step c s
    ∙ (λ j. is_space (k j) && ((k j == 10) || found (line_end s)))
    ∙ elim h [
      | inl newline ↦ let at_end : (d == 10) ≡ true = ground (arith, k) in rw at_end refl
      | inr same ↦ ap (λ f. is_space d && ((d == 10) || f)) (line_end-SameLine s t same)
    ]
    ∙ sym (line_end-step d t)

found-with_end : (port key : Bytes) (o : Option Bytes) → found (with_end port key o) ≡ found o
found-with_end port key none = refl
found-with_end port key (some behind) = refl

with_key-SameLine :
    (port a b s t : Bytes)
    → a ≡ b
    → SameLine s t
    → found (with_key port (a, s)) ≡ found (with_key port (b, t))
with_key-SameLine port a b s t e h =
    ap (λ x. found (with_key port (x, s))) e ∙ elim (Bool-cases (length b == 22)) [
      | inl l ↦ rw l (
          found-with_end port b (line_end s)
          ∙ line_end-SameLine s t h
          ∙ sym (found-with_end port b (line_end t)))
      | inr l ↦ rw l refl
    ]

with_gap-SameRest :
    (port : Bytes) (o r : Option Bytes)
    → SameRest o r
    → found (with_gap port o) ≡ found (with_gap port r)
with_gap-SameRest port none none h = refl
with_gap-SameRest port none (some t) h = absurd h
with_gap-SameRest port (some s) none h = absurd h
with_gap-SameRest port (some s) (some t) h =
    let (key, rest) = span-SameLine is_key_char 22 s t refl h in
    with_key-SameLine port (span is_key_char 22 s).0 (span is_key_char 22 t).0
      (span is_key_char 22 s).1 (span is_key_char 22 t).1 key rest

with_port-SameLine :
    (a b s t : Bytes) → a ≡ b → SameLine s t → found (with_port (a, s)) ≡ found (with_port (b, t))
with_port-SameLine a b s t e h =
    ap (λ x. found (with_port (x, s))) e ∙ elim (Bool-cases (length b == 0)) [
      | inl l ↦ rw l refl
      | inr l ↦
          rw l (with_gap-SameRest b _ _ (strip_prefix-SameLine (b' ' ∷ []) s t (ground arith) h))
    ]

after_prefix-SameRest :
    (o r : Option Bytes) → SameRest o r → found (after_prefix o) ≡ found (after_prefix r)
after_prefix-SameRest none none h = refl
after_prefix-SameRest none (some t) h = absurd h
after_prefix-SameRest (some s) none h = absurd h
after_prefix-SameRest (some s) (some t) h =
    let (port, rest) = span-SameLine is_digit 5 s t refl h in
    with_port-SameLine (span is_digit 5 s).0 (span is_digit 5 t).0 (span is_digit 5 s).1
      (span is_digit 5 t).1 port rest

pub match_here-SameLine : (s t : Bytes) → SameLine s t → found (match_here s) ≡ found (match_here t)
unfolding match_here
match_here-SameLine s t h =
    after_prefix-SameRest _ _ (strip_prefix-SameLine connect_prefix s t (ground arith) h)
