-- ===== src/Osc52/Machine/Rounds.antt =====
-- One round of the loop of `Filter` in each state leaves the machine's result to come.
use gosh.Osc52.Filter.{
  max_sequence, osc_number, again, max_digits, Filter, State, text, in_esc, in_prefix, in_body,
  in_body_esc, esc, bel, can, sub, index_byte, release, emit, round_text, round_esc, round_prefix,
  round_body, round_body_esc,
}
use native.Mathlib.Numerals.{add-one}
use gosh.Base.{
  length-drop, ℕ, zero, suc, ◌+◌, ◌*◌, ◌≤◌, ◌<◌, [], ◌∷◌, ◌++◌, Bytes, length, take, drop, Bool,
  true, false, ◌&&◌, ◌||◌, ltb, leb, ◌==◌, Bool-cases, ◌≡◌, refl, ap, ◌∙◌, append-nil, append_assoc,
  arith, none, some, inl, inr, Option-cases,
}
use gosh.Osc52.Machine.{
  emits, feed_in, feed_all, feed_released, feed_esc, feed_prefix, feed_body, feed_body_esc,
}
use gosh.Osc52.Machine.Emitted.{emit-dst}

-- The rounds that a state may take before it reads its byte.
abbrev pub rereads : State → Bool → ℕ
rereads text d = 0
rereads in_esc d = 1
rereads in_prefix d = 1
rereads in_body false = 1
rereads in_body true = 0
rereads in_body_esc d = 2

abbrev pub then_all : Filter × Bytes → Bytes → Filter × Bytes
then_all (f, out) src = emits (feed_all f src) out

-- A round left the machine's result to come, with fewer rounds to go.
abbrev pub Agrees : Bytes → Filter × Bytes × Bytes → Filter × Bytes → ℕ → Type 0
Agrees dst (f, dst', src) target before =
    (dst' ++ (feed_all f src).1 ≡ dst ++ target.1)
    × ((feed_all f src).0 ≡ target.0)
    × (3 * length src + rereads f.state f.dropping < before)

pub feed_at :
    (f : Filter) (c : ℕ) (src : Bytes) {s : State}
    → f.state ≡ s
    → feed_all f (c ∷ src) ≡ then_all (feed_in s f c) src
unfolding feed_all
feed_at f c src t = ap (λ s. then_all (feed_in s f c) src) t

-- The text state copies a run of bytes in one round.
feed_text_run :
    (src : Bytes) (f : Filter)
    → f.state ≡ text
    → (n : ℕ) → index_byte src esc ≡ some n
    → feed_all f src
      ≡ emits
          (feed_all (record f { buf = esc ∷ []; state = in_esc }) (drop (n + 1) src))
          (take n src)
unfolding index_byte feed_in
feed_text_run [] f t n e = cc
feed_text_run (c ∷ src) f t n e = elim (Bool-cases (c == esc)) [
  | inl is ↦ let zeroth : zero ≡ n = ground arith in feed_at f c src t ∙ rw is (rw (← zeroth) refl)
  | inr isnt ↦ elim (Option-cases (index_byte src esc)) [
    | inl gone ↦ ground arith
    | inr (m, found) ↦
        let next : suc m ≡ n = ground arith in
        feed_at f c src t
        ∙ rw isnt (
            rw (← next) (
              ap (λ r. emits r (c ∷ [])) (feed_text_run src f t m found)
              ∙ rw (add-one m, add-one (suc m))))
  ]
]

feed_text_rest :
    (src : Bytes) (f : Filter)
    → f.state ≡ text
    → index_byte src esc ≡ none
    → feed_all f src ≡ (f, src)
unfolding index_byte feed_in
feed_text_rest [] f t e = unfold feed_all in refl
feed_text_rest (c ∷ src) f t e = elim (Bool-cases (c == esc)) [
  | inl is ↦ ground arith
  | inr isnt ↦ elim (Option-cases (index_byte src esc)) [
    | inl gone ↦
        feed_at f c src t ∙ rw isnt (ap (λ r. emits r (c ∷ [])) (feed_text_rest src f t gone))
    | inr (m, found) ↦ ground arith
  ]
]

pub rereads-le : (s : State) (d : Bool) → rereads s d ≤ 2
rereads-le in_body true = omega arith
rereads-le in_body false = omega arith
rereads-le _ d = omega arith

released-Agrees :
    (f : Filter) (dst : Bytes) (c : ℕ) (src : Bytes) (before : ℕ)
    → 3 * length (c ∷ src) < before
    → Agrees dst (again (release f dst) (c ∷ src)) (then_all (feed_released f c) src) before
unfolding release feed_released feed_all
released-Agrees f dst c src before h = (simp append_assoc, refl, omega arith)

pub round_esc-Agrees :
    (f : Filter) (dst : Bytes) (c : ℕ) (src : Bytes)
    → Agrees dst (round_esc f dst c src) (then_all (feed_esc f c) src) (3 * length (c ∷ src) + 1)
unfolding round_esc feed_esc
round_esc-Agrees f dst c src = elim (Bool-cases (c == b']')) [
  | inl is ↦ rw is (refl, refl, omega arith)
  | inr isnt ↦ rw isnt (released-Agrees f dst c src _ (omega arith))
]

pub round_prefix-Agrees :
    (f : Filter) (dst : Bytes) (c : ℕ) (src : Bytes)
    → Agrees dst
        (round_prefix f dst c src)
        (then_all (feed_prefix f c) src)
        (3 * length (c ∷ src) + 1)
unfolding round_prefix feed_prefix
round_prefix-Agrees f dst c src =
    elim (Bool-cases ((leb b'0' c && leb c b'9') && ltb f.digits max_digits)) [
      | inl digit ↦ rw digit (refl, refl, omega (arith, rereads-le f.state f.dropping))
      | inr other ↦
          rw other (elim (Bool-cases (c == b';' && (ltb 0 f.digits && f.num == osc_number))) [
            | inl is ↦ rw is (refl, refl, omega (arith, rereads-le in_body f.dropping))
            | inr isnt ↦ rw isnt (released-Agrees f dst c src _ (omega arith))
          ])
    ]

-- A sequence that outgrows the buffer turns into one that is dropped, and its byte is read again.
outgrown-Agrees :
    (f : Filter) (dst : Bytes) (c : ℕ) (src : Bytes) (before : ℕ)
    → f.state ≡ in_body
    → (c == bel) ≡ false
    → (c == esc) ≡ false
    → (c == can || c == sub) ≡ false
    → 3 * length (c ∷ src) + 1 ≤ before
    → Agrees dst
        (record f { dropping = true; buf = [] }, dst, c ∷ src)
        (then_all (record f { dropping = true; buf = [] }, []) src)
        before
unfolding feed_in
outgrown-Agrees f dst c src before t h1 h2 h3 m =
    rw (feed_at (record f { dropping = true; buf = [] }) c src t, h1, h2, h3)
      (refl, refl, rw t (omega arith))

emitted-Agrees :
    (f : Filter) (dst : Bytes) (term : ℕ) (src : Bytes) (before : ℕ)
    → 3 * length src + 2 < before
    → Agrees dst (again (emit f dst term) src) (then_all (emit f [] term) src) before
emitted-Agrees f dst term src before h = rw (emit-dst f dst term) (
  append_assoc dst _ _,
  refl,
  omega (arith, rereads-le (emit f [] term).0.state (emit f [] term).0.dropping),
)

held-Agrees :
    (f : Filter) (dst : Bytes) (c : ℕ) (src : Bytes) (before : ℕ)
    → f.state ≡ in_body
    → (c == bel) ≡ false
    → (c == esc) ≡ false
    → (c == can || c == sub) ≡ false
    → f.dropping ≡ false
    → 3 * length (c ∷ src) + 1 ≤ before
    → Agrees dst (round_body f dst c src) (then_all (feed_body f c) src) before
unfolding round_body feed_body
held-Agrees f dst c src before t h1 h2 h3 d m =
    rw (h1, h2, h3, d)
      (elim (Bool-cases (leb max_sequence (length f.buf))) [
        | inl grown ↦ rw grown (outgrown-Agrees f dst c src before t h1 h2 h3 m)
        | inr fits ↦ rw fits (refl, refl, omega (arith, rereads-le f.state false))
      ])

rereads_held : (f : Filter) → f.dropping ≡ false → 1 ≤ rereads in_body f.dropping
rereads_held f d = rw d (omega arith)

pub round_body-Agrees :
    (f : Filter) (dst : Bytes) (c : ℕ) (src : Bytes)
    → f.state ≡ in_body
    → Agrees dst
        (round_body f dst c src)
        (then_all (feed_body f c) src)
        (3 * length (c ∷ src) + rereads in_body f.dropping)
unfolding round_body feed_body
round_body-Agrees f dst c src t = elim (Bool-cases (c == bel)) [
  | inl is ↦ rw is (emitted-Agrees f dst bel src _ (omega arith))
  | inr h1 ↦ elim (Bool-cases (c == esc)) [
    | inl is ↦ rw (h1, is) (refl, refl, omega arith)
    | inr h2 ↦ elim (Bool-cases (c == can || c == sub)) [
      | inl is ↦ rw (h1, h2, is) (refl, refl, omega arith)
      | inr h3 ↦ elim (Bool-cases f.dropping) [
        | inl d ↦ rw (h1, h2, h3, d) (refl, refl, rw t (omega arith))
        | inr d ↦ held-Agrees f dst c src _ t h1 h2 h3 d (omega (arith, rereads_held f d))
      ]
    ]
  ]
]

pub round_body_esc-Agrees :
    (f : Filter) (dst : Bytes) (c : ℕ) (src : Bytes)
    → Agrees dst
        (round_body_esc f dst c src)
        (then_all (feed_body_esc f c) src)
        (3 * length (c ∷ src) + 2)
unfolding round_body_esc feed_body_esc
round_body_esc-Agrees f dst c src = elim (Bool-cases (c == b'\\')) [
  | inl is ↦ rw is (emitted-Agrees f dst esc src _ (omega arith))
  | inr isnt ↦ rw isnt (unfold feed_all in refl, unfold feed_all in refl, omega arith)
]

pub round_text-Agrees :
    (f : Filter) (dst : Bytes) (c : ℕ) (src : Bytes)
    → f.state ≡ text
    → Agrees dst
        (round_text f dst (c ∷ src))
        (feed_all f (c ∷ src))
        (3 * length (c ∷ src) + rereads text f.dropping)
unfolding round_text
round_text-Agrees f dst c src t = elim (Option-cases (index_byte (c ∷ src) esc)) [
  | inl e ↦
      rw (e, feed_text_rest (c ∷ src) f t e)
        (unfold feed_all in append-nil _, unfold feed_all in refl, rw t (omega arith))
  | inr (n, e) ↦
      rw (e, feed_text_run (c ∷ src) f t n e)
        (append_assoc dst _ _, refl, omega (arith, length-drop (n + 1) (c ∷ src)))
]
