-- ===== src/Osc52/Machine/Sequences.antt =====
-- What `Filter` of internal/osc52/osc52.go makes of one clipboard sequence.
use gosh.Osc52.Filter.{
  after_number, Filter, text, in_prefix, in_body, esc, bel, max_sequence, reset, emit, emit_parts,
  emit_body, append_sequence, filter, close, is_off,
}
use gosh.Base.{
  ℕ, zero, suc, ◌+◌, ◌≤◌, [], ◌∷◌, ◌++◌, Bytes, length, drop, true, false, if◌then◌else◌, equal,
  replicate, Bool-cases, All-append, ◌≡◌, ◌⊎◌, inl, inr, refl, sym, ap, ◌∙◌, append-nil,
  append_assoc, arith, some, take-append_length, length-append,
}
use gosh.Osc52.Policy.{Policy, write, full, off}
use gosh.Osc52.Machine.{emits, feed_in, feed_all}
use gosh.Osc52.Machine.Refines.{filter-feed_all}
use gosh.Osc52.Machine.Streams.{IsFree, IsPlain, index_byte-append, feed_all-held}

-- `ESC ]`, the number 52 behind `k` zeros, and its ';'.
abbrev pub number : ℕ → Bytes
number k = replicate k b'0' ++ b'5' ∷ b'2' ∷ []

abbrev pub introducer : ℕ → Bytes → Bytes
introducer k rest = esc ∷ b']' ∷ (number k ++ b';' ∷ rest)

abbrev prefixed : Filter → ℕ → Filter
prefixed f k = record f {
  state = in_prefix;
  buf = esc ∷ b']' ∷ replicate k b'0';
  num = 0;
  digits = k;
}

unfoldable pub opened : Filter → ℕ → Filter
opened f k = record f {
  state = in_body;
  buf = esc ∷ b']' ∷ (number k ++ b';' ∷ []);
  num = 52;
  digits = k + 2;
}

pub feed_all-introducer :
    (f : Filter) (k : ℕ) (rest : Bytes)
    → f.state ≡ text
    → k ≤ 6
    → feed_all f (introducer k rest) ≡ feed_all (opened f k) rest
unfolding feed_all feed_in opened
feed_all-introducer f zero rest t h = rw t refl
feed_all-introducer f (suc zero) rest t h = rw t refl
feed_all-introducer f (suc (suc zero)) rest t h = rw t refl
feed_all-introducer f (suc (suc (suc zero))) rest t h = rw t refl
feed_all-introducer f (suc (suc (suc (suc zero)))) rest t h = rw t refl
feed_all-introducer f (suc (suc (suc (suc (suc zero))))) rest t h = rw t refl
feed_all-introducer f (suc (suc (suc (suc (suc (suc zero)))))) rest t h = rw t refl
feed_all-introducer f (suc (suc (suc (suc (suc (suc (suc k))))))) rest t h = absurd (omega arith)

drop_past : (a b : Bytes) (x : ℕ) → drop (length a + 1) (a ++ x ∷ b) ≡ b
drop_past [] b x = refl
drop_past (c ∷ a) b x = ap (λ n. drop n (c ∷ (a ++ x ∷ b))) shifted ∙ drop_past a b x
  where
    shifted : length (c ∷ a) + 1 ≡ suc (length a + 1)
    shifted = omega arith

number-IsFree : (k : ℕ) → IsFree b';' (number k)
number-IsFree zero = (refl, (refl, tt))
number-IsFree (suc k) = (refl, number-IsFree k)

after_number-number : (k : ℕ) (body : Bytes) → after_number (number k ++ b';' ∷ body) ≡ body
after_number-number k body =
    rw (index_byte-append (number k) body b';' (number-IsFree k)) (drop_past (number k) body b';')

abbrev pub IsTerminator : ℕ → Type 0
IsTerminator term = (term ≡ bel) ⊎ (term ≡ esc)

pub feed_all-close :
    (f : Filter) (term : ℕ)
    → f.state ≡ in_body
    → IsTerminator term
    → feed_all f (close term) ≡ emit f [] term
unfolding feed_all feed_in emit
feed_all-close f term t (inl e) = rw e (rw t (ap (λ o. ((emit f [] bel).0, o)) (append-nil _)))
feed_all-close f term t (inr e) = rw e (rw t (ap (λ o. ((emit f [] esc).0, o)) (append-nil _)))

-- What a policy lets through of the sequence with selection `pc` and payload `pd`: a query under
-- full alone, and a write with an empty selection as one to the system clipboard.
abbrev pub canonical : Bytes → Bytes → ℕ → Bytes
canonical pc pd term = introducer 0 (pc ++ b';' ∷ (pd ++ close term))

abbrev pub selection : Bytes → Bytes
selection [] = b'c' ∷ []
selection (c ∷ pc) = c ∷ pc

unfoldable pub allowed : Policy → Bytes → Bytes → ℕ → Bytes
allowed off pc pd term = []
allowed write pc pd term = if equal pd (b'?' ∷ []) then [] else canonical (selection pc) pd term
allowed full pc pd term =
    if equal pd (b'?' ∷ []) then canonical pc pd term else canonical (selection pc) pd term

append_sequence-canonical :
    (pc pd : Bytes) (term : ℕ) → append_sequence [] (some pc) pd term ≡ canonical pc pd term
unfolding append_sequence
append_sequence-canonical pc pd term =
    ap (λ b. esc ∷ b']' ∷ b'5' ∷ b'2' ∷ b';' ∷ b) (append_assoc pc (b';' ∷ pd) (close term))

emit_parts-allowed :
    (p : Policy) (pc pd : Bytes) (term : ℕ)
    → is_off p ≡ false
    → emit_parts p [] pc pd term ≡ allowed p pc pd term
unfolding emit_parts allowed
emit_parts-allowed off pc pd term h = cc
emit_parts-allowed write [] pd term h =
    ground (arith, append_sequence-canonical (b'c' ∷ []) pd term)
emit_parts-allowed write (c ∷ pc) pd term h =
    ground (arith, append_sequence-canonical (c ∷ pc) pd term)
emit_parts-allowed full [] pd term h =
    ground
      (arith, append_sequence-canonical [] pd term, append_sequence-canonical (b'c' ∷ []) pd term)
emit_parts-allowed full (c ∷ pc) pd term h =
    ground (arith, append_sequence-canonical (c ∷ pc) pd term)

emit_body-allowed :
    (p : Policy) (pc pd : Bytes) (term : ℕ)
    → is_off p ≡ false
    → IsFree b';' pc
    → emit_body p [] (pc ++ b';' ∷ pd) term ≡ allowed p pc pd term
emit_body-allowed p pc pd term o h =
    rw (index_byte-append pc pd b';' h, take-append_length pc (b';' ∷ pd), drop_past pc pd b';')
      (emit_parts-allowed p pc pd term o)

off-allowed : (p : Policy) (pc pd : Bytes) (term : ℕ) → is_off p ≡ true → allowed p pc pd term ≡ []
unfolding allowed
off-allowed off pc pd term h = refl
off-allowed write pc pd term h = cc
off-allowed full pc pd term h = cc

emit-allowed :
    (f : Filter) (k : ℕ) (pc pd : Bytes) (term : ℕ)
    → f.dropping ≡ false
    → f.buf ≡ esc ∷ b']' ∷ (number k ++ b';' ∷ (pc ++ b';' ∷ pd))
    → IsFree b';' pc
    → emit f [] term ≡ (reset f, allowed f.policy pc pd term)
unfolding emit
emit-allowed f k pc pd term d e h = elim (Bool-cases (is_off f.policy)) [
  | inl o ↦ rw (d, o) (ap (λ b. (reset f, b)) (sym (off-allowed f.policy pc pd term o)))
  | inr o ↦
      rw (d, o)
        (ap (λ b. (reset f, b))
          (ap (λ b. emit_body f.policy [] (after_number (drop 2 b)) term) e
            ∙ ap (λ b. emit_body f.policy [] b term) (after_number-number k (pc ++ b';' ∷ pd))
            ∙ emit_body-allowed f.policy pc pd term o h))
]

-- `ESC ] 0…052 ; pc ; pd` and its terminator.
abbrev pub clipboard : ℕ → Bytes → Bytes → ℕ → Bytes
clipboard k pc pd term = introducer k (pc ++ b';' ∷ (pd ++ close term))

abbrev pub done : Filter → ℕ → Filter
done f k = record f { state = text; buf = []; num = 52; digits = k + 2; dropping = false }

-- The parts of a sequence that a terminal would take whole, within the buffer's bound.
pub record IsClipboard (k : ℕ) (pc pd : Bytes) (term : ℕ) : Type 0 where
  pub zeros : k ≤ 6
  pub one_selection : IsFree b';' pc
  pub plain_selection : IsPlain pc
  pub plain_payload : IsPlain pd
  pub terminated : IsTerminator term
  pub fits : k + length pc + length pd ≤ 65530

pub length-number : (k : ℕ) → length (number k) ≡ k + 2
length-number zero = refl
length-number (suc k) = omega (arith, length-number k)

pub feed_all-clipboard :
    (f : Filter) (k : ℕ) (pc pd : Bytes) (term : ℕ)
    → f.state ≡ text
    → f.dropping ≡ false
    → IsClipboard k pc pd term
    → feed_all f (clipboard k pc pd term) ≡ (done f k, allowed f.policy pc pd term)
unfolding opened reset
feed_all-clipboard f k pc pd term t d h =
    let body : Bytes = pc ++ b';' ∷ pd in
    feed_all-introducer f k _ t h.zeros
    ∙ ap (λ b. feed_all (opened f k) b) (sym (append_assoc pc (b';' ∷ pd) (close term)))
    ∙ feed_all-held body (close term) (opened f k) refl d plain room
    ∙ feed_all-close (record (opened f k) { buf = (opened f k).buf ++ body }) term refl h.terminated
    ∙ emit-allowed (record (opened f k) { buf = (opened f k).buf ++ body }) k pc pd term d
        (append_assoc (esc ∷ b']' ∷ number k) (b';' ∷ []) body) h.one_selection
  where
    plain : IsPlain (pc ++ b';' ∷ pd)
    plain = All-append _ pc (b';' ∷ pd) h.plain_selection (refl, h.plain_payload)

    room : length (opened f k).buf + length (pc ++ b';' ∷ pd) ≤ max_sequence
    room = omega (
      arith,
      h.fits,
      length-number k,
      length-append (number k) (b';' ∷ []),
      length-append pc (b';' ∷ pd),
    )

-- A whole clipboard sequence in the text state, its number written with up to six leading zeros, its
-- parts free of controls and within the buffer's bound: what comes out is what the policy allows, and
-- the filter is back in the text state.
pub filter-clipboard :
    (f : Filter) (dst : Bytes) (k : ℕ) (pc pd : Bytes) (term : ℕ)
    → f.state ≡ text
    → f.dropping ≡ false
    → IsClipboard k pc pd term
    → filter f dst (clipboard k pc pd term) ≡ some (done f k, dst ++ allowed f.policy pc pd term)
filter-clipboard f dst k pc pd term t d h =
    filter-feed_all f dst (clipboard k pc pd term)
    ∙ ap (λ r. some (emits r dst)) (feed_all-clipboard f k pc pd term t d h)
