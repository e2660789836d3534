-- ===== src/Osc52/Machine/Streams.antt =====
-- `Filter` of internal/osc52/osc52.go on text, on the plain bytes of a body, and on input that
-- comes in pieces.
use gosh.Base.{
  ℕ, ◌+◌, ◌≤◌, ◌<◌, [], ◌∷◌, ◌++◌, Bytes, All, length, Bool, true, false, not, ◌&&◌, ◌||◌, ◌==◌,
  ◌≡◌, refl, sym, ap, ◌∙◌, append-nil, append_assoc, arith, some, length-append,
}
use gosh.Osc52.Filter.{Filter, text, in_body, esc, bel, can, sub, index_byte, max_sequence, filter}
use mathlib.Core.Option.{some-injective}
use gosh.Osc52.Machine.{feed_body, emits, feed_in, feed, feed_all}
use gosh.Osc52.Machine.Rounds.{feed_at}
use gosh.Osc52.Machine.Refines.{filter-feed_all}

pub feed_all-append :
    (a b : Bytes) (f : Filter)
    → feed_all f (a ++ b) ≡ emits (feed_all (feed_all f a).0 b) (feed_all f a).1
unfolding feed_all
feed_all-append [] b f = refl
feed_all-append (c ∷ a) b f =
    let (f', out) = feed f c in
    ap (λ r. emits r out) (feed_all-append a b f')
    ∙ ap (λ o. ((feed_all (feed_all f' a).0 b).0, o)) (sym (append_assoc out _ _))

-- Input that comes in two pieces gives what it gives in one, wherever it is cut.
pub filter-append :
    (f g : Filter) (dst out a b : Bytes)
    → filter f dst a ≡ some (g, out)
    → filter f dst (a ++ b) ≡ filter g out b
filter-append f g dst out a b e =
    filter-feed_all f dst (a ++ b)
    ∙ ap (λ r. some (emits r dst)) (feed_all-append a b f)
    ∙ ap (λ o. some ((feed_all (feed_all f a).0 b).0, o)) (sym (append_assoc dst _ _))
    ∙ sym (filter-feed_all (feed_all f a).0 (dst ++ (feed_all f a).1) b)
    ∙ ap (λ r. filter r.0 r.1 b) (some-injective _ _ (sym (filter-feed_all f dst a) ∙ e))

abbrev pub IsFree : ℕ → Bytes → Type 0
IsFree x b = All (λ c. (c == x) ≡ false) b

pub feed_all-text :
    (src : Bytes) (f : Filter) → f.state ≡ text → IsFree esc src → feed_all f src ≡ (f, src)
unfolding feed_in
feed_all-text [] f t h = unfold feed_all in refl
feed_all-text (c ∷ src) f t (h, hs) =
    feed_at f c src t ∙ rw h (ap (λ r. emits r (c ∷ [])) (feed_all-text src f t hs))

pub index_byte-append :
    (a b : Bytes) (x : ℕ) → IsFree x a → index_byte (a ++ x ∷ b) x ≡ some (length a)
unfolding index_byte
index_byte-append [] b x h = ground arith
index_byte-append (c ∷ a) b x (h, hs) = rw (h, index_byte-append a b x hs)

-- A byte that neither ends nor aborts a sequence.
abbrev pub is_plain : ℕ → Bool
is_plain c = not (c == bel) && (not (c == esc) && not (c == can || c == sub))

abbrev pub IsPlain : Bytes → Type 0
IsPlain b = All (λ c. is_plain c ≡ true) b

pub feed_body-plain :
    (f : Filter) (c : ℕ)
    → f.dropping ≡ false
    → is_plain c ≡ true
    → length f.buf < max_sequence
    → feed_body f c ≡ (record f { buf = f.buf ++ c ∷ [] }, [])
unfolding feed_body
feed_body-plain f c d h n = ground arith

-- Plain bytes are held while the buffer has room for them.
pub feed_all-held :
    (b rest : Bytes) (f : Filter)
    → f.state ≡ in_body
    → f.dropping ≡ false
    → IsPlain b
    → length f.buf + length b ≤ max_sequence
    → feed_all f (b ++ rest) ≡ feed_all (record f { buf = f.buf ++ b }) rest
unfolding feed_in
feed_all-held [] rest f t d h n =
    ap (λ o. feed_all (record f { buf = o }) rest) (sym (append-nil f.buf))
feed_all-held (c ∷ b) rest f t d (h, hs) n =
    feed_at f c (b ++ rest) t
    ∙ rw (feed_body-plain f c d h (omega arith)) (
        feed_all-held b rest (record f { buf = f.buf ++ c ∷ [] }) t d hs
          (omega (arith, length-append f.buf (c ∷ []))))
    ∙ ap (λ o. feed_all (record f { buf = o }) rest) (append_assoc f.buf (c ∷ []) b)

-- In the text state, text with no ESC goes through at once, under every policy.
pub filter-text :
    (f : Filter) (dst src : Bytes)
    → f.state ≡ text
    → IsFree esc src
    → filter f dst src ≡ some (f, dst ++ src)
filter-text f dst src t h =
    filter-feed_all f dst src ∙ ap (λ r. some (emits r dst)) (feed_all-text src f t h)
