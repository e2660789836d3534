-- ===== src/Bootstrap/Quoting.antt =====
-- internal/bootstrap/bootstrap.go: what a POSIX shell reads in what `shellQuote` puts out.
use gosh.Base.{
  ℕ, [], ◌∷◌, ◌++◌, Bytes, equal, append_assoc, append-nil, Bool, true, false, ◌==◌, ◌||◌,
  if◌then◌else◌, Bool-cases, ==_iff, ◌≡◌, inl, inr, refl, sym, ap, ◌∙◌, arith,
}
use gosh.Bootstrap.Command.{quoted_chars, has_char, contains_any, escape_quotes, shell_quote}
use gosh.Bootstrap.Shell.{gap, word, quoted, sh_special, enter, words_from}

-- Every one of the first characters is one of the second.
abbrev Covers : Bytes → Bytes → Type 0
Covers [] chars = Unit {0}
Covers (d ∷ ds) chars = (has_char chars d ≡ true) × Covers ds chars

has_char-Covers :
    (ds chars : Bytes) (c : ℕ) → Covers ds chars → has_char chars c ≡ false → has_char ds c ≡ false
unfolding has_char
has_char-Covers [] chars c k h = refl
has_char-Covers (d ∷ ds) chars c (k, ks) h = elim (Bool-cases (d == c)) [
  | inl e ↦ absurd (not_both (ap (has_char chars) (sym ((==_iff d c).0 e)) ∙ k) h)
  | inr e ↦ rw e (has_char-Covers ds chars c ks h)
]
  where
    not_both : {b : Bool} → b ≡ true → b ≡ false → ⊥
    not_both p q = cc

sh_special-Covers : Covers sh_special quoted_chars
unfolding has_char
sh_special-Covers = ground arith

special_or_plain :
    (d c : ℕ) → has_char quoted_chars d ≡ true → has_char quoted_chars c ≡ false → (c == d) ≡ false
special_or_plain d c k h = elim (Bool-cases (c == d)) [
  | inl e ↦ absurd (apart (ap (has_char quoted_chars) ((==_iff c d).0 e) ∙ k) h)
  | inr e ↦ e
]
  where
    apart : {b : Bool} → b ≡ true → b ≡ false → ⊥
    apart p q = cc

-- The characters that the reader looks at first are all among those that are quoted.
space_quoted : has_char quoted_chars b' ' ≡ true
unfolding has_char
space_quoted = refl

quote_quoted : has_char quoted_chars b'\'' ≡ true
unfolding has_char
quote_quoted = refl

backslash_quoted : has_char quoted_chars b'\\' ≡ true
unfolding has_char
backslash_quoted = refl

enter-plain :
    (acc : Bytes) (c : ℕ) → has_char quoted_chars c ≡ false → enter acc c ≡ word (acc ++ c ∷ [])
enter-plain acc c h =
    rw
      (
        special_or_plain b'\'' c quote_quoted h,
        special_or_plain b'\\' c backslash_quoted h,
        has_char-Covers sh_special quoted_chars c sh_special-Covers h,
      )
      refl

-- A character of no special meaning, in a word and before one.
word-plain :
    (acc : Bytes) (c : ℕ) (rest : Bytes)
    → has_char quoted_chars c ≡ false
    → words_from (word acc) (c ∷ rest) ≡ words_from (word (acc ++ c ∷ [])) rest
unfolding words_from
word-plain acc c rest h =
    rw (special_or_plain b' ' c space_quoted h) (ap (λ m. words_from m rest) (enter-plain acc c h))

gap-plain :
    (c : ℕ) (rest : Bytes)
    → has_char quoted_chars c ≡ false
    → words_from gap (c ∷ rest) ≡ words_from (word (c ∷ [])) rest
unfolding words_from
gap-plain c rest h =
    ap (λ t. words_from (if t then gap else enter [] c) rest)
      (special_or_plain b' ' c space_quoted h)
    ∙ ap (λ m. words_from m rest) (enter-plain [] c h)

or_false : {a b : Bool} → (a || b) ≡ false → (a ≡ false) × (b ≡ false)
or_false {a} {b} = by_cases a b
  where
    by_cases : (a b : Bool) → (a || b) ≡ false → (a ≡ false) × (b ≡ false)
    by_cases false b h = (refl, h)
    by_cases true b h = absurd cc

word-plain_text :
    (acc s rest : Bytes)
    → contains_any s quoted_chars ≡ false
    → words_from (word acc) (s ++ rest) ≡ words_from (word (acc ++ s)) rest
unfolding contains_any
word-plain_text acc [] rest h = ap (λ a. words_from (word a) rest) (sym (append-nil acc))
word-plain_text acc (c ∷ s) rest h =
    let (first, more) = or_false h in
    word-plain acc c (s ++ rest) first
    ∙ word-plain_text (acc ++ c ∷ []) s rest more
    ∙ ap (λ a. words_from (word a) rest) (append_assoc acc (c ∷ []) s)

-- A text with its quotes escaped, inside quotes, up to the quote that ends them.
quoted-escape_quotes :
    (acc s rest : Bytes)
    → words_from (quoted acc) (escape_quotes s ++ (b'\'' ∷ rest))
      ≡ words_from (word (acc ++ s)) rest
unfolding escape_quotes words_from
quoted-escape_quotes acc [] rest = ap (λ a. words_from (word a) rest) (sym (append-nil acc))
quoted-escape_quotes acc (c ∷ s) rest = elim (Bool-cases (c == b'\'')) [
  | inl e ↦ rw e (
      quoted-escape_quotes (acc ++ b'\'' ∷ []) s rest
      ∙ ap (λ a. words_from (word a) rest) (append_assoc acc (b'\'' ∷ []) s)
      ∙ ap (λ d. words_from (word (acc ++ d ∷ s)) rest) (sym ((==_iff c b'\'').0 e)))
  | inr e ↦ rw e (
      ap
        (λ t.
          words_from (if t then word acc else quoted (acc ++ c ∷ []))
            (escape_quotes s ++ (b'\'' ∷ rest)))
        e
      ∙ quoted-escape_quotes (acc ++ c ∷ []) s rest
      ∙ ap (λ a. words_from (word a) rest) (append_assoc acc (c ∷ []) s))
]

-- A part of a command line that the reader takes for a word.
abbrev pub Denotes : Bytes → Bytes → Type 0
Denotes part w = (rest : Bytes) → words_from gap (part ++ rest) ≡ words_from (word w) rest

pub Denotes-plain :
    (c : ℕ) (s : Bytes) → contains_any (c ∷ s) quoted_chars ≡ false → Denotes (c ∷ s) (c ∷ s)
unfolding contains_any
Denotes-plain c s h rest =
    let (first, more) = or_false h in
    gap-plain c (s ++ rest) first ∙ word-plain_text (c ∷ []) s rest more

shell_quote-plain :
    (c : ℕ) (s : Bytes) → contains_any (c ∷ s) quoted_chars ≡ false → shell_quote (c ∷ s) ≡ c ∷ s
unfolding shell_quote equal
shell_quote-plain c s e = rw e refl

shell_quote-quoted :
    (c : ℕ) (s : Bytes)
    → contains_any (c ∷ s) quoted_chars ≡ true
    → shell_quote (c ∷ s) ≡ b'\'' ∷ (escape_quotes (c ∷ s) ++ b'\'' ∷ [])
unfolding shell_quote equal
shell_quote-quoted c s e = rw e refl

-- Quotes at the start of a word, and in one.
gap-quoted :
    (s rest : Bytes)
    → words_from gap ((b'\'' ∷ (escape_quotes s ++ b'\'' ∷ [])) ++ rest) ≡ words_from (word s) rest
unfolding words_from
gap-quoted s rest =
    ap (words_from (quoted [])) (append_assoc (escape_quotes s) (b'\'' ∷ []) rest)
    ∙ quoted-escape_quotes [] s rest

word-quoted :
    (acc s rest : Bytes)
    → words_from (word acc) ((b'\'' ∷ (escape_quotes s ++ b'\'' ∷ [])) ++ rest)
      ≡ words_from (word (acc ++ s)) rest
unfolding words_from
word-quoted acc s rest =
    ap (words_from (quoted acc)) (append_assoc (escape_quotes s) (b'\'' ∷ []) rest)
    ∙ quoted-escape_quotes acc s rest

Denotes-empty : Denotes (shell_quote []) []
unfolding shell_quote words_from equal
Denotes-empty rest = refl

pub Denotes-shell_quote : (s : Bytes) → Denotes (shell_quote s) s
Denotes-shell_quote [] = Denotes-empty
Denotes-shell_quote (c ∷ s) = λ rest. elim (Bool-cases (contains_any (c ∷ s) quoted_chars)) [
  | inl e ↦
      ap (λ q. words_from gap (q ++ rest)) (shell_quote-quoted c s e) ∙ gap-quoted (c ∷ s) rest
  | inr e ↦
      ap (λ q. words_from gap (q ++ rest)) (shell_quote-plain c s e) ∙ Denotes-plain c s e rest
]

-- A quoted text behind the beginning of its word.
word-empty :
    (acc rest : Bytes) → words_from (word acc) (shell_quote [] ++ rest) ≡ words_from (word acc) rest
unfolding shell_quote words_from equal
word-empty acc rest = refl

word-shell_quote :
    (acc s rest : Bytes)
    → words_from (word acc) (shell_quote s ++ rest) ≡ words_from (word (acc ++ s)) rest
word-shell_quote acc [] rest =
    word-empty acc rest ∙ ap (λ a. words_from (word a) rest) (sym (append-nil acc))
word-shell_quote acc (c ∷ s) rest = elim (Bool-cases (contains_any (c ∷ s) quoted_chars)) [
  | inl e ↦
      ap (λ q. words_from (word acc) (q ++ rest)) (shell_quote-quoted c s e)
      ∙ word-quoted acc (c ∷ s) rest
  | inr e ↦
      ap (λ q. words_from (word acc) (q ++ rest)) (shell_quote-plain c s e)
      ∙ word-plain_text acc (c ∷ s) rest e
]

pub Denotes-prefix : (p w s : Bytes) → Denotes p w → Denotes (p ++ shell_quote s) (w ++ s)
Denotes-prefix p w s d rest =
    ap (words_from gap) (append_assoc p (shell_quote s) rest)
    ∙ d (shell_quote s ++ rest)
    ∙ word-shell_quote w s rest
