-- ===== src/Bootstrap/Lines.antt =====
-- internal/bootstrap/hostkey.go: the lines of known_hosts behind which `acceptNew` appends.
use gosh.Base.{
  ◌≢◌, ℕ, List, [], ◌∷◌, ◌++◌, Bytes, equal_refl, append_assoc, none, some, ok, err, All,
  All-append, true, false, ◌==◌, if◌then◌else◌, ◌≡◌, refl, sym, ap, ◌∙◌, arith, Bool-cases, inl,
  inr,
}
use gosh.Bootstrap.KnownHosts.{PublicKey, key_error, Verify, KnownHosts}
use gosh.Bootstrap.HostKeys.{Os, Files, accept_new, known_hosts_entry}

abbrev onto_first : ℕ → List Bytes → List Bytes
onto_first c [] = (c ∷ []) ∷ []
onto_first c (line ∷ rest) = (c ∷ line) ∷ rest

-- The lines of a text; what follows the last newline is a line where it is not empty.
unfoldable pub lines : Bytes → List Bytes
lines [] = []
lines (c ∷ cs) = let rest = lines cs in if c == 10 then [] ∷ rest else onto_first c rest

-- A text that is empty or ends in a newline.
abbrev pub EndsLine : Bytes → Type 0
EndsLine [] = Unit {0}
EndsLine (c ∷ []) = c ≡ 10
EndsLine (c ∷ d ∷ cs) = EndsLine (d ∷ cs)

abbrev pub HasNoNewline : Bytes → Type 0
HasNoNewline b = All (λ c. c ≢ 10) b

lines-one : (line : Bytes) → HasNoNewline line → lines (line ++ (10 ∷ [])) ≡ line ∷ []
unfolding lines
lines-one [] h = refl
lines-one (c ∷ line) (h, hs) =
    let other : (c == 10) ≡ false = ground arith in rw other (ap (onto_first c) (lines-one line hs))

onto_first-append :
    (c d : ℕ) (front : Bytes) (rest : List Bytes)
    → onto_first c (lines (d ∷ front) ++ rest) ≡ onto_first c (lines (d ∷ front)) ++ rest
unfolding lines
onto_first-append c d front rest = elim (Bool-cases (d == 10)) [
  | inl e ↦ rw e refl
  | inr e ↦ rw e (by_first (lines front))
]
  where
    by_first :
        (l : List Bytes)
        → onto_first c (onto_first d l ++ rest) ≡ onto_first c (onto_first d l) ++ rest
    by_first [] = refl
    by_first (line ∷ more) = refl

lines-append :
    (front tail : Bytes) → EndsLine front → lines (front ++ tail) ≡ lines front ++ lines tail
unfolding lines
lines-append [] tail h = refl
lines-append (c ∷ []) tail h = rw h refl
lines-append (c ∷ d ∷ front) tail h = elim (Bool-cases (c == 10)) [
  | inl e ↦ rw e (ap (◌∷◌ []) (lines-append (d ∷ front) tail h))
  | inr e ↦ rw e (
      ap (onto_first c) (lines-append (d ∷ front) tail h)
      ∙ onto_first-append c d front (lines tail))
]

lines-entry :
    (front last entry : Bytes)
    → EndsLine front
    → HasNoNewline last
    → HasNoNewline entry
    → lines ((front ++ last) ++ (entry ++ 10 ∷ [])) ≡ lines front ++ (last ++ entry) ∷ []
lines-entry front last entry h l e =
    ap lines (append_assoc front last (entry ++ 10 ∷ []))
    ∙ ap (λ t. lines (front ++ t)) (sym (append_assoc last entry (10 ∷ [])))
    ∙ lines-append front ((last ++ entry) ++ 10 ∷ []) h
    ∙ ap (λ t. lines front ++ t)
        (lines-one (last ++ entry) (All-append (λ c. c ≢ 10) last entry l e))

-- Where the host is not known and the file is written, the file's lines before its unfinished last
-- line stay, and behind them stands one line: that last line, empty where the file ends in a newline,
-- with the entry of the key right behind it.
pub accept_new-lines :
    (os : Os) (known : KnownHosts) (encode : Bytes → Bytes) (verify : Verify) (files : Files)
    (path front last hostname remote : Bytes) (key : PublicKey)
    → verify hostname remote key ≡ err (key_error [])
    → files path ≡ some (front ++ last)
    → EndsLine front
    → HasNoNewline last
    → HasNoNewline (known_hosts_entry known encode hostname key)
    → os.opens path ≡ true
    → os.writes (known_hosts_entry known encode hostname key ++ 10 ∷ []) ≡ none
    → ((accept_new os known encode verify path files hostname remote key).1 ≡ ok tt)
      × ((content : Bytes) × ((accept_new os known encode verify path files hostname remote key).0
              path
            ≡ some content)
          × (lines content
              ≡ lines front ++ (last ++ known_hosts_entry known encode hostname key) ∷ []))
unfolding accept_new
accept_new-lines os known encode verify files path front last hostname remote key v f ends l n o w =
    let entry = known_hosts_entry known encode hostname key in
    rw (v, f, o, w, equal_refl path)
      (refl, ((front ++ last) ++ (entry ++ 10 ∷ []), refl, lines-entry front last entry ends l n))
