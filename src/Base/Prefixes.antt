-- ===== src/Base/Prefixes.antt =====
-- Lists of which one begins another. It models no part of the program.
use Prim.Native.Nat.{ℕ, zero, suc, ◌≤◌}
use native.Mathlib.Omega.{arith}
use mathlib.Core.Option.{some}
use mathlib.Core.Path.{◌≡◌, refl, ap, ◌∙◌}
use mathlib.Core.List.{List, [], ◌∷◌, ◌++◌, append_assoc}
use gosh.Base.Lists.{length, drop, get_elem?, drop-append_length}

abbrev pub IsPrefix {ℓ} : {A : Type ℓ} → List A → List A → Type ℓ
IsPrefix {A} a b = (rest : List A) × (b ≡ a ++ rest)

module _ {ℓ} {A : Type ℓ} where
  pub IsPrefix-nil : (b : List A) → IsPrefix [] b
  IsPrefix-nil b = (b, refl)

  pub IsPrefix-refl : (a : List A) → IsPrefix a a
  IsPrefix-refl a = ([], refl ∙ sym_nil a)
    where
      sym_nil : (a : List A) → a ≡ a ++ []
      sym_nil [] = refl
      sym_nil (x ∷ a) = ap (◌∷◌ x) (sym_nil a)

  pub IsPrefix-append : (a b c : List A) → IsPrefix a b → IsPrefix a (b ++ c)
  IsPrefix-append a b c (rest, e) = (rest ++ c, ap (λ l. l ++ c) e ∙ append_assoc a rest c)

  pub IsPrefix-drop : (n : ℕ) (a b : List A) → IsPrefix a b → IsPrefix (drop n a) (drop n b)
  IsPrefix-drop n a b (rest, e) = let (r, f) = dropped n a rest in (r, ap (drop n) e ∙ f)
    where
      dropped : (n : ℕ) (a rest : List A) → IsPrefix (drop n a) (drop n (a ++ rest))
      dropped zero a rest = (rest, refl)
      dropped (suc n) [] rest = (drop (suc n) rest, refl)
      dropped (suc n) (x ∷ a) rest = dropped n a rest

  -- What a prefix leaves is what dropping its length leaves.
  pub append-drop_prefix : (a b : List A) → IsPrefix a b → a ++ drop (length a) b ≡ b
  append-drop_prefix a b (rest, e) = rw e (ap (λ l. a ++ l) (drop-append_length a rest))

module _ {ℓ} {A : Type ℓ} where
  -- What stands in a list stands there in a longer one.
  pub get_elem?-append :
      (xs ys : List A) (n : ℕ) {v : A} → get_elem? xs n ≡ some v → get_elem? (xs ++ ys) n ≡ some v
  get_elem?-append [] ys n e = absurd cc
  get_elem?-append (x ∷ xs) ys zero e = e
  get_elem?-append (x ∷ xs) ys (suc n) e = get_elem?-append xs ys n e

  pub get_elem?-snoc : (xs : List A) (v : A) → get_elem? (xs ++ v ∷ []) (length xs) ≡ some v
  get_elem?-snoc [] v = refl
  get_elem?-snoc (x ∷ xs) v = get_elem?-snoc xs v

  pub drop-snoc :
      (n : ℕ) (xs : List A) (v : A) → n ≤ length xs → drop n (xs ++ v ∷ []) ≡ drop n xs ++ v ∷ []
  drop-snoc zero xs v h = refl
  drop-snoc (suc n) [] v h = absurd (omega arith)
  drop-snoc (suc n) (x ∷ xs) v h = drop-snoc n xs v (omega arith)
