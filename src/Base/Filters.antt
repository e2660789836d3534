-- ===== src/Base/Filters.antt =====
-- Lists kept by a Boolean test, and lists in the order of a rank.
use Prim.Native.Nat.{ℕ, zero, suc, ◌<◌, ◌≤◌}
use mathlib.Core.Path.{◌≡◌, refl, ap, sym, subst, ◌∙◌}
use mathlib.Core.Bool.{Bool, false, ◌||◌}
use mathlib.Core.Logic.{inl, inr}
use mathlib.Core.List.{List, [], ◌∷◌, ◌++◌, append-nil}
use native.Mathlib.Omega.{arith}
use gosh.Base.Lists.{All, Bytes, equal}
use gosh.Base.Tests.{◌==◌, if◌then◌else◌, ==_iff, Bool-cases}

-- Whether a text is one of a list.
unfoldable pub mem : Bytes → List Bytes → Bool
mem a [] = false
mem a (b ∷ bs) = equal a b || mem a bs

module _ {ℓ} {A : Type ℓ} where
  unfoldable pub select : (A → Bool) → List A → List A
  select p [] = []
  select p (x ∷ xs) = let rest = select p xs in if p x then x ∷ rest else rest

  pub select-append :
      (p : A → Bool) (xs ys : List A) → select p (xs ++ ys) ≡ select p xs ++ select p ys
  unfolding select
  select-append p [] ys = refl
  select-append p (x ∷ xs) ys = elim (Bool-cases (p x)) [
    | inl e ↦ rw e (ap (◌∷◌ x) (select-append p xs ys))
    | inr e ↦ rw e (select-append p xs ys)
  ]

  -- The elements of a list by a rank.
  abbrev pub ranked : (A → ℕ) → ℕ → List A → List A
  ranked rank r = select (λ x. rank x == r)

  pub ranked-All : (rank : A → ℕ) (r : ℕ) (xs : List A) → All (λ x. rank x ≡ r) (ranked rank r xs)
  unfolding select
  ranked-All rank r [] = tt
  ranked-All rank r (x ∷ xs) = elim (Bool-cases (rank x == r)) [
    | inl e ↦ rw e ((==_iff (rank x) r).0 e, ranked-All rank r xs)
    | inr e ↦ rw e (ranked-All rank r xs)
  ]

  -- The elements of one rank, of a list whose elements have one.
  pub ranked-same :
      (rank : A → ℕ) (r : ℕ) (xs : List A) → All (λ x. rank x ≡ r) xs → ranked rank r xs ≡ xs
  unfolding select
  ranked-same rank r [] h = refl
  ranked-same rank r (x ∷ xs) (h, hs) =
      rw ((==_iff (rank x) r).1 h) (ap (◌∷◌ x) (ranked-same rank r xs hs))

  pub ranked-other :
      (rank : A → ℕ) (r s : ℕ) (xs : List A)
      → ¬ (r ≡ s)
      → All (λ x. rank x ≡ r) xs
      → ranked rank s xs ≡ []
  unfolding select
  ranked-other rank r s [] d h = refl
  ranked-other rank r s (x ∷ xs) d (h, hs) = elim (Bool-cases (rank x == s)) [
    | inl e ↦ absurd (d (sym h ∙ (==_iff (rank x) s).0 e))
    | inr e ↦ rw e (ranked-other rank r s xs d hs)
  ]

  abbrev pub AllLe : (A → ℕ) → ℕ → List A → Type 0
  AllLe rank r [] = Unit {0}
  AllLe rank r (x ∷ xs) = (r ≤ rank x) × AllLe rank r xs

  -- Each element's rank is at most those behind it.
  abbrev pub IsSorted : (A → ℕ) → List A → Type 0
  IsSorted rank [] = Unit {0}
  IsSorted rank (x ∷ xs) = AllLe rank (rank x) xs × IsSorted rank xs

  pub AllLe_le : (rank : A → ℕ) (r s : ℕ) (xs : List A) → r ≤ s → AllLe rank s xs → AllLe rank r xs
  AllLe_le rank r s [] h k = tt
  AllLe_le rank r s (x ∷ xs) h (k, ks) = (omega arith, AllLe_le rank r s xs h ks)

  -- Elements of one rank go before a list of no smaller ones.
  pub IsSorted-append :
      (rank : A → ℕ) (r : ℕ) (xs ys : List A)
      → All (λ x. rank x ≡ r) xs
      → AllLe rank r ys
      → IsSorted rank ys
      → IsSorted rank (xs ++ ys) × AllLe rank r (xs ++ ys)
  IsSorted-append rank r [] ys h b k = (k, b)
  IsSorted-append rank r (x ∷ xs) ys (h, hs) b k =
      let (sorted, bound) = IsSorted-append rank r xs ys hs b k in
      ((AllLe_le rank (rank x) r (xs ++ ys) (omega arith) bound, sorted), (omega arith, bound))

  -- The elements of four ranks, in the order of the ranks.
  abbrev pub four_ranks : (A → ℕ) → List A → List A
  four_ranks rank xs =
      ranked rank 0 xs ++ (ranked rank 1 xs ++ (ranked rank 2 xs ++ ranked rank 3 xs))

  IsSorted-ranked :
      (rank : A → ℕ) (r : ℕ) (xs : List A)
      → IsSorted rank (ranked rank r xs) × AllLe rank r (ranked rank r xs)
  IsSorted-ranked rank r xs =
      subst (λ l. IsSorted rank l × AllLe rank r l) (append-nil (ranked rank r xs))
        (IsSorted-append rank r (ranked rank r xs) [] (ranked-All rank r xs) tt tt)

  before :
      (rank : A → ℕ) (r : ℕ) (xs ys : List A)
      → IsSorted rank ys × AllLe rank (suc r) ys
      → IsSorted rank (ranked rank r xs ++ ys) × AllLe rank r (ranked rank r xs ++ ys)
  before rank r xs ys (k, b) =
      IsSorted-append rank r (ranked rank r xs) ys (ranked-All rank r xs)
        (AllLe_le rank r (suc r) ys (omega arith) b) k

  pub four_ranks-IsSorted : (rank : A → ℕ) (xs : List A) → IsSorted rank (four_ranks rank xs)
  four_ranks-IsSorted rank xs =
      (before rank 0 xs _ (before rank 1 xs _ (before rank 2 xs _ (IsSorted-ranked rank 3 xs)))).0

  ranked-none :
      (rank : A → ℕ) (r : ℕ) (xs : List A) → ((x : A) → rank x < r) → ranked rank r xs ≡ []
  unfolding select
  ranked-none rank r [] h = refl
  ranked-none rank r (x ∷ xs) h =
      let other : (rank x == r) ≡ false = ground (arith, h x) in rw other (ranked-none rank r xs h)

  ranked-ranked :
      (rank : A → ℕ) (r s : ℕ) (xs : List A)
      → ranked rank r (ranked rank s xs) ≡ (if s == r then ranked rank r xs else [])
  ranked-ranked rank r s xs = elim (Bool-cases (s == r)) [
    | inl e ↦
        let same = (==_iff s r).0 e in
        rw e (
          subst (λ t. ranked rank t (ranked rank s xs) ≡ ranked rank t xs) same
            (ranked-same rank s (ranked rank s xs) (ranked-All rank s xs)))
    | inr e ↦
        let other : ¬ (s ≡ r) = ground arith in
        rw e (ranked-other rank s r (ranked rank s xs) other (ranked-All rank s xs))
  ]

  split_four :
      (rank : A → ℕ) (r : ℕ) (xs : List A)
      → ranked rank r (four_ranks rank xs)
        ≡ (if 0 == r then ranked rank r xs else [])
          ++ ((if 1 == r then ranked rank r xs else [])
              ++ ((if 2 == r then ranked rank r xs else [])
                  ++ (if 3 == r then ranked rank r xs else [])))
  split_four rank r xs =
      select-append _ (ranked rank 0 xs) _
      ∙ ap (λ l. ranked rank r (ranked rank 0 xs) ++ l) (select-append _ (ranked rank 1 xs) _)
      ∙ ap (λ l. ranked rank r (ranked rank 0 xs) ++ (ranked rank r (ranked rank 1 xs) ++ l))
          (select-append _ (ranked rank 2 xs) _)
      ∙ (λ j.
          ranked-ranked rank r 0 xs j
          ++ (ranked-ranked rank r 1 xs j
              ++ (ranked-ranked rank r 2 xs j ++ ranked-ranked rank r 3 xs j)))

  pub ranked-four_ranks :
      (rank : A → ℕ)
      → ((x : A) → rank x < 4)
      → (r : ℕ) (xs : List A) → ranked rank r (four_ranks rank xs) ≡ ranked rank r xs
  ranked-four_ranks rank h zero xs = split_four rank 0 xs ∙ append-nil (ranked rank 0 xs)
  ranked-four_ranks rank h (suc zero) xs = split_four rank 1 xs ∙ append-nil (ranked rank 1 xs)
  ranked-four_ranks rank h (suc (suc zero)) xs =
      split_four rank 2 xs ∙ append-nil (ranked rank 2 xs)
  ranked-four_ranks rank h (suc (suc (suc zero))) xs = split_four rank 3 xs
  ranked-four_ranks rank h (suc (suc (suc (suc r)))) xs =
      let n = suc (suc (suc (suc r))) in
      let apart : ((0 == n) ≡ false)
          × ((1 == n) ≡ false)
          × ((2 == n) ≡ false)
          × ((3 == n) ≡ false) =
        (ground arith, ground arith, ground arith, ground arith) in
      split_four rank n xs
      ∙ rw (apart.0, apart.1, apart.2, apart.3)
          (sym (ranked-none rank n xs (λ x. omega (arith, h x))))
