-- ===== src/Diff/Lcs/Longest.antt =====
-- No common subsequence is longer than the recursive length.
use state_wake.Base.{ℕ, suc, ◌≤◌, ◌≡◌, Bool, true, List, [], ◌∷◌, arith}
use state_wake.Diff.Lcs.Table.{lcs, lcs-nil}

module _ {ℓ} {A : Type ℓ} (eq : A → A → Bool) where
  -- The lists have a common subsequence of that length: keys are passed over on either side, and
  -- two equal keys are taken.
  pub data HasCommon : List A → List A → ℕ → Type ℓ where
    empty : {xs ys : List A} → HasCommon xs ys 0
    both :
        {x y : A} {xs ys : List A} {n : ℕ}
        → eq x y ≡ true
        → HasCommon xs ys n
        → HasCommon (x ∷ xs) (y ∷ ys) (suc n)
    pass_left : {x : A} {xs ys : List A} {n : ℕ} → HasCommon xs ys n → HasCommon (x ∷ xs) ys n
    pass_right : {y : A} {xs ys : List A} {n : ℕ} → HasCommon xs ys n → HasCommon xs (y ∷ ys) n

  -- One more key on the left loses nothing, and one more on the right gains one at most.
  lcs_grows :
      (xs ys : List A)
      → ((x : A) → lcs eq xs ys ≤ lcs eq (x ∷ xs) ys)
        × ((y : A) → lcs eq xs (y ∷ ys) ≤ suc (lcs eq xs ys))
  unfolding lcs
  lcs_grows [] [] = (λ x. omega arith, λ y. omega arith)
  lcs_grows [] (v ∷ ys) = (λ x. omega arith, λ y. omega arith)
  lcs_grows (u ∷ xs) [] =
      (λ x. omega arith, λ y. ground (arith, lcs-nil eq xs, (lcs_grows xs []).1 y))
  lcs_grows (u ∷ xs) (v ∷ ys) = (
    λ x. ground (arith, (lcs_grows (u ∷ xs) ys).1 v),
    λ y. ground (arith, (lcs_grows xs (v ∷ ys)).0 u, (lcs_grows xs (v ∷ ys)).1 y),
  )

  -- The same with the sides exchanged.
  lcs_grows_right :
      (xs ys : List A)
      → ((y : A) → lcs eq xs ys ≤ lcs eq xs (y ∷ ys))
        × ((x : A) → lcs eq (x ∷ xs) ys ≤ suc (lcs eq xs ys))
  unfolding lcs
  lcs_grows_right [] [] = (λ y. omega arith, λ x. omega arith)
  lcs_grows_right (u ∷ xs) [] = (λ y. ground arith, λ x. omega arith)
  lcs_grows_right [] (v ∷ ys) = (λ y. omega arith, λ x. ground (arith, (lcs_grows_right [] ys).1 x))
  lcs_grows_right (u ∷ xs) (v ∷ ys) = (
    λ y. ground (arith, (lcs_grows_right xs (v ∷ ys)).1 u),
    λ x. ground (arith, (lcs_grows_right (u ∷ xs) ys).0 v, (lcs_grows_right (u ∷ xs) ys).1 x),
  )

  pub HasCommon-le : {xs ys : List A} {n : ℕ} → HasCommon xs ys n → n ≤ lcs eq xs ys
  unfolding lcs
  HasCommon-le empty = omega arith
  HasCommon-le (both {x} {y} {xs} {ys} e p) = ground (arith, HasCommon-le p)
  HasCommon-le (pass_left {x} {xs} {ys} p) = ground (arith, HasCommon-le p, (lcs_grows xs ys).0 x)
  HasCommon-le (pass_right {y} {xs} {ys} p) =
      ground (arith, HasCommon-le p, (lcs_grows_right xs ys).0 y)
