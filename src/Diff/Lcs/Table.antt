-- ===== src/Diff/Lcs/Table.antt =====
-- The table holds the lengths of the recursive definition.
use state_wake.Base.{
  ℕ, zero, suc, ◌+◌, max, ◌≡◌, refl, ◌∙◌, Bool, List, [], ◌∷◌, drop, if◌then◌else◌,
}
use state_wake.Diff.Lcs.{cell, lookup, tail_row, first_row, zeros, fill_row, table}

module _ {ℓ} {A : Type ℓ} (eq : A → A → Bool) where
  -- the length of a longest common subsequence, by recursion
  unfoldable pub lcs : List A → List A → ℕ
  lcs [] ys = 0
  lcs (x ∷ xs) [] = 0
  lcs (x ∷ xs) (y ∷ ys) =
      let skip_left = lcs xs (y ∷ ys) in
      let skip_right = lcs (x ∷ xs) ys in if eq x y then 1 + lcs xs ys else max skip_left skip_right

  pub lcs-nil : (xs : List A) → lcs xs [] ≡ 0
  unfolding lcs
  lcs-nil [] = refl
  lcs-nil (x ∷ xs) = refl

  cell-zeros : (ys : List A) (b : ℕ) → cell (zeros ys) b ≡ 0
  unfolding cell zeros
  cell-zeros [] zero = refl
  cell-zeros [] (suc b) = refl
  cell-zeros (y ∷ ys) zero = refl
  cell-zeros (y ∷ ys) (suc b) = cell-zeros ys b

  cell-tail_row : (row : List ℕ) (b : ℕ) → cell (tail_row row) b ≡ cell row (suc b)
  unfolding cell
  cell-tail_row [] b = refl
  cell-tail_row (n ∷ row) b = refl

  fill_row-lcs :
      (x : A) (xs ys : List A) (below : List ℕ)
      → ((b : ℕ) → cell below b ≡ lcs xs (drop b ys))
      → (b : ℕ) → cell (fill_row eq x ys below) b ≡ lcs (x ∷ xs) (drop b ys)
  unfolding cell fill_row lcs
  fill_row-lcs x xs [] below h zero = refl
  fill_row-lcs x xs [] below h (suc b) = refl
  fill_row-lcs x xs (y ∷ ys) below h zero =
      let rest = fill_row-lcs x xs ys (tail_row below) (λ b. cell-tail_row below b ∙ h (suc b)) 0 in
      rw (h 0, h 1, rest) refl
  fill_row-lcs x xs (y ∷ ys) below h (suc b) =
      fill_row-lcs x xs ys (tail_row below) (λ c. cell-tail_row below c ∙ h (suc c)) b

  first_row-cell : (t : List (List ℕ)) (b : ℕ) → cell (first_row t) b ≡ lookup t 0 b
  unfolding cell lookup
  first_row-cell [] b = refl
  first_row-cell (row ∷ rows) b = refl

  -- The table at (a, b) is the length for what is left from there.
  pub lookup-table :
      (xs ys : List A) (a b : ℕ) → lookup (table eq xs ys) a b ≡ lcs (drop a xs) (drop b ys)
  unfolding lookup table lcs
  lookup-table [] ys zero b = cell-zeros ys b
  lookup-table [] ys (suc a) b = refl
  lookup-table (x ∷ xs) ys zero b =
      fill_row-lcs x xs ys (first_row (table eq xs ys))
        (λ c. first_row-cell (table eq xs ys) c ∙ lookup-table xs ys 0 c) b
  lookup-table (x ∷ xs) ys (suc a) b = lookup-table xs ys a b
