-- ===== src/Diff/Lcs.antt =====
-- The longest common subsequence of two sequences of keys: `_lcs_matches` of
-- src/statewake/domain/diff.py. A row of the table is a list, the table a list of rows from the top.
pub mod Table
pub mod Walk
pub mod Longest
use state_wake.Base.{ℕ, zero, suc, ◌+◌, max, Bool, true, false, List, [], ◌∷◌, leb, if◌then◌else◌}

-- `row[i]`, which the code reads inside the row only
unfoldable pub cell : List ℕ → ℕ → ℕ
cell [] i = 0
cell (n ∷ row) zero = n
cell (n ∷ row) (suc i) = cell row i

-- `lengths[i][j]`
unfoldable pub lookup : List (List ℕ) → ℕ → ℕ → ℕ
unfolding cell
lookup [] i j = 0
lookup (row ∷ table) zero j = cell row j
lookup (row ∷ table) (suc i) j = lookup table i j

-- `row[1:]`
abbrev pub tail_row : List ℕ → List ℕ
tail_row [] = []
tail_row (n ∷ row) = row

-- the top row, which every table has
abbrev pub first_row : List (List ℕ) → List ℕ
first_row [] = []
first_row (row ∷ rows) = row

-- `[0] * columns`
unfoldable pub zeros {ℓ} : {A : Type ℓ} → List A → List ℕ
zeros [] = 0 ∷ []
zeros (y ∷ ys) = 0 ∷ zeros ys

module _ {ℓ} {A : Type ℓ} (eq : A → A → Bool) where
  -- the inner loop for one key on the left, from the row below; it goes from the right
  unfoldable pub fill_row : A → List A → List ℕ → List ℕ
  unfolding cell
  fill_row x [] below = 0 ∷ []
  fill_row x (y ∷ ys) below =
      let rest = fill_row x ys (tail_row below) in
      (if eq x y then 1 + cell below 1 else max (cell below 0) (cell rest 0)) ∷ rest

  -- the outer loop, from the bottom
  unfoldable pub table : List A → List A → List (List ℕ)
  unfolding fill_row zeros
  table [] ys = zeros ys ∷ []
  table (x ∷ xs) ys = let below = table xs ys in fill_row x ys (first_row below) ∷ below

  -- the `while` loop at (i, j), the lists being what is left from there
  unfoldable pub walk : List (List ℕ) → ℕ → ℕ → List A → List A → List (ℕ × ℕ)
  walk lengths i j [] ys = []
  walk lengths i j (x ∷ xs) [] = []
  walk lengths i j (x ∷ xs) (y ∷ ys) = elim (eq x y) [
    | true ↦ (i, j) ∷ walk lengths (i + 1) (j + 1) xs ys
    | false ↦ elim (leb (lookup lengths i (j + 1)) (lookup lengths (i + 1) j)) [
      | true ↦ walk lengths (i + 1) j xs (y ∷ ys)
      | false ↦ walk lengths i (j + 1) (x ∷ xs) ys
    ]
  ]

  unfoldable pub lcs_matches : List A → List A → List (ℕ × ℕ)
  unfolding table walk
  lcs_matches left right = walk (table left right) 0 0 left right
