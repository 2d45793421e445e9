-- ===== src/Diff/Lcs/Walk.antt =====
-- The matches are common subsequences of the recursive length.
use state_wake.Base.{
  inr, inl, ℕ, suc, ◌+◌, ◌≤◌, ◌<◌, ◌≡◌, refl, sym, subst, Bool, true, false, some, List, [], ◌∷◌,
  drop, get_elem?, drop-cons, length, leb, arith, Bool-cases,
}
use state_wake.Diff.Lcs.{lookup, table, walk, lcs_matches}
use state_wake.Diff.Lcs.Table.{lcs, lcs-nil, lookup-table}
use state_wake.Diff.Lcs.Longest.{HasCommon, HasCommon-le}

-- From two positions on, the matches go up on both sides, and are inside both lengths.
abbrev pub IsIncreasing : ℕ → ℕ → ℕ → ℕ → List (ℕ × ℕ) → Type 0
IsIncreasing i j m n [] = Unit
IsIncreasing i j m n ((a, b) ∷ rest) =
    (i ≤ a) × (j ≤ b) × (a < m) × (b < n) × IsIncreasing (a + 1) (b + 1) m n rest

module _ {ℓ} {A : Type ℓ} (eq : A → A → Bool) where
  -- at each match, both lists have a key, and the keys are equal
  abbrev pub AreEqualAt : List A → List A → List (ℕ × ℕ) → Type ℓ
  AreEqualAt xs ys [] = Unit
  AreEqualAt xs ys ((a, b) ∷ rest) =
      ((x y : A) × (get_elem? xs a ≡ some x) × (get_elem? ys b ≡ some y) × (eq x y ≡ true))
      × AreEqualAt xs ys rest

  -- the table holds the lengths for what is left from (i, j)
  abbrev IsTable : List (List ℕ) → ℕ → ℕ → List A → List A → Type 0
  IsTable t i j xs ys = (a b : ℕ) → lookup t (i + a) (j + b) ≡ lcs eq (drop a xs) (drop b ys)

  -- one key further on the left, and one on the right
  IsTable-left :
      (t : List (List ℕ)) (i j : ℕ) (x : A) (xs ys : List A)
      → IsTable t i j (x ∷ xs) ys
      → IsTable t (i + 1) j xs ys
  IsTable-left t i j x xs ys h a b =
      let e : i + 1 + a ≡ i + suc a = omega arith in
      subst (λ k. lookup t k (j + b) ≡ lcs eq (drop a xs) (drop b ys)) (sym e) (h (suc a) b)

  IsTable-right :
      (t : List (List ℕ)) (i j : ℕ) (y : A) (xs ys : List A)
      → IsTable t i j xs (y ∷ ys)
      → IsTable t i (j + 1) xs ys
  IsTable-right t i j y xs ys h a b =
      let e : j + 1 + b ≡ j + suc b = omega arith in
      subst (λ k. lookup t (i + a) k ≡ lcs eq (drop a xs) (drop b ys)) (sym e) (h a (suc b))

  -- the two numbers that the walk compares
  IsTable-lookup :
      (t : List (List ℕ)) (i j : ℕ) (x y : A) (xs ys : List A)
      → IsTable t i j (x ∷ xs) (y ∷ ys)
      → (lookup t (i + 1) j ≡ lcs eq xs (y ∷ ys)) × (lookup t i (j + 1) ≡ lcs eq (x ∷ xs) ys)
  IsTable-lookup t i j x y xs ys h =
      let i0 : i + 0 ≡ i = omega arith in
      let j0 : j + 0 ≡ j = omega arith in
      (
        subst (λ k. lookup t (i + 1) k ≡ lcs eq xs (y ∷ ys)) j0 (h 1 0),
        subst (λ k. lookup t k (j + 1) ≡ lcs eq (x ∷ xs) ys) i0 (h 0 1),
      )

  -- the three steps of the walk
  pub walk_both :
      (t : List (List ℕ)) (i j : ℕ) (x y : A) (xs ys : List A)
      → eq x y ≡ true
      → walk eq t i j (x ∷ xs) (y ∷ ys) ≡ (i, j) ∷ walk eq t (i + 1) (j + 1) xs ys
  unfolding walk
  walk_both t i j x y xs ys e = rw (e, walk) refl

  walk_left :
      (t : List (List ℕ)) (i j : ℕ) (x y : A) (xs ys : List A)
      → eq x y ≡ false
      → leb (lookup t i (j + 1)) (lookup t (i + 1) j) ≡ true
      → walk eq t i j (x ∷ xs) (y ∷ ys) ≡ walk eq t (i + 1) j xs (y ∷ ys)
  unfolding walk
  walk_left t i j x y xs ys e l = rw (e, walk) (rw (l, walk) refl)

  walk_right :
      (t : List (List ℕ)) (i j : ℕ) (x y : A) (xs ys : List A)
      → eq x y ≡ false
      → leb (lookup t i (j + 1)) (lookup t (i + 1) j) ≡ false
      → walk eq t i j (x ∷ xs) (y ∷ ys) ≡ walk eq t i (j + 1) (x ∷ xs) ys
  unfolding walk
  walk_right t i j x y xs ys e l = rw (e, walk) (rw (l, walk) refl)

  -- What a walk from (i, j) over what is left of the lists may return.
  data IsPath : ℕ → ℕ → List A → List A → List (ℕ × ℕ) → Type ℓ where
    end_left : (i j : ℕ) (ys : List A) → IsPath i j [] ys []
    end_right : (i j : ℕ) (xs : List A) → IsPath i j xs [] []
    both :
        (i j : ℕ) (x y : A) (xs ys : List A) (ms : List (ℕ × ℕ))
        → eq x y ≡ true
        → IsPath (i + 1) (j + 1) xs ys ms
        → IsPath i j (x ∷ xs) (y ∷ ys) ((i, j) ∷ ms)
    left :
        (i j : ℕ) (x y : A) (xs ys : List A) (ms : List (ℕ × ℕ))
        → eq x y ≡ false
        → lcs eq (x ∷ xs) ys ≤ lcs eq xs (y ∷ ys)
        → IsPath (i + 1) j xs (y ∷ ys) ms
        → IsPath i j (x ∷ xs) (y ∷ ys) ms
    right :
        (i j : ℕ) (x y : A) (xs ys : List A) (ms : List (ℕ × ℕ))
        → eq x y ≡ false
        → lcs eq xs (y ∷ ys) ≤ lcs eq (x ∷ xs) ys
        → IsPath i (j + 1) (x ∷ xs) ys ms
        → IsPath i j (x ∷ xs) (y ∷ ys) ms

  walk-IsPath :
      (t : List (List ℕ)) (i j : ℕ) (xs ys : List A)
      → IsTable t i j xs ys
      → IsPath i j xs ys (walk eq t i j xs ys)
  unfolding walk
  walk-IsPath t i j [] ys h = end_left i j ys
  walk-IsPath t i j (x ∷ xs) [] h = end_right i j (x ∷ xs)
  walk-IsPath t i j (x ∷ xs) (y ∷ ys) h = elim (Bool-cases (eq x y)) [
    | inl same ↦
        let rest =
          walk-IsPath t (i + 1) (j + 1) xs ys
            (IsTable-right t (i + 1) j y xs ys (IsTable-left t i j x xs (y ∷ ys) h)) in
        subst (IsPath i j (x ∷ xs) (y ∷ ys)) (sym (walk_both t i j x y xs ys same))
          (both i j x y xs ys _ same rest)
    | inr differ ↦
        let (l, r) = IsTable-lookup t i j x y xs ys h in
        elim (Bool-cases (leb (lookup t i (j + 1)) (lookup t (i + 1) j))) [
          | inl down ↦
              let rest = walk-IsPath t (i + 1) j xs (y ∷ ys) (IsTable-left t i j x xs (y ∷ ys) h) in
              subst (IsPath i j (x ∷ xs) (y ∷ ys)) (sym (walk_left t i j x y xs ys differ down))
                (left i j x y xs ys _ differ (ground arith) rest)
          | inr over ↦
              let rest =
                walk-IsPath t i (j + 1) (x ∷ xs) ys (IsTable-right t i j y (x ∷ xs) ys h) in
              subst (IsPath i j (x ∷ xs) (y ∷ ys)) (sym (walk_right t i j x y xs ys differ over))
                (right i j x y xs ys _ differ (ground arith) rest)
        ]
  ]

  length-IsPath :
      {i j : ℕ} {xs ys : List A} {ms : List (ℕ × ℕ)}
      → IsPath i j xs ys ms
      → length ms ≡ lcs eq xs ys
  unfolding lcs
  length-IsPath (end_left i j ys) = refl
  length-IsPath (end_right i j xs) = sym (lcs-nil eq xs)
  length-IsPath (both i j x y xs ys ms e p) = ground (arith, length-IsPath p)
  length-IsPath (left i j x y xs ys ms e le p) = ground (arith, length-IsPath p)
  length-IsPath (right i j x y xs ys ms e le p) = ground (arith, length-IsPath p)

  IsIncreasing-weaken :
      (i j i' j' m n : ℕ) (ms : List (ℕ × ℕ))
      → i ≤ i'
      → j ≤ j'
      → IsIncreasing i' j' m n ms
      → IsIncreasing i j m n ms
  IsIncreasing-weaken i j i' j' m n [] hi hj p = tt
  IsIncreasing-weaken i j i' j' m n ((a, b) ∷ ms) hi hj (p, q, r, s, rest) =
      (omega arith, omega arith, r, s, rest)

  IsPath-IsIncreasing :
      {i j : ℕ} {xs ys : List A} {ms : List (ℕ × ℕ)} (m n : ℕ)
      → i + length xs ≡ m
      → j + length ys ≡ n
      → IsPath i j xs ys ms
      → IsIncreasing i j m n ms
  IsPath-IsIncreasing m n hm hn (end_left i j ys) = tt
  IsPath-IsIncreasing m n hm hn (end_right i j xs) = tt
  IsPath-IsIncreasing m n hm hn (both i j x y xs ys ms e p) = (
    omega arith,
    omega arith,
    omega arith,
    omega arith,
    IsPath-IsIncreasing m n (omega arith) (omega arith) p,
  )
  IsPath-IsIncreasing m n hm hn (left i j x y xs ys ms e le p) =
      IsIncreasing-weaken i j (i + 1) j m n ms (omega arith) (omega arith)
        (IsPath-IsIncreasing m n (omega arith) hn p)
  IsPath-IsIncreasing m n hm hn (right i j x y xs ys ms e le p) =
      IsIncreasing-weaken i j i (j + 1) m n ms (omega arith) (omega arith)
        (IsPath-IsIncreasing m n hm (omega arith) p)

  IsPath-AreEqualAt :
      {i j : ℕ} {xs ys : List A} {ms : List (ℕ × ℕ)} (l r : List A)
      → drop i l ≡ xs
      → drop j r ≡ ys
      → IsPath i j xs ys ms
      → AreEqualAt l r ms
  IsPath-AreEqualAt l r hl hr (end_left i j ys) = tt
  IsPath-AreEqualAt l r hl hr (end_right i j xs) = tt
  IsPath-AreEqualAt l r hl hr (both i j x y xs ys ms e p) =
      let (gl, nl) = drop-cons i l x xs hl in
      let (gr, nr) = drop-cons j r y ys hr in ((x, y, gl, gr, e), IsPath-AreEqualAt l r nl nr p)
  IsPath-AreEqualAt l r hl hr (left i j x y xs ys ms e le p) =
      IsPath-AreEqualAt l r (drop-cons i l x xs hl).1 hr p
  IsPath-AreEqualAt l r hl hr (right i j x y xs ys ms e le p) =
      IsPath-AreEqualAt l r hl (drop-cons j r y ys hr).1 p

  lcs_matches-IsPath : (xs ys : List A) → IsPath 0 0 xs ys (lcs_matches eq xs ys)
  unfolding lcs_matches
  lcs_matches-IsPath xs ys = walk-IsPath (table eq xs ys) 0 0 xs ys (λ a b.
      let ea : 0 + a ≡ a = omega arith in
      let eb : 0 + b ≡ b = omega arith in
      subst (λ k. lookup (table eq xs ys) k (0 + b) ≡ lcs eq (drop a xs) (drop b ys)) (sym ea)
        (subst (λ k. lookup (table eq xs ys) a k ≡ lcs eq (drop a xs) (drop b ys)) (sym eb)
          (lookup-table eq xs ys a b)))

  pub lcs_matches-IsIncreasing :
      (xs ys : List A) → IsIncreasing 0 0 (length xs) (length ys) (lcs_matches eq xs ys)
  lcs_matches-IsIncreasing xs ys =
      IsPath-IsIncreasing (length xs) (length ys) (omega arith) (omega arith)
        (lcs_matches-IsPath xs ys)

  -- The matches go up on both sides, inside both lists, and join equal keys; and no common
  -- subsequence of the lists is longer.
  pub lcs_matches_longest :
      (xs ys : List A)
      → IsIncreasing 0 0 (length xs) (length ys) (lcs_matches eq xs ys)
        × AreEqualAt xs ys (lcs_matches eq xs ys)
        × ((n : ℕ) → HasCommon eq xs ys n → n ≤ length (lcs_matches eq xs ys))
  lcs_matches_longest xs ys =
      let p = lcs_matches-IsPath xs ys in
      (
        lcs_matches-IsIncreasing xs ys,
        IsPath-AreEqualAt xs ys refl refl p,
        λ n c. omega (arith, length-IsPath p, HasCommon-le eq c),
      )
