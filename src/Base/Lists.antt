-- ===== src/Base/Lists.antt =====
-- Lists measured by native numbers, and Python's tests on sequences of texts.
use Prim.Native.Nat.{ℕ, zero, suc, ◌+◌}
use Prim.Native.String.{String}
use mathlib.Core.Path.{◌≡◌, refl, sym, subst}
use mathlib.Core.Logic.{◌⊎◌}
use mathlib.Core.Bool.{Bool, true, false, not, ◌&&◌, ◌||◌}
use mathlib.Core.Option.{Option, none, some}
use mathlib.Core.List.{List, [], ◌∷◌, ◌++◌}
use native.Mathlib.Omega.{arith}
use state_wake.Base.Tests.{if◌then◌else◌}
use state_wake.Base.Text.{◌=ₛ◌, eq_iff, text_le}

module _ {ℓ} {A : Type ℓ} where
  abbrev pub length : List A → ℕ
  length [] = 0
  length (x ∷ xs) = suc (length xs)

  -- `any(p(x) for x in xs)`
  abbrev pub any : (A → Bool) → List A → Bool
  any p [] = false
  any p (x ∷ xs) = p x || any p xs

  -- `all(p(x) for x in xs)`
  abbrev pub all : (A → Bool) → List A → Bool
  all p [] = true
  all p (x ∷ xs) = p x && all p xs

  -- `[x for x in xs if p(x)]`
  abbrev pub filter : (A → Bool) → List A → List A
  filter p [] = []
  filter p (x ∷ xs) = let rest = filter p xs in if p x then x ∷ rest else rest

  -- `not xs`
  abbrev pub is_nil : List A → Bool
  is_nil [] = true
  is_nil (_ ∷ _) = false

  -- `xs[-1] if xs else None`
  abbrev pub last : List A → Option A
  last [] = none
  last (x ∷ []) = some x
  last (x ∷ y ∷ rest) = last (y ∷ rest)

-- `x in xs` on texts
abbrev pub elem : String → List String → Bool
elem x [] = false
elem x (y ∷ ys) = y =ₛ x || elem x ys

-- `xs == ys` on tuples of texts
abbrev pub texts_eq : List String → List String → Bool
texts_eq [] [] = true
texts_eq (x ∷ xs) (y ∷ ys) = x =ₛ y && texts_eq xs ys
texts_eq [] (_ ∷ _) = false
texts_eq (_ ∷ _) [] = false

pub texts_eq_refl : (xs : List String) → texts_eq xs xs ≡ true
texts_eq_refl [] = refl
texts_eq_refl (x ∷ xs) = ground (arith, eq_iff x x, texts_eq_refl xs)

-- `len(xs) == len(set(xs))`
abbrev pub is_distinct : List String → Bool
is_distinct [] = true
is_distinct (x ∷ xs) = not (elem x xs) && is_distinct xs

-- `sorted(xs)`
insert_sorted : String → List String → List String
insert_sorted x [] = x ∷ []
insert_sorted x (y ∷ ys) = if text_le x y then x ∷ y ∷ ys else y ∷ insert_sorted x ys

unfoldable pub sorted : List String → List String
unfolding insert_sorted
sorted [] = []
sorted (x ∷ xs) = insert_sorted x (sorted xs)

pub elem-append : (x : String) (xs ys : List String) → elem x (xs ++ ys) ≡ elem x xs || elem x ys
elem-append x [] ys = refl
elem-append x (z ∷ zs) ys = ground (arith, elem-append x zs ys)

elem-insert_sorted :
    (x y : String) (ys : List String) → elem x (insert_sorted y ys) ≡ y =ₛ x || elem x ys
unfolding insert_sorted
elem-insert_sorted x y [] = refl
elem-insert_sorted x y (z ∷ zs) = ground (arith, elem-insert_sorted x y zs)

-- Sorting keeps the members.
pub elem-sorted : (x : String) (xs : List String) → elem x (sorted xs) ≡ elem x xs
unfolding sorted
elem-sorted x [] = refl
elem-sorted x (y ∷ ys) = ground (arith, elem-insert_sorted x y (sorted ys), elem-sorted x ys)

-- A member of a list is its head or a member of the rest.
pub elem-cons :
    (x y : String) (ys : List String) → elem x (y ∷ ys) ≡ true → (y ≡ x) ⊎ (elem x ys ≡ true)
elem-cons x y ys h = ground (arith, eq_iff y x)

pub elem_head : (x : String) (xs : List String) → elem x (x ∷ xs) ≡ true
elem_head x xs = ground (arith, eq_iff x x)

module _ {ℓ} {A : Type ℓ} where
  pub length-append : (xs ys : List A) → length (xs ++ ys) ≡ length xs + length ys
  length-append [] ys = omega arith
  length-append (x ∷ xs) ys = omega (arith, length-append xs ys)

module _ {ℓ} {A : Type ℓ} where
  -- `xs[n:]`
  abbrev pub drop : ℕ → List A → List A
  drop zero xs = xs
  drop (suc n) [] = []
  drop (suc n) (x ∷ xs) = drop n xs

  -- `xs[:n]`
  abbrev pub take : ℕ → List A → List A
  take zero xs = []
  take (suc n) [] = []
  take (suc n) (x ∷ xs) = x ∷ take n xs

  -- `xs[i]`, where the index is in range
  abbrev pub get_elem? : List A → ℕ → Option A
  get_elem? [] i = none
  get_elem? (x ∷ xs) zero = some x
  get_elem? (x ∷ xs) (suc i) = get_elem? xs i

-- the item at a position, and what is behind it
pub drop-cons {ℓ} :
    {A : Type ℓ} (i : ℕ) (l : List A) (x : A) (xs : List A)
    → drop i l ≡ x ∷ xs
    → (get_elem? l i ≡ some x) × (drop (i + 1) l ≡ xs)
drop-cons zero [] x xs h = cc
drop-cons zero (u ∷ us) x xs h = (ground arith, ground arith)
drop-cons (suc i) [] x xs h = cc
drop-cons (suc i) (u ∷ us) x xs h =
    let (got, rest) = drop-cons i us x xs h in
    let e : suc i + 1 ≡ suc (i + 1) = omega arith in
    (got, subst (λ k. drop k (u ∷ us) ≡ xs) (sym e) rest)
