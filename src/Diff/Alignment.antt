-- ===== src/Diff/Alignment.antt =====
-- The alignment has every action of both sides, once and in order.
use state_wake.Base.{
  ℕ, zero, suc, ◌+◌, ◌-◌, ◌≤◌, ◌<◌, ◌≡◌, refl, sym, ap, ◌∙◌, subst, Bool, true, false, ◌&&◌, none,
  some, List, [], ◌∷◌, ◌++◌, map, length, take, drop, get_elem?, ltb, texts_eq, arith,
  if◌then◌else◌,
}
use state_wake.Events.{EventEnvelope}
use state_wake.Diff.{
  Pair, range_from, slice, zip_residual, between, with_end, identity_at, action_payload, payload_eq,
  align_gap, action_alignment,
}
use state_wake.Diff.Lcs.{lcs_matches}
use state_wake.Diff.Lcs.Walk.{IsIncreasing, lcs_matches-IsIncreasing}

-- the indices on the left, and on the right
abbrev pub lefts : List Pair → List ℕ
lefts [] = []
lefts ((some l, r) ∷ rest) = l ∷ lefts rest
lefts ((none, r) ∷ rest) = lefts rest

abbrev pub rights : List Pair → List ℕ
rights [] = []
rights ((l, some r) ∷ rest) = r ∷ rights rest
rights ((l, none) ∷ rest) = rights rest

lefts-append : (xs ys : List Pair) → lefts (xs ++ ys) ≡ lefts xs ++ lefts ys
lefts-append [] ys = refl
lefts-append ((some l, r) ∷ xs) ys = ap (λ z. l ∷ z) (lefts-append xs ys)
lefts-append ((none, r) ∷ xs) ys = lefts-append xs ys

rights-append : (xs ys : List Pair) → rights (xs ++ ys) ≡ rights xs ++ rights ys
rights-append [] ys = refl
rights-append ((l, some r) ∷ xs) ys = ap (λ z. r ∷ z) (rights-append xs ys)
rights-append ((l, none) ∷ xs) ys = rights-append xs ys

-- two slices that meet, and one item between
take-drop : (a : ℕ) (xs : List ℕ) → take a xs ++ drop a xs ≡ xs
take-drop zero xs = refl
take-drop (suc a) [] = refl
take-drop (suc a) (x ∷ xs) = ap (λ z. x ∷ z) (take-drop a xs)

slice-drop : (p a : ℕ) (xs : List ℕ) → p ≤ a → slice p a xs ++ drop a xs ≡ drop p xs
slice-drop zero a xs le =
    let e : a - 0 ≡ a = omega arith in
    subst (λ n. take n xs ++ drop a xs ≡ xs) (sym e) (take-drop a xs)
slice-drop (suc p) zero xs le = absurd (omega arith)
slice-drop (suc p) (suc a) [] le = let e = take-nil (suc a - suc p) in ap (λ z. z ++ []) e
  where
    take-nil : (n : ℕ) → take {A = ℕ} n [] ≡ []
    take-nil zero = refl
    take-nil (suc n) = refl
slice-drop (suc p) (suc a) (x ∷ xs) le =
    let e : suc a - suc p ≡ a - p = omega arith in
    subst (λ n. take n (drop p xs) ++ drop a xs ≡ drop p xs) (sym e)
      (slice-drop p a xs (omega arith))

drop-get :
    (a : ℕ) (xs : List ℕ)
    → a < length xs
    → (x : ℕ) × (get_elem? xs a ≡ some x) × (drop a xs ≡ x ∷ drop (a + 1) xs)
drop-get a [] lt = absurd (omega arith)
drop-get zero (x ∷ xs) lt = (x, refl, refl)
drop-get (suc a) (x ∷ xs) lt =
    let (y, got, rest) = drop-get a xs (omega arith) in
    let e : suc a + 1 ≡ suc (a + 1) = omega arith in
    (y, got, subst (λ k. drop a xs ≡ y ∷ drop k (x ∷ xs)) (sym e) rest)

drop_end : (xs : List ℕ) → drop (length xs) xs ≡ []
drop_end [] = refl
drop_end (x ∷ xs) = drop_end xs

append-nil : (xs : List ℕ) → xs ++ [] ≡ xs
append-nil [] = refl
append-nil (x ∷ xs) = ap (λ z. x ∷ z) (append-nil xs)

append_assoc : (xs ys zs : List ℕ) → (xs ++ ys) ++ zs ≡ xs ++ (ys ++ zs)
append_assoc [] ys zs = refl
append_assoc (x ∷ xs) ys zs = ap (λ z. x ∷ z) (append_assoc xs ys zs)

-- the pairs have the items of both lists, in order
abbrev pub Covers : List Pair → List ℕ → List ℕ → Type 0
Covers al ls rs = (lefts al ≡ ls) × (rights al ≡ rs)

zip_residual-Covers : (ls rs : List ℕ) → Covers (zip_residual ls rs) ls rs
unfolding zip_residual
zip_residual-Covers [] [] = (refl, refl)
zip_residual-Covers (l ∷ ls) [] = let (a, b) = zip_residual-Covers ls [] in (ap (λ z. l ∷ z) a, b)
zip_residual-Covers [] (r ∷ rs) = let (a, b) = zip_residual-Covers [] rs in (a, ap (λ z. r ∷ z) b)
zip_residual-Covers (l ∷ ls) (r ∷ rs) =
    let (a, b) = zip_residual-Covers ls rs in (ap (λ z. l ∷ z) a, ap (λ z. r ∷ z) b)

-- no pair at the end
pairs-nil : (xs : List Pair) → xs ++ [] ≡ xs
pairs-nil [] = refl
pairs-nil (x ∷ xs) = ap (λ z. x ∷ z) (pairs-nil xs)

between_stop :
    (here : List Pair) (c : Bool) (own : List Pair)
    → c ≡ false
    → here ++ ((if c then own else []) ++ []) ≡ here
between_stop here c own e =
    subst (λ b. here ++ ((if b then own else []) ++ []) ≡ here) (sym e) (pairs-nil here)

between-Covers :
    (gap : List ℕ → List ℕ → List Pair)
    → ((ls rs : List ℕ) → Covers (gap ls rs) ls rs)
    → (matches : List (ℕ × ℕ)) (p q : ℕ) (ls rs : List ℕ)
    → IsIncreasing p q (length ls) (length rs) matches
    → p ≤ length ls
    → q ≤ length rs
    → Covers (between gap (with_end matches ls rs) p q ls rs) (drop p ls) (drop q rs)
unfolding between
between-Covers gap g [] p q ls rs inc hp hq =
    let (a, b) = g (slice p (length ls) ls) (slice q (length rs) rs) in
    let stop : ltb (length ls) (length ls) && ltb (length rs) (length rs) ≡ false = ground arith in
    let here = gap (slice p (length ls) ls) (slice q (length rs) rs) in
    let joined =
      between_stop here _ ((get_elem? ls (length ls), get_elem? rs (length rs)) ∷ []) stop in
    (
      ap lefts joined
          ∙ a
          ∙ sym (append-nil _)
          ∙ ap (λ z. slice p (length ls) ls ++ z) (sym (drop_end ls))
          ∙ slice-drop p (length ls) ls hp,
      ap rights joined
          ∙ b
          ∙ sym (append-nil _)
          ∙ ap (λ z. slice q (length rs) rs ++ z) (sym (drop_end rs))
          ∙ slice-drop q (length rs) rs hq,
    )
between-Covers gap g ((a, b) ∷ matches) p q ls rs (ha, hb, la, lb, inc) hp hq =
    let (gl, gr) = g (slice p a ls) (slice q b rs) in
    let (x, got, dl) = drop-get a ls la in
    let (y, got', dr) = drop-get b rs lb in
    let here : ltb a (length ls) && ltb b (length rs) ≡ true = ground arith in
    let (rl, rr) =
      between-Covers gap g matches (a + 1) (b + 1) ls rs inc (omega arith) (omega arith) in
    let rest = between gap (with_end matches ls rs) (a + 1) (b + 1) ls rs in
    rw (here, got, got')
      (
        lefts-append (gap (slice p a ls) (slice q b rs)) ((some x, some y) ∷ rest)
            ∙ ap (λ z. z ++ x ∷ lefts rest) gl
            ∙ ap (λ z. slice p a ls ++ x ∷ z) rl
            ∙ ap (λ z. slice p a ls ++ z) (sym dl)
            ∙ slice-drop p a ls ha,
        rights-append (gap (slice p a ls) (slice q b rs)) ((some x, some y) ∷ rest)
            ∙ ap (λ z. z ++ y ∷ rights rest) gr
            ∙ ap (λ z. slice q b rs ++ y ∷ z) rr
            ∙ ap (λ z. slice q b rs ++ z) (sym dr)
            ∙ slice-drop q b rs hb,
      )

pub length-map {ℓ κ} :
    {A : Type ℓ} {B : Type κ} (f : A → B) (xs : List A) → length (map f xs) ≡ length xs
length-map f [] = refl
length-map f (x ∷ xs) = ap suc (length-map f xs)

pub length-range_from : (i n : ℕ) → length (range_from i n) ≡ n
length-range_from i zero = refl
length-range_from i (suc n) = ap suc (length-range_from (suc i) n)

align_gap-Covers :
    (left right : List EventEnvelope) (ls rs : List ℕ) → Covers (align_gap left right ls rs) ls rs
unfolding align_gap
align_gap-Covers left right ls rs =
    let one = map (identity_at left) ls in
    let two = map (identity_at right) rs in
    let inc = lcs_matches-IsIncreasing texts_eq one two in
    let inc1 =
      subst (λ n. IsIncreasing 0 0 n (length two) (lcs_matches texts_eq one two))
        (length-map (identity_at left) ls) inc in
    let inc2 =
      subst (λ n. IsIncreasing 0 0 (length ls) n (lcs_matches texts_eq one two))
        (length-map (identity_at right) rs) inc1 in
    between-Covers zip_residual zip_residual-Covers (lcs_matches texts_eq one two) 0 0 ls rs inc2
      (omega arith) (omega arith)

-- The alignment of two lists of actions has every index of either list exactly once, in order:
-- its left sides are all indices of the left list, and its right sides all of the right list.
pub action_alignment-Covers :
    (left right : List EventEnvelope)
    → Covers
        (action_alignment left right)
        (range_from 0 (length left))
        (range_from 0 (length right))
unfolding action_alignment
action_alignment-Covers left right =
    let one = map action_payload left in
    let two = map action_payload right in
    let ls = range_from 0 (length left) in
    let rs = range_from 0 (length right) in
    let inc = lcs_matches-IsIncreasing payload_eq one two in
    let el : length one ≡ length ls =
      length-map action_payload left ∙ sym (length-range_from 0 (length left)) in
    let er : length two ≡ length rs =
      length-map action_payload right ∙ sym (length-range_from 0 (length right)) in
    let inc1 =
      subst (λ n. IsIncreasing 0 0 n (length two) (lcs_matches payload_eq one two)) el inc in
    let inc2 =
      subst (λ n. IsIncreasing 0 0 (length ls) n (lcs_matches payload_eq one two)) er inc1 in
    between-Covers (align_gap left right) (align_gap-Covers left right)
      (lcs_matches payload_eq one two) 0 0 ls rs inc2 (omega arith) (omega arith)
