-- ===== src/Diff/Diagonal.antt =====
-- The alignment of two lists of actions with equal payloads is the diagonal.
use state_wake.Base.{
  ℕ, zero, suc, ◌+◌, ◌-◌, ◌<◌, ◌≡◌, refl, sym, ap, ◌∙◌, subst, true, false, some, List, [], ◌∷◌,
  map, length, take, drop, get_elem?, ltb, arith,
}
use state_wake.Events.{EventEnvelope}
use state_wake.Diff.{
  Pair, ActionPayload, payload_eq, action_payload, range_from, slice, zip_residual, between,
  with_end, align_gap, action_alignment,
}
use state_wake.Diff.Lcs.{lcs_matches, table, walk}
use state_wake.Diff.Lcs.Walk.{walk_both}
use state_wake.Diff.Alignment.{length-range_from, length-map}
use state_wake.Diff.Payloads.{payload_eq_refl}

-- the diagonal from a position on
abbrev diagonal : ℕ → ℕ → List (ℕ × ℕ)
diagonal i zero = []
diagonal i (suc n) = (i, i) ∷ diagonal (i + 1) n

-- the walk over two equal lists takes the diagonal
walk_nil : (t : List (List ℕ)) (i : ℕ) → walk payload_eq t i i [] [] ≡ []
unfolding walk
walk_nil t i = refl

walk-diagonal :
    (t : List (List ℕ)) (i : ℕ) (xs : List ActionPayload)
    → walk payload_eq t i i xs xs ≡ diagonal i (length xs)
walk-diagonal t i [] = walk_nil t i
walk-diagonal t i (x ∷ xs) =
    walk_both payload_eq t i i x x xs xs (payload_eq_refl x)
    ∙ ap (λ z. (i, i) ∷ z) (walk-diagonal t (i + 1) xs)

-- the pairs of equal indices
abbrev pub pairs_from : ℕ → ℕ → List Pair
pairs_from i zero = []
pairs_from i (suc n) = (some i, some i) ∷ pairs_from (suc i) n

align_gap-nil : (left right : List EventEnvelope) → align_gap left right [] [] ≡ []
unfolding align_gap between zip_residual lcs_matches walk
align_gap-nil left right = refl

get-range : (i n k : ℕ) → k < n → get_elem? (range_from i n) k ≡ some (i + k)
get-range i zero k h = absurd (omega arith)
get-range i (suc n) zero h = let e : i ≡ i + 0 = omega arith in ap some e
get-range i (suc n) (suc k) h =
    let e : suc i + k ≡ i + suc k = omega arith in get-range (suc i) n k (omega arith) ∙ ap some e

slice-nil : (k : ℕ) (xs : List ℕ) → slice k k xs ≡ []
slice-nil k xs =
    let e : k - k ≡ 0 = omega arith in subst (λ n. take n (drop k xs) ≡ []) (sym e) refl

between-diagonal :
    (left right : List EventEnvelope) (xs : List ℕ) (k n : ℕ)
    → k + n ≡ length xs
    → ((i : ℕ) → i < length xs → get_elem? xs i ≡ some i)
    → between (align_gap left right) (with_end (diagonal k n) xs xs) k k xs xs ≡ pairs_from k n
unfolding between
between-diagonal left right xs k zero h g =
    let e : k ≡ length xs = omega arith in
    let stop : ltb (length xs) (length xs) ≡ false = ground arith in
    let none_left = ap (λ z. slice z (length xs) xs) e ∙ slice-nil (length xs) xs in
    rw (none_left, align_gap-nil left right, stop) refl
between-diagonal left right xs k (suc n) h g =
    let go : ltb k (length xs) ≡ true = ground arith in
    let rest = between-diagonal left right xs (k + 1) n (omega arith) g in
    let e : k + 1 ≡ suc k = omega arith in
    rw (slice-nil k xs, align_gap-nil left right, go, g k (omega arith))
      (ap (λ z. (some k, some k) ∷ z) (rest ∙ ap (λ j. pairs_from j n) e))

-- The alignment of two lists of equal payloads has each index beside itself.
pub action_alignment-diagonal :
    (left right : List EventEnvelope)
    → map action_payload left ≡ map action_payload right
    → action_alignment left right ≡ pairs_from 0 (length left)
unfolding action_alignment lcs_matches
action_alignment-diagonal left right h =
    let xs = map action_payload left in
    let ls = range_from 0 (length left) in
    let same : length right ≡ length left =
      sym (length-map action_payload right) ∙ sym (ap length h) ∙ length-map action_payload left in
    let matches : lcs_matches payload_eq xs (map action_payload right) ≡ diagonal 0 (length left) =
      ap (lcs_matches payload_eq xs) (sym h)
      ∙ walk-diagonal (table payload_eq xs xs) 0 xs
      ∙ ap (diagonal 0) (length-map action_payload left) in
    let size = length-range_from 0 (length left) in
    rw (same, matches)
      (between-diagonal left right ls 0 (length left) (omega (arith, size)) (λ i lt.
        let own : 0 + i ≡ i = omega arith in
        get-range 0 (length left) i (omega (arith, size)) ∙ ap some own))
