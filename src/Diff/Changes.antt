-- ===== src/Diff/Changes.antt =====
-- When the comparison of the actions of two runs reports nothing.
use state_wake.Base.{
  inr, inl, ℕ, suc, ◌+◌, ◌≡◌, refl, sym, ap, ◌∙◌, subst, ◌↔◌, true, Option, none, some, List, [],
  ◌∷◌, ◌++◌, map, length, get_elem?, drop, drop-cons, arith, Bool-cases,
}
use state_wake.Events.{EventEnvelope}
use state_wake.Diff.{
  Pair, ActionChange, ActionPayload, payload_eq, action_payload, range_from, change_of, changes_of,
  action_events, action_alignment, action_changes,
}
use state_wake.Diff.Payloads.{payload_eq-eq, payload_eq_refl}
use state_wake.Diff.Diagonal.{pairs_from, action_alignment-diagonal}
use state_wake.Diff.Alignment.{lefts, rights, action_alignment-Covers}

-- the payloads that a list of indices picks
abbrev picked : List EventEnvelope → List ℕ → List (Option ActionPayload)
picked events [] = []
picked events (i ∷ is) =
    elim (get_elem? events i) [ some e ↦ some (action_payload e) | none ↦ none ] ∷ picked events is

-- each index is inside
abbrev AreInside : List EventEnvelope → List ℕ → Type 0
AreInside events [] = Unit
AreInside events (i ∷ is) =
    ((e : EventEnvelope) × (get_elem? events i ≡ some e)) × AreInside events is

append-nil_left {ℓ} : {A : Type ℓ} (xs ys : List A) → xs ++ ys ≡ [] → (xs ≡ []) × (ys ≡ [])
append-nil_left [] ys h = (refl, h)
append-nil_left (x ∷ xs) ys h = cc

change_of-payload :
    (e f : EventEnvelope) → change_of (some e) (some f) ≡ [] → action_payload e ≡ action_payload f
unfolding change_of
change_of-payload e f h = elim (Bool-cases (payload_eq (action_payload e) (action_payload f))) [
  | inl same ↦ payload_eq-eq (action_payload e) (action_payload f) same
  | inr differ ↦ absurd (ground arith)
]

changes_of-picked :
    (left right : List EventEnvelope) (al : List Pair)
    → AreInside left (lefts al)
    → AreInside right (rights al)
    → changes_of left right al ≡ []
    → picked left (lefts al) ≡ picked right (rights al)
unfolding changes_of change_of
changes_of-picked left right [] il ir h = refl
changes_of-picked left right ((none, r) ∷ al) il ir h = cc
changes_of-picked left right ((some l, none) ∷ al) ((e, g), il) ir h = cc
changes_of-picked left right ((some l, some r) ∷ al) ((e, g), il) ((f, k), ir) h =
    let later = changes_of left right al in
    let h1 = subst (λ z. change_of z (get_elem? right r) ++ later ≡ []) g h in
    let h2 = subst (λ z. change_of (some e) z ++ later ≡ []) k h1 in
    let (own, rest) = append-nil_left (change_of (some e) (some f)) later h2 in
    let same = change_of-payload e f own in
    let tails = changes_of-picked left right al il ir rest in
    rw (g, k) (λ i. some (same i) ∷ tails i)

-- all indices of the list, which pick all payloads
range_from-AreInside :
    (all events : List EventEnvelope) (i : ℕ)
    → drop i all ≡ events
    → AreInside all (range_from i (length events))
range_from-AreInside all [] i h = tt
range_from-AreInside all (e ∷ events) i h =
    let (got, rest) = drop-cons i all e events h in
    let next : i + 1 ≡ suc i = omega arith in
    ((e, got), range_from-AreInside all events (suc i) (subst (λ k. drop k all ≡ events) next rest))

picked-range :
    (all events : List EventEnvelope) (i : ℕ)
    → drop i all ≡ events
    → picked all (range_from i (length events)) ≡ map (λ e. some (action_payload e)) events
picked-range all [] i h = refl
picked-range all (e ∷ events) i h =
    let (got, rest) = drop-cons i all e events h in
    let next : i + 1 ≡ suc i = omega arith in
    let later = picked-range all events (suc i) (subst (λ k. drop k all ≡ events) next rest) in
    rw got (ap (λ z. some (action_payload e) ∷ z) later)

map-some :
    (xs ys : List EventEnvelope)
    → map (λ e. some (action_payload e)) xs ≡ map (λ e. some (action_payload e)) ys
    → map action_payload xs ≡ map action_payload ys
map-some [] [] h = refl
map-some [] (y ∷ ys) h = cc
map-some (x ∷ xs) [] h = cc
map-some (x ∷ xs) (y ∷ ys) h =
    let head : action_payload x ≡ action_payload y = cc in
    let tail : map (λ e. some (action_payload e)) xs ≡ map (λ e. some (action_payload e)) ys = cc in
    let rest = map-some xs ys tail in λ i. head i ∷ rest i

-- what is reported of two lists of action events
abbrev reported : List EventEnvelope → List EventEnvelope → List ActionChange
reported left right = changes_of left right (action_alignment left right)

reported-nil :
    (left right : List EventEnvelope)
    → reported left right ≡ []
    → map action_payload left ≡ map action_payload right
reported-nil left right h =
    let (cl, cr) = action_alignment-Covers left right in
    let al = action_alignment left right in
    let il = subst (AreInside left) (sym cl) (range_from-AreInside left left 0 refl) in
    let ir = subst (AreInside right) (sym cr) (range_from-AreInside right right 0 refl) in
    let same = changes_of-picked left right al il ir h in
    map-some left right (
      sym (picked-range left left 0 refl)
      ∙ ap (picked left) (sym cl)
      ∙ same
      ∙ ap (picked right) cr
      ∙ picked-range right right 0 refl)

-- equal payloads at the same place give no change
change_of-nil :
    (e f : EventEnvelope) → action_payload e ≡ action_payload f → change_of (some e) (some f) ≡ []
unfolding change_of
change_of-nil e f h =
    let same =
      subst (λ p. payload_eq (action_payload e) p ≡ true) h (payload_eq_refl (action_payload e)) in
    rw same refl

changes_of-nil :
    (left right xs ys : List EventEnvelope) (i : ℕ)
    → drop i left ≡ xs
    → drop i right ≡ ys
    → map action_payload xs ≡ map action_payload ys
    → changes_of left right (pairs_from i (length xs)) ≡ []
unfolding changes_of
changes_of-nil left right [] ys i hl hr h = refl
changes_of-nil left right (x ∷ xs) [] i hl hr h = cc
changes_of-nil left right (x ∷ xs) (y ∷ ys) i hl hr h =
    let (gl, nl) = drop-cons i left x xs hl in
    let (gr, nr) = drop-cons i right y ys hr in
    let next : i + 1 ≡ suc i = omega arith in
    let head : action_payload x ≡ action_payload y = cc in
    let tail : map action_payload xs ≡ map action_payload ys = cc in
    let later =
      changes_of-nil left right xs ys (suc i) (subst (λ k. drop k left ≡ xs) next nl)
        (subst (λ k. drop k right ≡ ys) next nr) tail in
    rw (gl, gr, change_of-nil x y head) later

-- No change of an action is reported exactly when the action events of both runs, in their order,
-- have the same payloads: the same run, type, actor, name, state, payload and metadata.
pub action_changes-nil_iff :
    (before after : List EventEnvelope)
    → (action_changes before after ≡ [])
      ↔ (map action_payload (action_events before) ≡ map action_payload (action_events after))
unfolding action_changes
action_changes-nil_iff before after =
    let left = action_events before in
    let right = action_events after in
    (
      reported-nil left right,
      λ h.
          ap (changes_of left right) (action_alignment-diagonal left right h)
          ∙ changes_of-nil left right left right 0 refl refl h,
    )
