-- ===== src/Diff/Compare.antt =====
-- When a comparison of two runs reports no change at all.
use state_wake.Base.{
  elem-sorted, elem_head, inr, inl, String, ◌≡◌, refl, sym, ap, ◌∙◌, subst, ◌↔◌, true, false, not,
  Option, List, [], ◌∷◌, map, filter, elem, sorted, is_nil, arith, Bool-cases,
}
use state_wake.Events.{EventEnvelope}
use state_wake.States.{SystemState}
use state_wake.Evidence.{EvidenceManifest}
use state_wake.Diff.{
  BehavioralDiff, no_risk, risk, changed, option_text_eq, manifest_ids, outcome, action_payload,
  action_events, compare,
}
use state_wake.Diff.Payloads.{option_text_eq-eq, option_text_eq_refl}
use state_wake.Diff.Changes.{action_changes-nil_iff}
use state_wake.Diff.States.{elem-filter, AreSameStates, state_changes-nil}

-- A comparison has no risk exactly when it has no change.
risk-changed : (d : BehavioralDiff) → (risk d ≡ no_risk) ↔ (changed d ≡ false)
risk-changed d = (λ h. ground arith, λ h. ground arith)

sorted-nil : (xs : List String) → sorted xs ≡ [] → (x : String) → elem x xs ≡ false
sorted-nil xs h x = sym (elem-sorted x xs) ∙ ap (elem x) h

filter_none :
    (a b : List String)
    → ((x : String) → elem x a ≡ true → elem x b ≡ true)
    → filter (λ x. not (elem x b)) a ≡ []
filter_none [] b h = refl
filter_none (y ∷ a) b h =
    let rest = filter_none a b (λ x m. h x (ground (arith, m))) in
    let own = h y (elem_head y a) in rw (own, rest) refl

-- nothing of one list is missing from another
missing-nil :
    (a b : List String)
    → (sorted (filter (λ x. not (elem x b)) a) ≡ [])
      ↔ ((x : String) → elem x a ≡ true → elem x b ≡ true)
unfolding sorted
missing-nil a b = (
  λ h x m. elim (Bool-cases (elem x b)) [
    | inl here ↦ here
    | inr absent ↦
        let found = elem-filter x (λ z. not (elem z b)) a m (ground arith) in
        let none_here = sorted-nil (filter (λ z. not (elem z b)) a) h x in absurd (ground arith)
  ],
  λ h. ap sorted (filter_none a b h),
)

is_nil-eq {ℓ} : {A : Type ℓ} (xs : List A) → (not (is_nil xs) ≡ false) ↔ (xs ≡ [])
is_nil-eq [] = (λ h. refl, λ h. refl)
is_nil-eq (x ∷ xs) = (λ h. cc, λ h. cc)

-- the five parts of a comparison without change
changed-parts :
    (d : BehavioralDiff)
    → (changed d ≡ false) ↔ (
        (d.state_changes ≡ [])
        × (d.outcome_before ≡ d.outcome_after)
        × (d.evidence_added ≡ [])
        × (d.evidence_removed ≡ [])
        × (d.action_changes ≡ []))
changed-parts d = (
  λ h. (
    (is_nil-eq d.state_changes).0 (ground arith),
    option_text_eq-eq d.outcome_before d.outcome_after (ground arith),
    (is_nil-eq d.evidence_added).0 (ground arith),
    (is_nil-eq d.evidence_removed).0 (ground arith),
    (is_nil-eq d.action_changes).0 (ground arith),
  ),
  λ (e1, e2, e3, e4, e5).
      let same =
        subst (λ z. option_text_eq d.outcome_before z ≡ true) e2
          (option_text_eq_refl d.outcome_before) in
      rw (e1, same, e3, e4, e5) refl,
)

-- what no comparison shows a difference of
abbrev pub AreSameRuns :
    SystemState
    → SystemState
    → Option EvidenceManifest
    → Option EvidenceManifest
    → List EventEnvelope
    → List EventEnvelope
    → Type 0
AreSameRuns s t m n es fs =
    AreSameStates s t
    × (outcome es ≡ outcome fs)
    × ((x : String) → (elem x (manifest_ids m) ≡ true) ↔ (elem x (manifest_ids n) ≡ true))
    × (map action_payload (action_events es) ≡ map action_payload (action_events fs))

-- A comparison of two runs reports no change exactly when their states have the same agent version
-- and model, the same digests of memory, policy, prompt and retrieval, and the same digest for each
-- tool; their outcomes are equal; their manifests name the same evidence identifiers; and their
-- action events have the same payloads in the same order. The identifiers and times of the states,
-- and what else an item of evidence holds, are not compared.
pub compare-changed :
    (s t : SystemState) (m n : Option EvidenceManifest) (es fs : List EventEnvelope)
    → (changed (compare s t m n es fs) ≡ false) ↔ AreSameRuns s t m n es fs
unfolding compare
compare-changed s t m n es fs =
    let old = manifest_ids m in
    let new = manifest_ids n in
    let parts = changed-parts (compare s t m n es fs) in
    (
      λ h.
          let (e1, e2, e3, e4, e5) = parts.0 h in
          (
            (state_changes-nil s t).0 e1,
            e2,
            λ x. ((missing-nil old new).0 e4 x, (missing-nil new old).0 e3 x),
            (action_changes-nil_iff es fs).0 e5,
          ),
      λ (e1, e2, e3, e4). parts.1 (
        (state_changes-nil s t).1 e1,
        e2,
        (missing-nil new old).1 (λ x. (e3 x).1),
        (missing-nil old new).1 (λ x. (e3 x).0),
        (action_changes-nil_iff es fs).1 e4,
      ),
    )
