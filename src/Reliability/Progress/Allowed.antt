-- ===== src/Reliability/Progress/Allowed.antt =====
-- The tests that a transition to the reliable state passes.
use state_wake.Base.{
  elem-cons, raise_if-eq-ok, >>-eq-ok, String, ◌≡◌, ◌≢◌, refl, sym, subst, inl, inr, Bool, true,
  false, not, ◌&&◌, ◌||◌, [], ◌∷◌, elem, is_blank, is_empty, is_sha256, is_naive, ok, raise_if,
  arith,
}
use state_wake.Reliability.{
  ReliabilityStateTransition, reliability_states, allowed_transitions, check_transition,
  check_states, check_evidence, check_decision,
}
use state_wake.Reliability.Service.{ReliabilityEvidenceChain, check_chain_decision, check_recovery}

-- from each other state, the reliable state is allowed
pub allowed_transitions-reliable :
    (state : String)
    → elem state reliability_states ≡ true
    → state ≢ "reliable"
    → elem "reliable" (allowed_transitions state) ≡ true
unfolding allowed_transitions
allowed_transitions-reliable state h other =
    elim (elem-cons state "unknown" ("reliable" ∷ "degraded" ∷ "unreliable" ∷ "recovered" ∷ []) h) [
      | inl e ↦ subst (λ z. elem "reliable" (allowed_transitions z) ≡ true) e refl
      | inr h1 ↦
          elim (elem-cons state "reliable" ("degraded" ∷ "unreliable" ∷ "recovered" ∷ []) h1) [
            | inl e ↦ absurd (other (sym e))
            | inr h2 ↦ elim (elem-cons state "degraded" ("unreliable" ∷ "recovered" ∷ []) h2) [
              | inl e ↦ subst (λ z. elem "reliable" (allowed_transitions z) ≡ true) e refl
              | inr h3 ↦ elim (elem-cons state "unreliable" ("recovered" ∷ []) h3) [
                | inl e ↦ subst (λ z. elem "reliable" (allowed_transitions z) ≡ true) e refl
                | inr h4 ↦ elim (elem-cons state "recovered" [] h4) [
                  | inl e ↦ subst (λ z. elem "reliable" (allowed_transitions z) ≡ true) e refl
                  | inr h5 ↦ cc
                ]
              ]
            ]
          ]
    ]

-- the state of a valid transition is a state
pub check_transition-state :
    (t : ReliabilityStateTransition)
    → check_transition t ≡ ok tt
    → elem t.to_state reliability_states ≡ true
unfolding check_transition check_states
check_transition-state t h =
    let (states, _) = >>-eq-ok (check_states t) _ h in
    let (a, h1) =
      >>-eq-ok (raise_if (is_blank t.transition_id || is_blank t.subject_id || is_blank t.actor) _)
        _ states in
    let (b, h2) = >>-eq-ok (raise_if (not (elem t.from_state reliability_states)) _) _ h1 in
    let (c, h3) = >>-eq-ok (raise_if (not (elem t.to_state reliability_states)) _) _ h2 in
    let known = raise_if-eq-ok _ _ c in ground arith

pub Bool-and_false : (b : Bool) → b && false ≡ false
Bool-and_false true = refl
Bool-and_false false = refl

pub accepted :
    (current : String) (chain : ReliabilityEvidenceChain)
    → (check_chain_decision "accept" "reliable" ≡ ok tt)
      × (check_recovery current "reliable" chain ≡ ok tt)
      × (check_decision "reliable" "accept" ≡ ok tt)
unfolding check_chain_decision check_recovery check_decision
accepted current chain = (refl, refl, refl)

-- a transition to the reliable state that passes its tests
pub check_states-reliable :
    (t : ReliabilityStateTransition)
    → is_blank t.transition_id ≡ false
    → is_blank t.subject_id ≡ false
    → is_blank t.actor ≡ false
    → elem t.from_state reliability_states ≡ true
    → t.from_state ≢ "reliable"
    → t.to_state ≡ "reliable"
    → check_states t ≡ ok tt
unfolding check_states
check_states-reliable t hi hs ha known other to =
    let open_ = allowed_transitions-reliable t.from_state known other in
    rw (hi, hs, ha, known, to, open_) refl

pub check_evidence-linked :
    (t : ReliabilityStateTransition)
    → is_naive t.occurred_at ≡ false
    → is_blank t.evidence_chain_id ≡ false
    → is_sha256 t.evidence_chain_digest ≡ true
    → not (is_empty t.previous_transition_digest) && not (is_sha256 t.previous_transition_digest)
      ≡ false
    → check_evidence t ≡ ok tt
unfolding check_evidence
check_evidence-linked t hw hc hd hp = rw (hw, hc, hd, hp) refl
