-- ===== src/Reliability/Recovery.antt =====
-- What a move to the recovered state asks for.
use state_wake.Base.{
  ℕ, String, ◌≡◌, sym, subst, inl, inr, true, not, ◌&&◌, Option, none, some, List, ◌=ₛ◌, eq_iff,
  elem, is_some, is_blank, is_naive, instant, last, Check, ok, >>=-eq-ok, >>-eq-ok, raise_if, arith,
  Bool-cases, Datetime,
}
use state_wake.Reliability.{
  ReliabilityStateTransition, Line, check_transition, check_states, check_evidence, check_decision,
  allowed_transitions, read,
}
use state_wake.Reliability.Service.{
  check_request, verify_given, ReliabilityEvidenceChain, ReliabilityStateSnapshot, fresh, or_empty,
  snapshot, build_transition, check_chain_decision, check_recovery, prepare_fresh, prepare_from,
  prepare,
}

pub record IsRecovery (t : ReliabilityStateTransition) (chain : ReliabilityEvidenceChain)
    : Type 0 where
  pub from_unreliable : t.from_state ≡ "unreliable"
  pub accepted : t.decision ≡ "accept"
  pub reconciled : chain.reconciliation_state ≡ "recovered"
  pub has_reference : is_some chain.recovery_ref ≡ true

check_recovery-reference :
    (current target : String) (chain : ReliabilityEvidenceChain)
    → check_recovery current target chain ≡ ok tt
    → target ≡ "recovered"
    → (current ≡ "unreliable")
      × (chain.reconciliation_state ≡ "recovered")
      × (is_some chain.recovery_ref ≡ true)
unfolding check_recovery
check_recovery-reference current target chain h e =
    let t = (eq_iff target "recovered").1 e in
    (
      ground (arith, t, eq_iff current "unreliable"),
      ground (arith, t, eq_iff chain.reconciliation_state "recovered"),
      ground (arith, t),
    )

check_decision-accepted :
    (decision : String) → check_decision "recovered" decision ≡ ok tt → decision ≡ "accept"
unfolding check_decision
check_decision-accepted decision h = ground (arith, eq_iff decision "accept")

check_transition-decision :
    (t : ReliabilityStateTransition)
    → check_transition t ≡ ok tt
    → check_decision t.to_state t.decision ≡ ok tt
unfolding check_transition
check_transition-decision t h =
    let (states, h1) = >>-eq-ok (check_states t) _ h in
    (>>-eq-ok (check_evidence t) (check_decision t.to_state t.decision) h1).1

check_transition-accepted :
    (t : ReliabilityStateTransition)
    → check_transition t ≡ ok tt
    → t.to_state ≡ "recovered"
    → t.decision ≡ "accept"
check_transition-accepted t h e =
    check_decision-accepted t.decision
      (subst (λ s. check_decision s t.decision ≡ ok tt) e (check_transition-decision t h))

module _ (computed_digest : ReliabilityStateTransition → String)
    (verify_chain : Option (ReliabilityEvidenceChain → Check))
    (derive_id : String → String → ReliabilityEvidenceChain → ℕ → String) where
  prepare_fresh-IsRecovery :
      (subject_id : String) (current : ReliabilityStateSnapshot) (chain : ReliabilityEvidenceChain)
      (actor : String) (when : Datetime) (rationale : List String) (t : ReliabilityStateTransition)
      → prepare_fresh computed_digest derive_id subject_id current chain actor when rationale
        ≡ ok (fresh t)
      → t.to_state ≡ "recovered"
      → IsRecovery t chain
  unfolding prepare_fresh build_transition
  prepare_fresh-IsRecovery subject_id current chain actor when rationale t h e =
      let (a, h1) =
        >>-eq-ok
          (raise_if (not (elem chain.reliability_state (allowed_transitions current.state))) _) _
          h in
      let (b, h2) = >>-eq-ok (check_chain_decision chain.decision chain.reliability_state) _ h1 in
      let (c, h3) = >>-eq-ok (check_recovery current.state chain.reliability_state chain) _ h2 in
      let u =
        build_transition computed_digest
          (derive_id subject_id (or_empty current.transition_digest) chain (instant when))
          subject_id current chain actor when rationale in
      let (d, h4) = >>-eq-ok (check_transition u) _ h3 in
      let same : u ≡ t = ground arith in
      let target : chain.reliability_state ≡ "recovered" =
        subst (λ z. z.to_state ≡ "recovered") (sym same) e in
      let (from, reconciled, reference) =
        check_recovery-reference current.state chain.reliability_state chain c target in
      subst (λ z. IsRecovery z chain) same
        (record {
          from_unreliable = from;
          accepted = check_transition-accepted u d target;
          reconciled = reconciled;
          has_reference = reference;
        })

  -- A new transition to the recovered state starts at the unreliable state and carries an accept
  -- decision, and its chain has a recovery reference and the reconciliation state recovered. Where
  -- an evidence root is given, the chain has passed its verification; without one it is not verified.
  pub prepare-IsRecovery :
      (file : List Line) (subject_id : String) (chain : ReliabilityEvidenceChain) (actor : String)
      (when : Datetime) (rationale : List String) (t : ReliabilityStateTransition)
      → prepare computed_digest verify_chain derive_id file subject_id chain actor when rationale
        ≡ ok (fresh t)
      → t.to_state ≡ "recovered"
      → IsRecovery t chain
        × ((verify : ReliabilityEvidenceChain → Check)
            → verify_chain ≡ some verify
            → verify chain ≡ ok tt)
  unfolding prepare prepare_from check_request
  prepare-IsRecovery file subject_id chain actor when rationale t h e =
      let (request, h3) = >>-eq-ok (check_request verify_chain subject_id chain when) _ h in
      let (a, h1) = >>-eq-ok (raise_if (is_blank subject_id) _) _ request in
      let (b, c) = >>-eq-ok (raise_if (is_naive when) _) (verify_given verify_chain chain) h1 in
      let (history, d, h4) = >>=-eq-ok (read computed_digest file subject_id) _ h3 in
      (
        recovered_from (last history) h4,
        λ verify given. subst (λ v. verify_given v chain ≡ ok tt) given c,
      )
    where
      recovered_from :
          (latest : Option ReliabilityStateTransition)
          → prepare_from computed_digest derive_id subject_id latest chain actor when rationale
            ≡ ok (fresh t)
          → IsRecovery t chain
      recovered_from none k =
          prepare_fresh-IsRecovery subject_id (snapshot computed_digest subject_id none) chain actor
            when rationale t k e
      recovered_from (some l) k =
          elim (Bool-cases
            (l.to_state =ₛ chain.reliability_state && l.evidence_chain_id =ₛ chain.chain_id)) [
              | inl again ↦ ground arith
              | inr new ↦
                  prepare_fresh-IsRecovery subject_id (snapshot computed_digest subject_id (some l))
                    chain actor when rationale t (ground arith) e
            ]
