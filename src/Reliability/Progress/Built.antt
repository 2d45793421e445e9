-- ===== src/Reliability/Progress/Built.antt =====
-- The transition that the service builds for such a chain.
use state_wake.Base.{
  ℕ, String, ◌≡◌, ◌≢◌, refl, sym, subst, inl, inr, true, false, not, ◌&&◌, Option, none, some, List,
  [], ◌∷◌, ◌++◌, elem, last, ◌=ₛ◌, eq_iff, is_blank, is_empty, is_sha256, Datetime, instant, ok,
  Bool-cases, Option-cases,
}
use state_wake.Reliability.{
  ReliabilityStateTransition, Line, reliability_states, allowed_transitions, check_transition,
  check_decision, of_subject, find_existing, check_predecessor, append_to, append, read_all,
}
use state_wake.Reliability.Service.{
  ReliabilityEvidenceChain, ReliabilityStateSnapshot, check_chain_decision, check_recovery,
  or_empty, fresh, snapshot, build_transition, prepare_fresh, prepare_from,
}
use state_wake.Reliability.Progress.Allowed.{
  allowed_transitions-reliable, check_transition-state, Bool-and_false, accepted,
  check_states-reliable, check_evidence-linked,
}

module _ (computed_digest : ReliabilityStateTransition → String) (subject_id : String)
    (latest : Option ReliabilityStateTransition) (chain : ReliabilityEvidenceChain) (actor : String)
    (when : Datetime) (rationale : List String) (id : String) where
  abbrev pub current : ReliabilityStateSnapshot
  current = snapshot computed_digest subject_id latest

  abbrev pub built : ReliabilityStateTransition
  built = build_transition computed_digest id subject_id current chain actor when rationale

  pub current_state :
      ((p : ReliabilityStateTransition) → latest ≡ some p → check_transition p ≡ ok tt)
      → elem current.state reliability_states ≡ true
  unfolding snapshot
  current_state h = elim (Option-cases latest) [
    | inl e ↦ rw e refl
    | inr (p, e) ↦ rw e (check_transition-state p (h p e))
  ]

  -- it names no digest, or one
  built_digest :
      ((t : ReliabilityStateTransition) → is_sha256 (computed_digest t) ≡ true)
      → not (is_empty (or_empty current.transition_digest))
          && not (is_sha256 (or_empty current.transition_digest))
        ≡ false
  unfolding snapshot
  built_digest digests = elim (Option-cases latest) [
    | inl e ↦ rw e refl
    | inr (p, e) ↦
        let d = digests p in rw (e, d) (Bool-and_false (not (is_empty (computed_digest p))))
  ]

  pub built-check :
      is_blank subject_id ≡ false
      → is_blank actor ≡ false
      → is_blank id ≡ false
      → is_blank chain.chain_id ≡ false
      → is_sha256 chain.digest ≡ true
      → ((t : ReliabilityStateTransition) → is_sha256 (computed_digest t) ≡ true)
      → chain.decision ≡ "accept"
      → chain.reliability_state ≡ "reliable"
      → elem current.state reliability_states ≡ true
      → current.state ≢ "reliable"
      → check_transition built ≡ ok tt
  unfolding check_transition build_transition
  built-check hs ha hi hc hd digests he hr known other =
      let states = check_states-reliable built hi hs ha known other hr in
      let evidence = check_evidence-linked built refl hc hd (built_digest digests) in
      let (_, _, decided) = accepted current.state chain in
      let decision : check_decision chain.reliability_state chain.decision ≡ ok tt =
        rw (he, hr) decided in
      rw (states, evidence) decision

  pub built-prepared :
      (derive_id : String → String → ReliabilityEvidenceChain → ℕ → String)
      → derive_id subject_id (or_empty current.transition_digest) chain (instant when) ≡ id
      → chain.decision ≡ "accept"
      → chain.reliability_state ≡ "reliable"
      → elem current.state reliability_states ≡ true
      → current.state ≢ "reliable"
      → check_transition built ≡ ok tt
      → prepare_fresh computed_digest derive_id subject_id current chain actor when rationale
        ≡ ok (fresh built)
  unfolding prepare_fresh
  built-prepared derive_id same he hr known other v =
      let (a, b, c) = accepted current.state chain in
      let allowed : elem chain.reliability_state (allowed_transitions current.state) ≡ true =
        subst (λ z. elem z (allowed_transitions current.state) ≡ true) (sym hr)
          (allowed_transitions-reliable current.state known other) in
      let decided : check_chain_decision chain.decision chain.reliability_state ≡ ok tt =
        rw (he, hr) a in
      let recovered : check_recovery current.state chain.reliability_state chain ≡ ok tt =
        subst (λ z. check_recovery current.state z chain ≡ ok tt) (sym hr) b in
      rw (same, allowed, decided, recovered, v) refl

-- a chain that leads to another state than the latest one is prepared anew
pub prepare_from-fresh :
    (computed_digest : ReliabilityStateTransition → String)
    (derive_id : String → String → ReliabilityEvidenceChain → ℕ → String) (subject_id : String)
    (latest : Option ReliabilityStateTransition) (chain : ReliabilityEvidenceChain) (actor : String)
    (when : Datetime) (rationale : List String)
    → (snapshot computed_digest subject_id latest).state ≢ chain.reliability_state
    → prepare_from computed_digest derive_id subject_id latest chain actor when rationale
      ≡ prepare_fresh computed_digest derive_id subject_id
          (snapshot computed_digest subject_id latest)
          chain
          actor
          when
          rationale
unfolding prepare_from snapshot
prepare_from-fresh computed_digest derive_id subject_id none chain actor when rationale h = refl
prepare_from-fresh computed_digest derive_id subject_id (some p) chain actor when rationale h =
    elim (Bool-cases (p.to_state =ₛ chain.reliability_state)) [
      | inl same ↦ absurd (h ((eq_iff p.to_state chain.reliability_state).0 same))
      | inr other ↦ rw other refl
    ]

-- what is built continues the latest transition
pub built-predecessor :
    (computed_digest : ReliabilityStateTransition → String) (subject_id : String)
    (latest : Option ReliabilityStateTransition) (chain : ReliabilityEvidenceChain) (actor : String)
    (when : Datetime) (rationale : List String) (id : String)
    → check_predecessor computed_digest latest
        (built computed_digest subject_id latest chain actor when rationale id)
      ≡ ok tt
unfolding check_predecessor snapshot build_transition
built-predecessor computed_digest subject_id none chain actor when rationale id = refl
built-predecessor computed_digest subject_id (some p) chain actor when rationale id =
    rw
      (
        (eq_iff (computed_digest p) (computed_digest p)).1 refl,
        (eq_iff p.to_state p.to_state).1 refl,
      )
      refl

pub built-appended :
    (computed_digest : ReliabilityStateTransition → String) (subject_id : String)
    (latest : Option ReliabilityStateTransition) (chain : ReliabilityEvidenceChain) (actor : String)
    (when : Datetime) (rationale : List String) (id : String) (file : List Line)
    (ts : List ReliabilityStateTransition)
    → read_all computed_digest file ≡ ok ts
    → find_existing ts id ≡ none
    → check_predecessor computed_digest
        (last (of_subject subject_id ts))
        (built computed_digest subject_id latest chain actor when rationale id)
      ≡ ok tt
    → append computed_digest file
        (built computed_digest subject_id latest chain actor when rationale id)
      ≡ ok (
        file
            ++ (record {
              transition = built computed_digest subject_id latest chain actor when rationale id;
              digest =
                  computed_digest
                    (built computed_digest subject_id latest chain actor when rationale id);
            })
              ∷ [],
        built computed_digest subject_id latest chain actor when rationale id,
      )
unfolding append append_to build_transition
built-appended computed_digest subject_id latest chain actor when rationale id file ts h new c =
    rw (h, new, c) refl
