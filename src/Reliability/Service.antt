-- ===== src/Reliability/Service.antt =====
-- The service that moves a subject to the state of an evidence chain:
-- src/statewake/services/reliability_state_service.py. The chain is what the service uses of a
-- ReliabilityEvidenceChain; the digests of chains and identities are parameters.
use state_wake.Base.{
  index_error, err, ℕ, String, ◌<>◌, not, ◌&&◌, ◌||◌, Option, none, some, List, [], ◌∷◌, ◌=ₛ◌,
  is_blank, is_nil, is_some, elem, last, value_error, Result, Check, ok, ◌>>=◌, ◌>>◌, raise_if,
  if◌then◌else◌, Datetime, aware, is_naive, instant,
}
use state_wake.Reliability.{
  ReliabilityStateTransition, Line, allowed_transitions, check_transition, read, read_all,
  parse_from, check_line, tip, append_to, find_existing, check_predecessor, same_payload, append,
}

pub record ReliabilityEvidenceChain : Type 0 where
  pub chain_id : String
  pub decision : String
  pub reliability_state : String
  pub reconciliation_state : String
  pub recovery_ref : Option String
  pub decision_rationale : List String
  -- `chain.digest()`
  pub digest : String

pub record ReliabilityStateSnapshot : Type 0 where
  pub subject_id : String
  pub state : String
  pub transition_id : Option String
  pub transition_digest : Option String
  pub evidence_chain_id : Option String

-- the tests of the chain's decision against its state
unfoldable pub check_chain_decision : String → String → Check
check_chain_decision decision target = do
  raise_if (decision =ₛ "accept" && not (elem target ("reliable" ∷ "recovered" ∷ [])))
      (value_error "accept decision must produce reliable or recovered state.")
  raise_if (decision =ₛ "review" && not (target =ₛ "degraded"))
      (value_error "review decision must produce degraded state.")
  raise_if (decision =ₛ "reject" && not (target =ₛ "unreliable"))
      (value_error "reject decision must produce unreliable state.")

-- the tests of a recovery
unfoldable pub check_recovery : String → String → ReliabilityEvidenceChain → Check
check_recovery current target chain = do
  raise_if (target =ₛ "recovered" && not (current =ₛ "unreliable"))
      (value_error "recovered state requires an unreliable predecessor.")
  raise_if
      (target =ₛ "recovered"
        && (not (is_some chain.recovery_ref) || not (chain.reconciliation_state =ₛ "recovered")))
      (value_error
        "recovered state requires a recovery reference and recovered reconciliation state.")

-- `x or ""`
abbrev pub or_empty : Option String → String
or_empty none = ""
or_empty (some s) = s

-- `verify_reliability_evidence_chain`, where an evidence root is given
abbrev pub verify_given :
    Option (ReliabilityEvidenceChain → Check) → ReliabilityEvidenceChain → Check
verify_given none chain = ok tt
verify_given (some verify_chain) chain = verify_chain chain

-- the tests of the call itself
unfoldable pub check_request :
    Option (ReliabilityEvidenceChain → Check) → String → ReliabilityEvidenceChain → Datetime → Check
check_request verify_chain subject_id chain when = do
  raise_if (is_blank subject_id) (value_error "subject_id must not be empty.")
  raise_if (is_naive when) (value_error "occurred_at must be timezone-aware.")
  verify_given verify_chain chain

-- the subject whose last transition is returned again, or a new transition that is still to be
-- appended
pub data Prepared : Type 0 where
  repeated : String → Prepared
  fresh : ReliabilityStateTransition → Prepared

-- `history[-1]`, beside the file
abbrev pub last_of {ℓ} :
    {F : Type ℓ} → F → Option ReliabilityStateTransition → Result (F × ReliabilityStateTransition)
last_of file none = err index_error
last_of file (some t) = ok (file, t)

module _ (computed_digest : ReliabilityStateTransition → String) where
  -- current_reliability_state, from the last transition
  unfoldable pub snapshot : String → Option ReliabilityStateTransition → ReliabilityStateSnapshot
  snapshot subject_id none = record {
    subject_id = subject_id;
    state = "unknown";
    transition_id = none;
    transition_digest = none;
    evidence_chain_id = none;
  }
  snapshot subject_id (some latest) = record {
    subject_id = subject_id;
    state = latest.to_state;
    transition_id = some latest.transition_id;
    transition_digest = some (computed_digest latest);
    evidence_chain_id = some latest.evidence_chain_id;
  }

  -- the transition that the service builds, with `transition_id` computed
  unfoldable pub build_transition :
      String
      → String
      → ReliabilityStateSnapshot
      → ReliabilityEvidenceChain
      → String
      → Datetime
      → List String
      → ReliabilityStateTransition
  build_transition transition_id subject_id current chain actor when rationale = record {
    transition_id = transition_id;
    subject_id = subject_id;
    from_state = current.state;
    to_state = chain.reliability_state;
    occurred_at = aware (instant when);
    actor = actor;
    evidence_chain_id = chain.chain_id;
    evidence_chain_digest = chain.digest;
    decision = chain.decision;
    rationale = if is_nil rationale then chain.decision_rationale else rationale;
    previous_transition_digest = or_empty current.transition_digest;
  }

  -- the part of transition_reliability_state between the snapshot and the append
  unfoldable pub prepare_fresh :
      (String → String → ReliabilityEvidenceChain → ℕ → String)
      → String
      → ReliabilityStateSnapshot
      → ReliabilityEvidenceChain
      → String
      → Datetime
      → List String
      → Result Prepared
  unfolding check_chain_decision check_recovery
  prepare_fresh derive_id subject_id current chain actor when rationale = do
    raise_if (not (elem chain.reliability_state (allowed_transitions current.state))) (
        value_error (
          "invalid reliability-state transition: " <> current.state <> " -> "
          <> chain.reliability_state))
    check_chain_decision chain.decision chain.reliability_state
    check_recovery current.state chain.reliability_state chain
    let transition_id =
        derive_id subject_id (or_empty current.transition_digest) chain (instant when)
    let t = build_transition transition_id subject_id current chain actor when rationale
    check_transition t
    ok (fresh t)

  -- the same chain again returns the last transition
  unfoldable pub prepare_from :
      (String → String → ReliabilityEvidenceChain → ℕ → String)
      → String
      → Option ReliabilityStateTransition
      → ReliabilityEvidenceChain
      → String
      → Datetime
      → List String
      → Result Prepared
  prepare_from derive_id subject_id none chain actor when rationale =
      prepare_fresh derive_id subject_id (snapshot subject_id none) chain actor when rationale
  prepare_from derive_id subject_id (some latest) chain actor when rationale =
      let new =
        prepare_fresh derive_id subject_id (snapshot subject_id (some latest)) chain actor when
          rationale in
      if latest.to_state =ₛ chain.reliability_state && latest.evidence_chain_id =ₛ chain.chain_id
      then ok (repeated subject_id)
      else new

  -- transition_reliability_state up to the second read or the append; `verify_chain` is
  -- verify_reliability_evidence_chain at the evidence root, if there is one
  unfoldable pub prepare :
      Option (ReliabilityEvidenceChain → Check)
      → (String → String → ReliabilityEvidenceChain → ℕ → String)
      → List Line
      → String
      → ReliabilityEvidenceChain
      → String
      → Datetime
      → List String
      → Result Prepared
  prepare verify_chain derive_id file subject_id chain actor when rationale = do
    check_request verify_chain subject_id chain when
    history ← read computed_digest file subject_id
    prepare_from derive_id subject_id (last history) chain actor when rationale

  -- the rest of it, at the file as it then is
  unfoldable pub finish : List Line → Prepared → Result (List Line × ReliabilityStateTransition)
  finish file (repeated subject_id) = do
    history ← read computed_digest file subject_id
    last_of file (last history)
  finish file (fresh t) = append computed_digest file t

  unfoldable pub transition_reliability_state :
      Option (ReliabilityEvidenceChain → Check)
      → (String → String → ReliabilityEvidenceChain → ℕ → String)
      → List Line
      → String
      → ReliabilityEvidenceChain
      → String
      → Datetime
      → List String
      → Result (List Line × ReliabilityStateTransition)
  transition_reliability_state verify_chain derive_id file subject_id chain actor when rationale =
      do
        prepared ← prepare verify_chain derive_id file subject_id chain actor when rationale
        finish file prepared

-- What a test unfolds to run the service.
unfoldable pub service_functions : Unit {0}
unfolding check_request prepare prepare_from prepare_fresh snapshot build_transition finish read
    read_all parse_from check_line tip allowed_transitions check_transition append append_to
    find_existing check_predecessor same_payload
service_functions = tt
