-- ===== src/Reliability/Chain.antt =====
-- The evidence chain that a transition rests on: src/statewake/domain/reliability_evidence.py. Its texts are
-- the source's; the digest, SHA-256 of canonical JSON, is not modelled. The service of this library uses
-- of a chain what Service has of it.
use state_wake.Base.{
  String, Bool, true, false, not, ◌&&◌, ◌||◌, Option, none, some, List, [], ◌∷◌, ◌=ₛ◌, elem,
  is_blank, is_nil, is_sha256, value_error, Check, ok, ◌>>◌, raise_if,
}

-- a reference, and its receipt or None
mutual
  pub data EvidenceReference : Type 0 where
    reference :
        (kind : String) (identity : String) (digest : String) (source : Option String)
        (receipt_ref : ReceiptReference)
        → EvidenceReference

  pub data ReceiptReference : Type 0 where
    no_receipt : ReceiptReference
    receipt : EvidenceReference → ReceiptReference

abbrev pub kind_of : EvidenceReference → String
kind_of (reference kind identity digest source receipt_ref) = kind

-- `receipt_ref is not None`
abbrev has_receipt : EvidenceReference → Bool
has_receipt (reference kind identity digest source no_receipt) = false
has_receipt (reference kind identity digest source (receipt r)) = true

-- `self.source is not None and not self.source.strip()`
abbrev is_blank_text : Option String → Bool
is_blank_text none = false
is_blank_text (some s) = is_blank s

-- the tests of a bound receipt, which has been validated itself
check_receipt : String → ReceiptReference → Check
check_receipt kind no_receipt = ok tt
check_receipt kind (receipt r) = do
  raise_if (not (kind =ₛ "evidence"))
      (value_error "receipt_ref is only valid for evidence references.")
  raise_if (not (kind_of r =ₛ "receipt")) (value_error "receipt_ref must have kind 'receipt'.")
  raise_if (has_receipt r)
      (value_error "receipt references must not contain nested receipt bindings.")

-- EvidenceReference.__post_init__
pub check_reference : EvidenceReference → Check
unfolding check_receipt
check_reference (reference kind identity digest source receipt_ref) = do
  raise_if (is_blank kind || is_blank identity)
      (value_error "evidence reference kind and identity must not be empty.")
  raise_if (not (is_sha256 digest)) (value_error "digest must be lowercase SHA-256 hex.")
  raise_if (is_blank_text source) (value_error "source must not be blank when provided.")
  check_receipt kind receipt_ref

pub record ReliabilityEvidenceChain : Type 0 where
  pub chain_id : String
  pub run : EvidenceReference
  pub state : EvidenceReference
  pub evidence : List EvidenceReference
  pub provenance : EvidenceReference
  pub integrity : EvidenceReference
  pub verification_status : String
  pub reliability_state : String
  pub reconciliation_state : String
  pub reconciliation_ref : Option EvidenceReference
  pub recovery_ref : Option EvidenceReference
  pub attestation_ref : Option EvidenceReference
  pub decision_basis_ref : Option EvidenceReference
  pub comparison_ref : Option EvidenceReference
  pub reconciliation_binding_ref : Option EvidenceReference
  pub decision : String
  pub decision_rationale : List String

-- `ref is not None and ref.kind not in kinds`
abbrev is_other_kind : Option EvidenceReference → List String → Bool
is_other_kind none kinds = false
is_other_kind (some r) kinds = not (elem (kind_of r) kinds)

-- the tests of the kinds
unfoldable pub check_kinds : ReliabilityEvidenceChain → Check
check_kinds c = do
  raise_if (not (kind_of c.run =ₛ "run")) (value_error "run reference must have kind 'run'.")
  raise_if (not (kind_of c.state =ₛ "state"))
      (value_error "state reference must have kind 'state'.")
  raise_if (not (kind_of c.provenance =ₛ "provenance"))
      (value_error "provenance reference must have kind 'provenance'.")
  raise_if (not (kind_of c.integrity =ₛ "integrity"))
      (value_error "integrity reference must have kind 'integrity'.")
  raise_if (is_other_kind c.decision_basis_ref ("decision-basis" ∷ "policy" ∷ []))
      (value_error "decision_basis_ref must have kind 'decision-basis' or 'policy'.")
  raise_if (is_other_kind c.comparison_ref ("comparison" ∷ []))
      (value_error "comparison_ref must have kind 'comparison'.")
  raise_if (is_other_kind c.reconciliation_binding_ref ("reconciliation-binding" ∷ []))
      (value_error "reconciliation_binding_ref must have kind 'reconciliation-binding'.")

-- the tests of the statuses
unfoldable pub check_statuses : ReliabilityEvidenceChain → Check
check_statuses c = do
  raise_if (not (elem c.verification_status ("unverified" ∷ "verified" ∷ "failed" ∷ [])))
      (value_error "unsupported verification_status.")
  raise_if
      (not (
        elem c.reliability_state
          ("unknown" ∷ "reliable" ∷ "degraded" ∷ "unreliable" ∷ "recovered" ∷ [])))
      (value_error "unsupported reliability_state.")
  raise_if
      (not (
        elem c.reconciliation_state
          ("pending" ∷ "verified" ∷ "stale" ∷ "missing" ∷ "invalid" ∷ "recovered" ∷ [])))
      (value_error "unsupported reconciliation_state.")
  raise_if (not (elem c.decision ("undecided" ∷ "accept" ∷ "review" ∷ "reject" ∷ [])))
      (value_error "unsupported decision.")

-- `accept` asks for all three
abbrev pub is_acceptable : ReliabilityEvidenceChain → Bool
is_acceptable c =
    c.verification_status =ₛ "verified"
    && elem c.reconciliation_state ("verified" ∷ "recovered" ∷ [])
    && elem c.reliability_state ("reliable" ∷ "recovered" ∷ [])

-- the tests of the decision
unfoldable pub check_chain_state : ReliabilityEvidenceChain → Check
check_chain_state c = do
  raise_if (c.reconciliation_state =ₛ "verified" && not (c.verification_status =ₛ "verified"))
      (value_error "verified reconciliation requires verified chain state.")
  raise_if (c.decision =ₛ "accept" && not (is_acceptable c)) (
      value_error
        "accept requires verified evidence, reconciled state, and reliable/recovered state.")
  raise_if
      (c.decision =ₛ "reject" && not (elem c.reliability_state ("unreliable" ∷ "degraded" ∷ [])))
      (value_error "reject requires unreliable or degraded reliability state.")

-- ReliabilityEvidenceChain.__post_init__
unfoldable pub check_evidence_chain : ReliabilityEvidenceChain → Check
unfolding check_kinds check_statuses check_chain_state
check_evidence_chain c = do
  raise_if (is_blank c.chain_id) (value_error "chain_id must not be empty.")
  check_kinds c
  raise_if (is_nil c.evidence) (value_error "at least one evidence reference is required.")
  check_statuses c
  check_chain_state c
