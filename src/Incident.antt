-- ===== src/Incident.antt =====
-- Security incidents: src/statewake/domain/security_incident.py. The statuses are types of their own,
-- which hold what the source's tests of the texts accept; the digests of an incident and of its
-- event context, SHA-256 of canonical JSON, are parameters.
pub mod Timeline
pub mod Continuity
mod Tests
use state_wake.Base.{
  is_before, ℕ, ◌+◌, String, Bool, true, false, not, ◌&&◌, ◌||◌, Option, none, some, List, [], ◌∷◌,
  ◌++◌, map, filter, ◌=ₛ◌, is_blank, is_empty, is_nil, is_some, is_sha256, any, elem, sorted, ltb,
  leb, value_error, Result, Check, ok, err, ◌>>=◌, ◌>>◌, raise_if, if◌then◌else◌, Datetime,
  is_naive, instant,
}

pub data IncidentStatus : Type 0 where
  detected preserved contained assessed recovered reverified : IncidentStatus

-- _STATUS_ORDER
abbrev pub status_order : IncidentStatus → ℕ
status_order detected = 0
status_order preserved = 1
status_order contained = 2
status_order assessed = 3
status_order recovered = 4
status_order reverified = 5

pub record IncidentEvidenceReference : Type 0 where
  pub kind : String
  pub identity : String
  pub digest : String
  pub source : Option String

-- a text that is given is blank
abbrev is_blank_option : Option String → Bool
is_blank_option none = false
is_blank_option (some s) = is_blank s

-- a time that is given has no zone
abbrev is_naive_option : Option Datetime → Bool
is_naive_option none = false
is_naive_option (some t) = is_naive t

-- both ends are given, and the second is earlier
abbrev ends_before : Option Datetime → Option Datetime → Bool
ends_before (some s) (some e) = is_before e s
ends_before none _ = false
ends_before (some _) none = false

-- IncidentEvidenceReference.__post_init__
pub check_reference : IncidentEvidenceReference → Check
check_reference r = do
  raise_if (is_blank r.kind || is_blank r.identity)
      (value_error "evidence kind and identity must not be empty.")
  raise_if (not (is_sha256 r.digest)) (value_error "digest must be lowercase SHA-256 hex.")
  raise_if (is_blank_option r.source) (value_error "source must not be blank when provided.")

pub record AffectedTrustState : Type 0 where
  pub state_id : String
  pub state_digest : String
  pub trust_context : String
  pub affected_window_start : Option Datetime
  pub affected_window_end : Option Datetime

-- AffectedTrustState.__post_init__
pub check_affected : AffectedTrustState → Check
check_affected s = do
  raise_if (is_blank s.state_id) (value_error "state_id must not be empty.")
  raise_if (is_blank s.trust_context) (value_error "trust_context must not be empty.")
  raise_if (not (is_sha256 s.state_digest))
      (value_error "state_digest must be lowercase SHA-256 hex.")
  raise_if
      ((is_some s.affected_window_start && not (is_some s.affected_window_end))
        || (is_some s.affected_window_end && not (is_some s.affected_window_start)))
      (value_error "affected time window must have both endpoints.")
  raise_if (is_naive_option s.affected_window_start)
      (value_error "affected_window_start must be timezone-aware.")
  raise_if (is_naive_option s.affected_window_end)
      (value_error "affected_window_end must be timezone-aware.")
  raise_if (ends_before s.affected_window_start s.affected_window_end)
      (value_error "affected time window end precedes its start.")

pub record KeyCompromiseImpact : Type 0 where
  pub key_identity : String
  pub affected_key_version : String
  pub affected_attestation_ids : List String
  pub affected_evidence : List IncidentEvidenceReference
  pub exposure_start : Datetime
  pub exposure_end : Option Datetime

-- KeyCompromiseImpact.__post_init__
pub check_compromise : KeyCompromiseImpact → Check
check_compromise k = do
  raise_if (is_blank k.key_identity) (value_error "key_identity must not be empty.")
  raise_if (is_blank k.affected_key_version) (value_error "affected_key_version must not be empty.")
  raise_if (any is_blank k.affected_attestation_ids)
      (value_error "affected attestation IDs must not be blank.")
  raise_if (is_naive k.exposure_start) (value_error "exposure_start must be timezone-aware.")
  raise_if (is_naive_option k.exposure_end) (value_error "exposure_end must be timezone-aware.")
  raise_if (ends_before (some k.exposure_start) k.exposure_end)
      (value_error "exposure_end precedes exposure_start.")

pub data RecoveryStatus : Type 0 where
  planned applied failed : RecoveryStatus

pub record RecoveryEvidence : Type 0 where
  pub recovery_id : String
  pub evidence_ref : IncidentEvidenceReference
  pub actor : String
  pub source_incident_id : String
  pub status : RecoveryStatus

-- RecoveryEvidence.__post_init__; its last test is covered by the blank test of source_incident_id
pub check_recovery : RecoveryEvidence → Check
check_recovery r = do
  raise_if (is_blank r.recovery_id) (value_error "recovery_id must not be empty.")
  raise_if (is_blank r.actor) (value_error "actor must not be empty.")
  raise_if (is_blank r.source_incident_id) (value_error "source_incident_id must not be empty.")

pub data VerificationStatus : Type 0 where
  verified failed unknown : VerificationStatus

pub record PostRecoveryVerification : Type 0 where
  pub verification_id : String
  pub evidence_refs : List IncidentEvidenceReference
  pub actor : String
  pub status : VerificationStatus
  pub performed_at : Datetime

-- PostRecoveryVerification.__post_init__
pub check_post_recovery : PostRecoveryVerification → Check
check_post_recovery v = do
  raise_if (is_blank v.verification_id || is_blank v.actor)
      (value_error "verification_id and actor must not be empty.")
  raise_if (is_nil v.evidence_refs)
      (value_error "post-recovery verification requires evidence refs")
  raise_if (is_naive v.performed_at) (value_error "performed_at must be timezone-aware.")

pub record SecurityIncidentEvidence : Type 0 where
  pub incident_id : String
  pub event_id : String
  pub detected_at : Datetime
  pub actor : String
  pub category : String
  pub status : IncidentStatus
  pub evidence_refs : List IncidentEvidenceReference
  pub affected_states : List AffectedTrustState
  pub security_event_digests : List String
  pub uncertainty : List String
  pub key_compromise : Option KeyCompromiseImpact
  pub recovery : Option RecoveryEvidence
  pub post_recovery : Option PostRecoveryVerification
  pub incident_digest : String

-- derive_incident_id, `identity_of` being the digest of the event context
derive_incident_id :
    (String → ℕ → String → String → String) → String → Datetime → String → String → Result String
derive_incident_id identity_of event_id detected_at actor category = do
  raise_if (is_blank event_id) (value_error "event_id must not be empty.")
  raise_if (is_blank actor) (value_error "actor must not be empty.")
  raise_if (is_blank category) (value_error "category must not be empty.")
  raise_if (is_naive detected_at) (value_error "detected_at must be timezone-aware.")
  ok (identity_of event_id (instant detected_at) actor category)

abbrev pub is_verified : Option PostRecoveryVerification → Bool
is_verified none = false
is_verified (some v) = elim v.status [ verified ↦ true | failed ↦ false | unknown ↦ false ]

-- the recovery, if there is one, is of another incident
abbrev recovers_other : Option RecoveryEvidence → String → Bool
recovers_other none incident_id = false
recovers_other (some r) incident_id = not (r.source_incident_id =ₛ incident_id)

-- SecurityIncidentEvidence.__post_init__; its second test of the evidence never fails after the first
unfoldable pub check_incident :
    (String → ℕ → String → String → String)
    → (SecurityIncidentEvidence → String)
    → SecurityIncidentEvidence
    → Check
unfolding derive_incident_id
check_incident identity_of digest_of i = do
  raise_if (is_blank i.incident_id) (value_error "incident_id must not be empty.")
  raise_if (is_blank i.event_id) (value_error "event_id must not be empty.")
  raise_if (is_blank i.actor) (value_error "actor must not be empty.")
  raise_if (is_blank i.category) (value_error "category must not be empty.")
  raise_if (is_naive i.detected_at) (value_error "detected_at must be timezone-aware.")
  raise_if (is_nil i.evidence_refs)
      (value_error "incident evidence must preserve at least one evidence ref")
  raise_if (any is_blank i.uncertainty) (value_error "uncertainty entries must not be blank")
  expected ← derive_incident_id identity_of i.event_id i.detected_at i.actor i.category
  raise_if (not (i.incident_id =ₛ expected))
      (value_error "incident_id is not the deterministic identity of its event context")
  raise_if (any (λ d. not (is_sha256 d)) i.security_event_digests)
      (value_error "security_event_digest must be lowercase SHA-256 hex.")
  raise_if (leb 4 (status_order i.status) && not (is_some i.recovery))
      (value_error "recovered incident requires recovery evidence")
  raise_if (leb 5 (status_order i.status) && not (is_some i.post_recovery))
      (value_error "reverified incident requires post-recovery verification")
  raise_if (leb 5 (status_order i.status) && not (is_verified i.post_recovery))
      (value_error "reverified incident requires verified post-recovery evidence")
  raise_if (recovers_other i.recovery i.incident_id)
      (value_error "recovery evidence must bind to this incident")
  raise_if (not (is_empty i.incident_digest) && not (i.incident_digest =ₛ digest_of i))
      (value_error "security incident evidence digest mismatch")
