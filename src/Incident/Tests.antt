-- ===== src/Incident/Tests.antt =====
-- The incident theorems on one incident that was recovered and verified again.
use state_wake.Base.{
  zoned, is_before, String, ◌≡◌, ◌↔◌, refl, true, false, none, some, List, [], ◌∷◌, ok, elem,
  is_blank, aware,
}
use state_wake.Incident.{
  contained, detected, preserved, reverified, IncidentEvidenceReference, RecoveryEvidence, applied,
  PostRecoveryVerification, verified, SecurityIncidentEvidence,
}
use state_wake.Incident.Timeline.{Entry, IsOrdered, check_timeline, check_timeline_iff}
use state_wake.Incident.Continuity.{
  check_links, check_recovered, check_verified, verify_forensic_continuity, identities,
  reconstruct_security_state, IsCovered, IsContinuous, verify_forensic_continuity_reconstructs,
}

abbrev reference : String → IncidentEvidenceReference
reference identity = record {
  kind = "log";
  identity = identity;
  digest = "0123456789abcdef0123456789abcdef0123456789abcdef0123456789abcdef";
  source = none;
}

abbrev recovery : RecoveryEvidence
recovery = record {
  recovery_id = "r";
  evidence_ref = reference "e1";
  actor = "ops";
  source_incident_id = "i";
  status = applied;
}

abbrev verification : PostRecoveryVerification
verification = record {
  verification_id = "v";
  evidence_refs = reference "e2" ∷ [];
  actor = "ops";
  status = verified;
  performed_at = aware 9;
}

abbrev incident : SecurityIncidentEvidence
incident = record {
  incident_id = "i";
  event_id = "ev";
  detected_at = aware 1;
  actor = "ops";
  category = "key";
  status = reverified;
  evidence_refs = reference "e1" ∷ reference "e2" ∷ [];
  affected_states = [];
  security_event_digests = [];
  uncertainty = [];
  key_compromise = none;
  recovery = some recovery;
  post_recovery = some verification;
  incident_digest = "";
}

continuous : verify_forensic_continuity incident ≡ ok tt
unfolding verify_forensic_continuity check_verified check_recovered check_links
continuous = refl

verify_forensic_continuity_reconstructs_example :
    (r : RecoveryEvidence) × (v : PostRecoveryVerification) × IsContinuous incident r v
    × (((reconstruct_security_state incident ("e1" ∷ [])).complete ≡ true)
        ↔ IsCovered (identities incident.evidence_refs) ("e1" ∷ []))
    × (((reconstruct_security_state incident ("e1" ∷ [])).complete ≡ true)
        → (elem r.evidence_ref.identity ("e1" ∷ []) ≡ true)
          × IsCovered (identities v.evidence_refs) ("e1" ∷ []))
verify_forensic_continuity_reconstructs_example =
    verify_forensic_continuity_reconstructs incident ("e1" ∷ []) continuous

-- The last two are in one zone: the second of them is earlier in UTC, and later by the wall clock.
abbrev entries : List Entry
entries =
    (detected, aware 1)
    ∷ (preserved, aware 1)
    ∷ (contained, zoned "America/New_York" 7 9)
    ∷ (reverified, zoned "America/New_York" 8 5)
    ∷ []

check_timeline_iff_example :
    (check_timeline "i" entries ≡ ok tt) ↔ ((is_blank "i" ≡ false) × IsOrdered entries)
check_timeline_iff_example = check_timeline_iff "i" entries

-- the run of the check itself
timeline_passes : check_timeline "i" entries ≡ ok tt
unfolding check_timeline is_blank is_before
timeline_passes = refl
