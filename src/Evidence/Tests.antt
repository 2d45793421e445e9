-- ===== src/Evidence/Tests.antt =====
-- The theorem on the governance of evidence, at a manifest of which one item is kept from telemetry.
use state_wake.Base.{is_blank, ◌≡◌, ◌↔◌, refl, String, true, none, some, [], ◌∷◌, ok, elem}
use state_wake.Sensitivity.{Sensitivity, public_level, internal, restricted}
use state_wake.Evidence.{EvidenceItem, EvidenceManifest, evidence_ids, check_manifest}
use state_wake.Evidence.Governance.{
  EvidenceGovernancePolicy, evaluate_evidence_governance, project_manifest_for_telemetry,
}
use state_wake.Evidence.Governance.Laws.{
  IsStorable, IsProjection, evaluate_evidence_governance-project,
}

abbrev item : String → Sensitivity → EvidenceItem
item id level = record {
  evidence_id = id;
  source = "tool";
  digest = some "d";
  content_ref = none;
  metadata = [];
  sensitivity = level;
}

abbrev manifest : EvidenceManifest
manifest = record {
  manifest_id = "m";
  run_id = "r";
  items = item "e1" internal ∷ item "e2" restricted ∷ item "e3" public_level ∷ [];
}

abbrev policy : EvidenceGovernancePolicy
policy = record {
  policy_id = "p";
  storage_max_sensitivity = restricted;
  telemetry_max_sensitivity = internal;
  require_digest_for = restricted ∷ [];
}

evaluate_evidence_governance-project_example :
    (((evaluate_evidence_governance manifest policy).storage_allowed ≡ true)
      ↔ IsStorable policy manifest.items)
    × ((projected : EvidenceManifest) × (project_manifest_for_telemetry manifest policy
          ≡ ok projected)
        × (projected.manifest_id ≡ "m")
        × (projected.run_id ≡ "r")
        × IsProjection internal manifest.items projected.items
        × ((x : String)
            → elem x (evaluate_evidence_governance manifest policy).telemetry_visible_evidence_ids
              ≡ elem x (evidence_ids projected.items)))
unfolding check_manifest is_blank
evaluate_evidence_governance-project_example =
    evaluate_evidence_governance-project manifest policy refl
