-- ===== src/Evidence.antt =====
-- Evidence manifests and the decisions on where evidence may go: src/statewake/domain/evidence.py and
-- src/statewake/domain/governance.py. Sensitivities are read as the validation reads them.
pub mod Governance
mod Tests
use state_wake.Base.{
  String, Bool, true, false, not, ◌&&◌, Option, none, some, List, [], ◌∷◌, map, is_blank,
  is_distinct, is_some, value_error, Result, Check, ok, err, ◌>>=◌, ◌>>◌, raise_if,
}
use state_wake.Sensitivity.{Sensitivity, validate_sensitivity}

pub record EvidenceItem : Type 0 where
  pub evidence_id : String
  pub source : String
  pub digest : Option String
  pub content_ref : Option String
  pub metadata : List (String × String)
  pub sensitivity : Sensitivity

-- EvidenceItem.__post_init__, given the text of the sensitivity
pub make_item :
    String
    → String
    → Option String
    → Option String
    → List (String × String)
    → String
    → Result EvidenceItem
make_item evidence_id source digest content_ref metadata sensitivity = do
  raise_if (is_blank evidence_id) (value_error "evidence_id must not be empty.")
  raise_if (is_blank source) (value_error "source must not be empty.")
  raise_if (not (is_some digest) && not (is_some content_ref))
      (value_error "Evidence must have a digest or content_ref.")
  level ← validate_sensitivity "sensitivity" sensitivity
  ok (record {
    evidence_id = evidence_id;
    source = source;
    digest = digest;
    content_ref = content_ref;
    metadata = metadata;
    sensitivity = level;
  })

pub record EvidenceManifest : Type 0 where
  pub manifest_id : String
  pub run_id : String
  pub items : List EvidenceItem

abbrev pub evidence_ids : List EvidenceItem → List String
evidence_ids = map (λ i. i.evidence_id)

-- EvidenceManifest.__post_init__
unfoldable pub check_manifest : EvidenceManifest → Check
check_manifest m = do
  raise_if (is_blank m.manifest_id) (value_error "manifest_id must not be empty.")
  raise_if (is_blank m.run_id) (value_error "run_id must not be empty.")
  raise_if (not (is_distinct (evidence_ids m.items)))
      (value_error "Evidence IDs must be unique within a manifest.")
