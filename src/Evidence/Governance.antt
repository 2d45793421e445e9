-- ===== src/Evidence/Governance.antt =====
-- src/statewake/domain/governance.py: which evidence may be stored, and which may go to telemetry.
pub mod Laws
use state_wake.Base.{
  ℕ, String, ◌<>◌, Bool, true, false, not, ◌&&◌, ◌||◌, Option, none, some, List, [], ◌∷◌, ◌++◌, map,
  filter, any, sorted, is_nil, is_blank, is_empty, ltb, leb, ◌==◌, value_error, Result, Check, ok,
  err, ◌>>=◌, ◌>>◌, raise_if, if◌then◌else◌,
}
use state_wake.Sensitivity.{Sensitivity, rank, validate_sensitivity}
use state_wake.Evidence.{EvidenceItem, EvidenceManifest, evidence_ids, check_manifest}

pub record EvidenceGovernancePolicy : Type 0 where
  pub policy_id : String
  pub storage_max_sensitivity : Sensitivity
  pub telemetry_max_sensitivity : Sensitivity
  pub require_digest_for : List Sensitivity

read_sensitivities : List String → Result (List Sensitivity)
read_sensitivities [] = ok []
read_sensitivities (s ∷ rest) = do
  level ← validate_sensitivity "require_digest_for" s
  levels ← read_sensitivities rest
  ok (level ∷ levels)

-- EvidenceGovernancePolicy.__post_init__, given the texts
pub make_policy : String → String → String → List String → Result EvidenceGovernancePolicy
unfolding read_sensitivities
make_policy policy_id storage telemetry require_digest_for = do
  raise_if (is_blank policy_id) (value_error "policy_id must not be empty.")
  storage_max ← validate_sensitivity "storage_max_sensitivity" storage
  telemetry_max ← validate_sensitivity "telemetry_max_sensitivity" telemetry
  levels ← read_sensitivities require_digest_for
  ok (record {
    policy_id = policy_id;
    storage_max_sensitivity = storage_max;
    telemetry_max_sensitivity = telemetry_max;
    require_digest_for = levels;
  })

pub record EvidenceGovernanceDecision : Type 0 where
  pub policy_id : String
  pub manifest_id : String
  pub storage_allowed : Bool
  pub telemetry_allowed : Bool
  pub storage_reasons : List String
  pub telemetry_reasons : List String
  pub telemetry_visible_evidence_ids : List String

-- EvidenceGovernanceDecision.allowed
abbrev pub allowed : EvidenceGovernanceDecision → Bool
allowed d = d.storage_allowed && d.telemetry_allowed

-- `sensitivity in policy.require_digest_for`
abbrev pub is_listed : Sensitivity → List Sensitivity → Bool
is_listed s = any (λ l. rank l == rank s)

-- `not item.digest`
abbrev pub lacks_digest : Option String → Bool
lacks_digest none = true
lacks_digest (some d) = is_empty d

abbrev pub exceeds_storage : EvidenceGovernancePolicy → EvidenceItem → Bool
exceeds_storage p i = ltb (rank p.storage_max_sensitivity) (rank i.sensitivity)

abbrev pub needs_digest : EvidenceGovernancePolicy → EvidenceItem → Bool
needs_digest p i = is_listed i.sensitivity p.require_digest_for && lacks_digest i.digest

abbrev pub is_visible : EvidenceGovernancePolicy → EvidenceItem → Bool
is_visible p i = leb (rank i.sensitivity) (rank p.telemetry_max_sensitivity)

-- the reasons that the loop adds for an item; their texts name the item only
unfoldable pub storage_reasons_of : EvidenceGovernancePolicy → EvidenceItem → List String
storage_reasons_of p i =
    (if exceeds_storage p i
      then ("evidence " <> i.evidence_id <> " exceeds storage sensitivity ceiling") ∷ []
      else [])
    ++ (if needs_digest p i
        then ("evidence " <> i.evidence_id <> " requires a digest") ∷ []
        else [])

-- the loop over the items: storage reasons, telemetry reasons, and visible identifiers
unfoldable pub scan :
    EvidenceGovernancePolicy → List EvidenceItem → List String × List String × List String
scan p [] = ([], [], [])
scan p (i ∷ rest) =
    let (storage, telemetry, visible) = scan p rest in
    (
      storage_reasons_of p i ++ storage,
      (if is_visible p i
          then telemetry
          else ("evidence " <> i.evidence_id <> " is excluded from telemetry") ∷ telemetry),
      (if is_visible p i then i.evidence_id ∷ visible else visible),
    )

unfoldable pub evaluate_evidence_governance :
    EvidenceManifest → EvidenceGovernancePolicy → EvidenceGovernanceDecision
evaluate_evidence_governance m p =
    let (storage, telemetry, visible) = scan p m.items in
    record {
      policy_id = p.policy_id;
      manifest_id = m.manifest_id;
      storage_allowed = is_nil storage;
      telemetry_allowed = true;
      storage_reasons = storage;
      telemetry_reasons = telemetry;
      telemetry_visible_evidence_ids = sorted visible;
    }

unfoldable pub project_manifest_for_telemetry :
    EvidenceManifest → EvidenceGovernancePolicy → Result EvidenceManifest
project_manifest_for_telemetry m p = do
  let projected = record m { items = filter (is_visible p) m.items }
  check_manifest projected
  ok projected
