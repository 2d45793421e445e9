-- ===== src/Lifecycle.antt =====
-- Retention, disclosure and deletion of data objects: src/statewake/domain/data_lifecycle.py. The
-- sensitivity texts of policies and objects are read into `Sensitivity` as the source's validation
-- reads them; `isoformat` of an instant is left as the instant.
pub mod Deletion
pub mod Disclosure
mod Tests
use state_wake.Base.{
  ℕ, String, ◌<>◌, Bool, true, false, not, ◌&&◌, ◌||◌, Option, none, some, List, [], ◌∷◌, ◌++◌,
  is_blank, is_sha256, any, sorted, leb, value_error, Result, Check, ok, err, ◌>>=◌, ◌>>◌, raise_if,
  if◌then◌else◌, Datetime, is_naive, instant, add_days,
}
use state_wake.Sensitivity.{Sensitivity, rank, validate_sensitivity}

pub record DataLifecyclePolicy : Type 0 where
  pub policy_id : String
  pub purpose : String
  -- no negative number of days is a policy
  pub max_retention_days : Option ℕ
  pub storage_max_sensitivity : Sensitivity
  pub telemetry_max_sensitivity : Sensitivity
  pub disclosure_max_sensitivity : Sensitivity
  pub encryption_at_rest_required : Bool
  pub tls_required : Bool

-- DataLifecyclePolicy.__post_init__, given the three texts
pub make_policy :
    String → String → Option ℕ → String → String → String → Bool → Bool → Result DataLifecyclePolicy
make_policy policy_id purpose days storage telemetry disclosure encryption tls = do
  raise_if (is_blank policy_id || is_blank purpose)
      (value_error "policy_id and purpose must not be empty.")
  storage_max ← validate_sensitivity "storage_max_sensitivity" storage
  telemetry_max ← validate_sensitivity "telemetry_max_sensitivity" telemetry
  disclosure_max ← validate_sensitivity "disclosure_max_sensitivity" disclosure
  ok (record {
    policy_id = policy_id;
    purpose = purpose;
    max_retention_days = days;
    storage_max_sensitivity = storage_max;
    telemetry_max_sensitivity = telemetry_max;
    disclosure_max_sensitivity = disclosure_max;
    encryption_at_rest_required = encryption;
    tls_required = tls;
  })

pub record DataLifecycleDecision : Type 0 where
  pub object_id : String
  pub sensitivity : Sensitivity
  pub policy_id : String
  pub retain_until : Option ℕ
  pub expired : Bool
  pub storage_allowed : Bool
  pub telemetry_allowed : Bool
  pub disclosure_allowed : Bool
  pub deletion_allowed : Bool
  pub reasons : List String

-- `if b: reasons.append(text)`
abbrev reason_if : Bool → String → List String
reason_if true text = text ∷ []
reason_if false text = []

-- the retention part: retain_until, expired, and its reasons
unfoldable pub retention_window : Option ℕ → ℕ → ℕ → Result (Option ℕ × Bool × List String)
retention_window none created now = ok (none, false, "no maximum retention is configured" ∷ [])
retention_window (some days) created now = do
  eligible ← add_days created days
  let expired = leb eligible now
  ok (some eligible, expired, reason_if (not expired) "retention window has not expired")

pub assess_data_lifecycle :
    String
    → String
    → Datetime
    → DataLifecyclePolicy
    → Datetime
    → Bool
    → Result DataLifecycleDecision
unfolding retention_window
assess_data_lifecycle object_id sensitivity created_at policy now legal_hold = do
  raise_if (is_blank object_id) (value_error "object_id must not be empty.")
  level ← validate_sensitivity "sensitivity" sensitivity
  raise_if (is_naive created_at || is_naive now)
      (value_error "created_at and now must be timezone-aware.")
  window ← retention_window policy.max_retention_days (instant created_at) (instant now)
  let storage_allowed = leb (rank level) (rank policy.storage_max_sensitivity)
  let telemetry_allowed = leb (rank level) (rank policy.telemetry_max_sensitivity)
  let disclosure_allowed = leb (rank level) (rank policy.disclosure_max_sensitivity)
  ok (record {
    object_id = object_id;
    sensitivity = level;
    policy_id = policy.policy_id;
    retain_until = window.0;
    expired = window.1;
    storage_allowed = storage_allowed;
    telemetry_allowed = telemetry_allowed;
    disclosure_allowed = disclosure_allowed;
    deletion_allowed = window.1 && not legal_hold;
    reasons =
        reason_if (not storage_allowed) "sensitivity exceeds storage policy ceiling"
        ++ reason_if (not telemetry_allowed) "sensitivity excluded from telemetry"
        ++ reason_if (not disclosure_allowed) "sensitivity excluded from disclosure"
        ++ window.2
        ++ reason_if legal_hold "legal hold blocks deletion";
  })

pub record DeletionRecord : Type 0 where
  pub object_id : String
  pub digest : String
  pub sensitivity : Sensitivity
  pub deleted_at : ℕ
  pub policy_id : String
  pub reason : String
  pub derived_from : List String

-- DeletionRecord.__post_init__, given the text of the sensitivity; the text of an instant is never blank
make_deletion_record :
    String → String → String → ℕ → String → String → List String → Result DeletionRecord
make_deletion_record object_id digest sensitivity deleted_at policy_id reason derived_from = do
  raise_if (is_blank object_id || is_blank reason || is_blank policy_id)
      (value_error "object_id, policy_id, and reason must not be empty.")
  raise_if (not (is_sha256 digest)) (value_error "digest must be lowercase SHA-256 hex.")
  level ← validate_sensitivity "sensitivity" sensitivity
  raise_if (any is_blank derived_from) (value_error "derived_from must not contain blank values.")
  ok (record {
    object_id = object_id;
    digest = digest;
    sensitivity = level;
    deleted_at = deleted_at;
    policy_id = policy_id;
    reason = reason;
    derived_from = derived_from;
  })

pub build_deletion_record :
    String → String → String → Datetime → String → String → List String → Result DeletionRecord
unfolding make_deletion_record
build_deletion_record object_id digest sensitivity deleted_at policy_id reason derived_from = do
  raise_if (is_naive deleted_at) (value_error "deleted_at must be timezone-aware.")
  make_deletion_record object_id digest sensitivity (instant deleted_at) policy_id reason
      derived_from

-- The loop over the objects, with the selection of `filter_disclosable_ids`: the identifiers whose
-- sensitivity is within the rank, once every object has been validated.
unfoldable pub disclosable : ℕ → List (String × String) → Result (List String)
disclosable allowed_rank [] = ok []
disclosable allowed_rank ((object_id, sensitivity) ∷ rest) = do
  raise_if (is_blank object_id) (value_error "object identifiers must not be empty.")
  level ← validate_sensitivity "object sensitivity" sensitivity
  selected ← disclosable allowed_rank rest
  ok (if leb (rank level) allowed_rank then object_id ∷ selected else selected)

pub filter_disclosable_ids : List (String × String) → String → Result (List String)
unfolding disclosable
filter_disclosable_ids object_sensitivities max_sensitivity = do
  maximum ← validate_sensitivity "max_sensitivity" max_sensitivity
  selected ← disclosable (rank maximum) object_sensitivities
  ok (sorted selected)
