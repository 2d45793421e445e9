-- ===== src/Operations.antt =====
-- Operational bundles: src/statewake/domain/operations.py. The sensitivity texts of a policy and of an
-- artifact are kept, as `inherit_sensitivity` reads them; identities by SHA-256 and the archive
-- writer are not modelled.
pub mod Bundle
pub mod Retention
mod Tests
use state_wake.Base.{
  ◌==◌, ℕ, String, ◌<>◌, Bool, true, false, not, ◌&&◌, ◌||◌, Option, none, some, List, [], ◌∷◌,
  ◌=ₛ◌, is_blank, is_sha256, is_empty, is_nil, any, elem, is_distinct, map, starts_with,
  split_slash, forward_slashes, ltb, leb, value_error, key_error, Result, Check, ok, err, ◌>>=◌,
  ◌>>◌, raise_if, if◌then◌else◌, Datetime, is_naive, instant, add_days, length, sorted,
}
use state_wake.Sensitivity.{Sensitivity, rank, validate_sensitivity, inherit_sensitivity}

pub record RetentionPolicy : Type 0 where
  pub policy_id : String
  pub max_age_days : Option ℕ
  pub max_sensitivity : Sensitivity

-- RetentionPolicy.__post_init__, given the text of the sensitivity
pub make_retention_policy : String → Option ℕ → String → Result RetentionPolicy
make_retention_policy policy_id max_age_days max_sensitivity = do
  raise_if (is_blank policy_id) (value_error "policy_id must not be empty.")
  level ← validate_sensitivity "max_sensitivity" max_sensitivity
  ok (record { policy_id = policy_id; max_age_days = max_age_days; max_sensitivity = level })

pub record OperationalArtifact : Type 0 where
  pub artifact_id : String
  pub path : String
  pub kind : String
  pub sha256 : String
  pub size_bytes : ℕ
  pub sensitivity : String
  pub derived_from : List String

-- the identifier, with forward slashes
bad_artifact_id : String → Bool
bad_artifact_id artifact_id =
    is_blank artifact_id
    || starts_with artifact_id "/"
    || not (length (split_slash artifact_id) == 1)
    || artifact_id =ₛ "."
    || artifact_id =ₛ ".."

bad_path : String → Bool
bad_path path = is_blank path || starts_with path "/" || elem ".." (split_slash path)

-- OperationalArtifact.__post_init__; no size is negative
unfoldable pub check_artifact : OperationalArtifact → Check
unfolding bad_artifact_id bad_path
check_artifact a = do
  raise_if (bad_artifact_id (forward_slashes a.artifact_id))
      (value_error "artifact_id must be a single relative path component.")
  raise_if (bad_path (forward_slashes a.path))
      (value_error "artifact path must be relative and must not contain '..'.")
  raise_if (is_blank a.kind) (value_error "kind must not be empty.")
  raise_if (not (is_sha256 a.sha256))
      (value_error "sha256 must be a lowercase SHA-256 hexadecimal string.")
  level ← validate_sensitivity "sensitivity" a.sensitivity
  raise_if (any is_blank a.derived_from) (value_error "derived_from must not contain blank values.")

pub record OperationalBundle : Type 0 where
  pub bundle_id : String
  pub manifest_id : String
  pub agent_name : String
  pub engine_version : String
  pub created_at : Datetime
  pub artifacts : List OperationalArtifact
  pub retention_policy : Option RetentionPolicy

abbrev pub artifact_ids : List OperationalArtifact → List String
artifact_ids = map (λ a. a.artifact_id)

-- `by_id[source].sensitivity`, the identifiers being distinct
abbrev pub find_sensitivity : List OperationalArtifact → String → Option String
find_sensitivity [] source = none
find_sensitivity (a ∷ rest) source =
    if a.artifact_id =ₛ source then some a.sensitivity else find_sensitivity rest source

abbrev pub sensitivity_of : List OperationalArtifact → String → Result String
sensitivity_of artifacts source = elim (find_sensitivity artifacts source) [
  | some s ↦ ok s
  | none ↦ err (key_error source)
]

unfoldable pub sensitivities_of : List OperationalArtifact → List String → Result (List String)
sensitivities_of artifacts [] = ok []
sensitivities_of artifacts (source ∷ rest) = do
  s ← sensitivity_of artifacts source
  ss ← sensitivities_of artifacts rest
  ok (s ∷ ss)

-- the part of the loop about what an artifact inherits
unfoldable pub check_inherited : List OperationalArtifact → OperationalArtifact → Check
check_inherited artifacts item = if is_nil item.derived_from then ok tt else do
  sources ← sensitivities_of artifacts item.derived_from
  inherited ← inherit_sensitivity sources none false
  level ← validate_sensitivity "sensitivity" item.sensitivity
  raise_if (ltb (rank level) (rank inherited))
      (value_error "artifact sensitivity is lower than inherited source sensitivity")

-- the body of the loop of OperationalBundle.__post_init__
unfoldable pub check_provenance : List OperationalArtifact → OperationalArtifact → Check
check_provenance artifacts item = do
  raise_if (any (λ source. not (elem source (artifact_ids artifacts))) item.derived_from)
      (value_error ("artifact " <> item.artifact_id <> " references unknown provenance"))
  check_inherited artifacts item

unfoldable pub check_all_provenance : List OperationalArtifact → List OperationalArtifact → Check
check_all_provenance artifacts [] = ok tt
check_all_provenance artifacts (item ∷ rest) = do
  check_provenance artifacts item
  check_all_provenance artifacts rest

-- OperationalBundle.__post_init__
unfoldable pub check_bundle : OperationalBundle → Check
unfolding check_all_provenance
check_bundle b = do
  raise_if (is_blank b.bundle_id) (value_error "bundle_id must not be empty.")
  raise_if (is_blank b.manifest_id) (value_error "manifest_id must not be empty.")
  raise_if (is_blank b.agent_name) (value_error "agent_name must not be empty.")
  raise_if (is_blank b.engine_version) (value_error "engine_version must not be empty.")
  raise_if (is_naive b.created_at) (value_error "created_at must be timezone-aware.")
  raise_if (not (is_distinct (artifact_ids b.artifacts)))
      (value_error "artifact IDs must be unique.")
  check_all_provenance b.artifacts b.artifacts

pub data RetentionState : Type 0 where
  retain quarantine expired : RetentionState

pub record RetentionDecision : Type 0 where
  pub bundle_id : String
  pub policy_id : String
  pub state : RetentionState
  pub eligible_at : Option ℕ

-- the artifacts above the ceiling; the constructor of an artifact has validated its sensitivity
unfoldable pub above_ceiling : ℕ → List OperationalArtifact → Result (List String)
above_ceiling maximum [] = ok []
above_ceiling maximum (a ∷ rest) = do
  level ← validate_sensitivity "sensitivity" a.sensitivity
  above ← above_ceiling maximum rest
  ok (if ltb maximum (rank level) then a.artifact_id ∷ above else above)

-- the part of `assess_retention` about the age, once no artifact is above the ceiling
unfoldable pub assess_age :
    OperationalBundle → RetentionPolicy → Datetime → Option ℕ → Result RetentionDecision
assess_age bundle policy as_of none = ok (record {
  bundle_id = bundle.bundle_id;
  policy_id = policy.policy_id;
  state = retain;
  eligible_at = none;
})
assess_age bundle policy as_of (some days) = do
  eligible ← add_days (instant bundle.created_at) days
  ok (record {
    bundle_id = bundle.bundle_id;
    policy_id = policy.policy_id;
    state = if leb eligible (instant as_of) then expired else retain;
    eligible_at = some eligible;
  })

-- the branches of `assess_retention`, given the artifacts above the ceiling
unfoldable pub assess_above :
    OperationalBundle → RetentionPolicy → Datetime → List String → Result RetentionDecision
unfolding assess_age
assess_above bundle policy as_of above =
    let aged = assess_age bundle policy as_of policy.max_age_days in
    if is_nil bundle.artifacts
    then ok (record {
      bundle_id = bundle.bundle_id;
      policy_id = policy.policy_id;
      state = retain;
      eligible_at = none;
    })
    else if not (is_nil above)
    then ok (record {
      bundle_id = bundle.bundle_id;
      policy_id = policy.policy_id;
      state = quarantine;
      eligible_at = none;
    })
    else aged

-- the decision without its reason, a text
unfoldable pub assess_retention :
    OperationalBundle → RetentionPolicy → Datetime → Result RetentionDecision
unfolding above_ceiling assess_above
assess_retention bundle policy as_of = do
  raise_if (is_naive as_of) (value_error "as_of must be timezone-aware.")
  above ← above_ceiling (rank policy.max_sensitivity) bundle.artifacts
  assess_above bundle policy as_of above
