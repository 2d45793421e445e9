-- ===== src/Keys.antt =====
-- src/statewake/domain/cryptographic_trust.py: key identities, their lifecycle, and the migration
-- of cryptographic profiles. Versions are positive in the source, so they are naturals here.
pub mod Lifecycle
pub mod Migration
pub mod Formats
mod Tests
use state_wake.Base.{
  ℕ, zero, suc, String, Bool, true, false, not, ◌&&◌, ◌||◌, Option, none, some, List, [], ◌∷◌, ◌=ₛ◌,
  has_line_break, is_blank, is_sha256, any, is_nil, elem, is_some, leb, ◌==◌, value_error, Result,
  Check, ok, err, ◌>>=◌, ◌>>◌, raise_if, if◌then◌else◌,
}

pub data KeyStatus : Type 0 where
  active retired revoked superseded : KeyStatus

-- `a is b` on statuses
abbrev pub status_eq : KeyStatus → KeyStatus → Bool
status_eq active active = true
status_eq retired retired = true
status_eq revoked revoked = true
status_eq superseded superseded = true
status_eq _ _ = false

pub record CryptographicAlgorithm : Type 0 where
  pub identifier : String
  pub parameters : String

-- CryptographicAlgorithm.__post_init__
pub check_algorithm : CryptographicAlgorithm → Check
check_algorithm a = do
  raise_if (is_blank a.identifier) (value_error "algorithm identifier must not be empty.")
  raise_if (has_line_break a.identifier) (value_error "algorithm identifier must be single-line.")

-- the constructor: a value that `__post_init__` accepts
pub make_algorithm : String → String → Result CryptographicAlgorithm
unfolding check_algorithm
make_algorithm identifier parameters = do
  let a : CryptographicAlgorithm = record { identifier = identifier; parameters = parameters }
  check_algorithm a
  ok a

-- the equality that the dataclass derives
abbrev pub algorithm_eq : CryptographicAlgorithm → CryptographicAlgorithm → Bool
algorithm_eq a b = (a.identifier =ₛ b.identifier) && (a.parameters =ₛ b.parameters)

pub record CryptographicKeyIdentity : Type 0 where
  pub key_id : String
  pub version : ℕ
  pub algorithm : CryptographicAlgorithm
  pub public_key_digest : String
  pub status : KeyStatus
  pub successor_key_id : Option String

-- `(value or "").strip()` is empty
abbrev pub is_absent : Option String → Bool
is_absent none = true
is_absent (some s) = is_blank s

-- CryptographicKeyIdentity.__post_init__
unfoldable pub check_key : CryptographicKeyIdentity → Check
check_key k = do
  raise_if (is_blank k.key_id) (value_error "key_id must not be empty.")
  raise_if (k.version == 0) (value_error "key version must be >= 1.")
  raise_if (not (is_sha256 k.public_key_digest))
      (value_error "public_key_digest must be lowercase SHA-256 hex.")
  raise_if (status_eq k.status superseded && is_absent k.successor_key_id)
      (value_error "superseded key must identify a successor key.")
  raise_if (not (status_eq k.status superseded) && is_some k.successor_key_id)
      (value_error "only superseded keys may identify successor_key_id.")

-- the constructor: a value that `__post_init__` accepts
pub make_key : CryptographicKeyIdentity → Result CryptographicKeyIdentity
make_key k = do check_key k; ok k

pub record CryptographicProfile : Type 0 where
  pub proof_schema_version : String
  pub canonicalization_version : String
  pub digest_algorithm : CryptographicAlgorithm
  pub signature_algorithm : CryptographicAlgorithm
  pub trust_policy_version : String
  pub verifier_compatibility : List String

-- CryptographicProfile.__post_init__
unfoldable pub check_profile : CryptographicProfile → Check
check_profile p = do
  raise_if (is_blank p.proof_schema_version) (value_error "proof_schema_version must not be empty.")
  raise_if (is_blank p.canonicalization_version)
      (value_error "canonicalization_version must not be empty.")
  raise_if (is_blank p.trust_policy_version) (value_error "trust_policy_version must not be empty.")
  raise_if (is_nil p.verifier_compatibility)
      (value_error "verifier_compatibility must not be empty.")
  raise_if (any is_blank p.verifier_compatibility)
      (value_error "verifier compatibility identifiers must not be empty.")

pub record KeyLifecycleTransition : Type 0 where
  pub from_key_id : String
  pub to_key_id : String
  pub event : KeyStatus
  pub rationale : String
  pub authority : String

-- KeyLifecycleTransition.__post_init__
unfoldable pub check_transition : KeyLifecycleTransition → Check
check_transition t = do
  raise_if (is_blank t.from_key_id) (value_error "from_key_id must not be empty.")
  raise_if (is_blank t.to_key_id) (value_error "to_key_id must not be empty.")
  raise_if (is_blank t.rationale) (value_error "rationale must not be empty.")
  raise_if (is_blank t.authority) (value_error "authority must not be empty.")
  raise_if (status_eq t.event active)
      (value_error "key transition event must be retired, revoked, or superseded.")

pub make_transition : KeyLifecycleTransition → Result KeyLifecycleTransition
make_transition t = do check_transition t; ok t

pub record TrustMigration : Type 0 where
  pub migration_id : String
  pub from_root_id : String
  pub from_root_version : ℕ
  pub to_root_id : String
  pub to_root_version : ℕ
  pub transition_authority : String
  pub activation_boundary : String
  pub verification_policy_version : String

-- TrustMigration.__post_init__
unfoldable pub check_migration : TrustMigration → Check
check_migration m = do
  raise_if (is_blank m.migration_id) (value_error "migration_id must not be empty.")
  raise_if (is_blank m.from_root_id) (value_error "from_root_id must not be empty.")
  raise_if (is_blank m.to_root_id) (value_error "to_root_id must not be empty.")
  raise_if (is_blank m.transition_authority) (value_error "transition_authority must not be empty.")
  raise_if (is_blank m.activation_boundary) (value_error "activation_boundary must not be empty.")
  raise_if (is_blank m.verification_policy_version)
      (value_error "verification_policy_version must not be empty.")
  raise_if (m.from_root_version == 0 || m.to_root_version == 0)
      (value_error "trust-root versions must be >= 1.")
  raise_if ((m.from_root_id =ₛ m.to_root_id) && m.from_root_version == m.to_root_version)
      (value_error "trust migration must change the trust root version or identity.")

pub rotate_key :
    CryptographicKeyIdentity
    → CryptographicKeyIdentity
    → String
    → String
    → Result (CryptographicKeyIdentity × CryptographicKeyIdentity × KeyLifecycleTransition)
unfolding make_key make_transition
rotate_key current replacement authority rationale = do
  raise_if (not (status_eq current.status active))
      (value_error "only an active key may be rotated.")
  raise_if (not (status_eq replacement.status active))
      (value_error "replacement key must be active.")
  raise_if (replacement.key_id =ₛ current.key_id)
      (value_error "replacement key must have a new identity.")
  raise_if (not (algorithm_eq replacement.algorithm current.algorithm))
      (value_error "key rotation cannot silently change algorithms.")
  raise_if (leb replacement.version current.version)
      (value_error "replacement key version must increase.")
  successor ← make_key (record {
    key_id = current.key_id;
    version = current.version;
    algorithm = current.algorithm;
    public_key_digest = current.public_key_digest;
    status = superseded;
    successor_key_id = some replacement.key_id;
  })
  transition ← make_transition (record {
    from_key_id = current.key_id;
    to_key_id = replacement.key_id;
    event = superseded;
    rationale = rationale;
    authority = authority;
  })
  ok (successor, replacement, transition)

-- the record of a change that stays with one key
pub self_transition :
    CryptographicKeyIdentity → KeyStatus → String → String → KeyLifecycleTransition
self_transition k event authority rationale = record {
  from_key_id = k.key_id;
  to_key_id = k.key_id;
  event = event;
  rationale = rationale;
  authority = authority;
}

pub retire_key :
    CryptographicKeyIdentity
    → String
    → String
    → Result (CryptographicKeyIdentity × KeyLifecycleTransition)
unfolding make_key make_transition self_transition
retire_key k authority rationale = do
  raise_if (not (status_eq k.status active)) (value_error "only an active key may be retired.")
  key ← make_key (record {
    key_id = k.key_id;
    version = k.version;
    algorithm = k.algorithm;
    public_key_digest = k.public_key_digest;
    status = retired;
    successor_key_id = none;
  })
  transition ← make_transition (self_transition k retired authority rationale)
  ok (key, transition)

pub revoke_key :
    CryptographicKeyIdentity
    → String
    → String
    → Result (CryptographicKeyIdentity × KeyLifecycleTransition)
unfolding make_key make_transition self_transition
revoke_key k authority rationale =
    if status_eq k.status revoked
    then (do
      transition ← make_transition (self_transition k revoked authority rationale)
      ok (k, transition))
    else (do
      key ← make_key (record {
        key_id = k.key_id;
        version = k.version;
        algorithm = k.algorithm;
        public_key_digest = k.public_key_digest;
        status = revoked;
        successor_key_id = none;
      })
      transition ← make_transition (self_transition k revoked authority rationale)
      ok (key, transition))

pub validate_historical_verification : CryptographicKeyIdentity → CryptographicProfile → Check
validate_historical_verification k p = do
  raise_if (status_eq k.status active)
      (value_error "historical verification requires a non-active historical key.")
  raise_if (not (k.algorithm.identifier =ₛ p.signature_algorithm.identifier))
      (value_error "historical signature algorithm does not match the evidence profile.")

-- `verify` is the external verifier's check of a payload and a signature under a key.
pub verify_historical_signature {ℓ} :
    {Bytes : Type ℓ}
    → (CryptographicKeyIdentity → Bytes → Bytes → Check)
    → CryptographicKeyIdentity
    → CryptographicProfile
    → Bytes
    → Bytes
    → Check
verify_historical_signature verify k p payload signature = do
  validate_historical_verification k p
  verify k payload signature

pub validate_algorithm_transition :
    CryptographicProfile → CryptographicProfile → Option TrustMigration → Check
validate_algorithm_transition old new migration = do
  raise_if
      ((old.proof_schema_version =ₛ new.proof_schema_version)
        && ((old.canonicalization_version =ₛ new.canonicalization_version)
            && algorithm_eq old.digest_algorithm new.digest_algorithm
            && algorithm_eq old.signature_algorithm new.signature_algorithm
            && (old.trust_policy_version =ₛ new.trust_policy_version)))
      (value_error "new cryptographic profile is identical to the old profile.")
  raise_if
      (not (old.canonicalization_version =ₛ new.canonicalization_version)
        && (old.proof_schema_version =ₛ new.proof_schema_version))
      (value_error "canonicalization changes require an explicit proof-schema transition.")
  raise_if (not (old.trust_policy_version =ₛ new.trust_policy_version) && not (is_some migration))
      (value_error "trust-policy changes require an explicit trust migration.")
  raise_if
      (not (algorithm_eq old.signature_algorithm new.signature_algorithm)
        && not (is_some migration))
      (value_error "signature-algorithm changes require an explicit trust migration.")
  raise_if (not (algorithm_eq old.digest_algorithm new.digest_algorithm) && not (is_some migration))
      (value_error "digest-algorithm changes require an explicit trust migration.")
