-- ===== src/Keys/Tests.antt =====
-- The key theorems at concrete keys: one that is rotated and then revoked, and a new profile.
use state_wake.Base.{
  ◌≡◌, ◌≢◌, ◌⊎◌, ◌↔◌, ◌≤◌, ◌<◌, refl, true, false, none, some, [], ◌∷◌, ok, is_blank, is_some,
  text_functions,
}
use state_wake.Keys.{
  active, revoked, superseded, CryptographicAlgorithm, CryptographicKeyIdentity,
  CryptographicProfile, KeyLifecycleTransition, TrustMigration, check_key, check_transition,
  rotate_key, revoke_key, validate_historical_verification, validate_algorithm_transition,
}
use state_wake.Keys.Lifecycle.{
  KeyHistory, rotate, revoke, start, next, SameIdentity, KeyHistory_forward, rotate_key_iff,
  historical_after_step,
}
use state_wake.Keys.Migration.{SameContract, SameTrust, validate_algorithm_transition_iff}

abbrev ed25519 : CryptographicAlgorithm
ed25519 = record { identifier = "Ed25519"; parameters = "" }

abbrev first : CryptographicKeyIdentity
first = record {
  key_id = "k1";
  version = 1;
  algorithm = ed25519;
  public_key_digest = "0123456789abcdef0123456789abcdef0123456789abcdef0123456789abcdef";
  status = active;
  successor_key_id = none;
}

abbrev second : CryptographicKeyIdentity
second = record first { key_id = "k2"; version = 2 }

abbrev replaced : CryptographicKeyIdentity
replaced = record first { status = superseded; successor_key_id = some "k2" }

abbrev gone : CryptographicKeyIdentity
gone = record first { status = revoked }

abbrev rotation : KeyLifecycleTransition
rotation = record {
  from_key_id = "k1";
  to_key_id = "k2";
  event = superseded;
  rationale = "yearly";
  authority = "ops";
}

abbrev revocation : KeyLifecycleTransition
revocation = record {
  from_key_id = "k1";
  to_key_id = "k1";
  event = revoked;
  rationale = "leak";
  authority = "ops";
}

first-check : check_key first ≡ ok tt
unfolding check_key text_functions
first-check = refl

second-check : check_key second ≡ ok tt
unfolding check_key text_functions
second-check = refl

rotated : rotate_key first second "ops" "yearly" ≡ ok (replaced, second, rotation)
unfolding rotate_key check_key check_transition text_functions
rotated = refl

then_revoked : revoke_key replaced "ops" "leak" ≡ ok (gone, revocation)
unfolding revoke_key check_key check_transition text_functions
then_revoked = refl

abbrev history : KeyHistory first gone
history =
    next (next start (rotate second "ops" "yearly" rotation rotated))
      (revoke "ops" "leak" revocation then_revoked)

KeyHistory_forward_example : (check_key gone ≡ ok tt) × SameIdentity first gone × (0 ≤ 2)
KeyHistory_forward_example = KeyHistory_forward first gone first-check history

rotate_key_iff_example :
    (((result : CryptographicKeyIdentity × CryptographicKeyIdentity × KeyLifecycleTransition)
        × (rotate_key first second "ops" "yearly" ≡ ok result))
      ↔ ((first.status ≡ active)
          × (second.status ≡ active)
          × (second.key_id ≢ "k1")
          × (second.algorithm ≡ ed25519)
          × (1 < second.version)
          × (is_blank "yearly" ≡ false)
          × (is_blank "ops" ≡ false)))
    × ((result : CryptographicKeyIdentity × CryptographicKeyIdentity × KeyLifecycleTransition)
        → rotate_key first second "ops" "yearly" ≡ ok result
        → result ≡ (replaced, second, rotation))
rotate_key_iff_example = rotate_key_iff first second "ops" "yearly" first-check second-check

abbrev old_profile : CryptographicProfile
old_profile = record {
  proof_schema_version = "1";
  canonicalization_version = "1";
  digest_algorithm = record { identifier = "sha256"; parameters = "" };
  signature_algorithm = ed25519;
  trust_policy_version = "1";
  verifier_compatibility = "v1" ∷ [];
}

historical_after_step_example :
    (validate_historical_verification replaced old_profile ≡ ok tt)
    ↔ (first.algorithm.identifier ≡ "Ed25519")
historical_after_step_example =
    historical_after_step first replaced old_profile first-check
      (rotate second "ops" "yearly" rotation rotated)

validate_algorithm_transition_iff_example :
    (validate_algorithm_transition old_profile
        (record old_profile { canonicalization_version = "2" })
        none
      ≡ ok tt)
    ↔ ((¬ SameContract old_profile (record old_profile { canonicalization_version = "2" }))
        × (old_profile.proof_schema_version ≡ "1" → old_profile.canonicalization_version ≡ "2")
        × ((is_some {A = TrustMigration} none ≡ true)
            ⊎ SameTrust old_profile (record old_profile { canonicalization_version = "2" })))
validate_algorithm_transition_iff_example =
    validate_algorithm_transition_iff old_profile
      (record old_profile { canonicalization_version = "2" }) none
