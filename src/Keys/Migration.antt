-- ===== src/Keys/Migration.antt =====
-- When a change of cryptographic profile is accepted.
use state_wake.Base.{
  ◌||◌, ◌⊎◌, Bool-cases, not, ok, Option, inl, inr, is_some, refl, true, false, Bool, ◌≡◌, ◌↔◌,
  eq_iff, arith, ◌&&◌, ◌=ₛ◌,
}
use state_wake.Keys.{
  TrustMigration, validate_algorithm_transition, CryptographicProfile, CryptographicAlgorithm,
  algorithm_eq,
}

-- what the two profiles have in common
pub record SameContract (old new : CryptographicProfile) : Type 0 where
  pub schema : old.proof_schema_version ≡ new.proof_schema_version
  pub canonicalization : old.canonicalization_version ≡ new.canonicalization_version
  pub digest : old.digest_algorithm ≡ new.digest_algorithm
  pub signature : old.signature_algorithm ≡ new.signature_algorithm
  pub policy : old.trust_policy_version ≡ new.trust_policy_version

-- what the trust migration has to cover
pub record SameTrust (old new : CryptographicProfile) : Type 0 where
  pub digest : old.digest_algorithm ≡ new.digest_algorithm
  pub signature : old.signature_algorithm ≡ new.signature_algorithm
  pub policy : old.trust_policy_version ≡ new.trust_policy_version

algorithm_eq_iff : (a b : CryptographicAlgorithm) → (algorithm_eq a b ≡ true) ↔ (a ≡ b)
algorithm_eq_iff a b = (
  λ h. ground (arith, eq_iff a.identifier b.identifier, eq_iff a.parameters b.parameters),
  λ h. ground (arith, eq_iff a.identifier b.identifier, eq_iff a.parameters b.parameters),
)

module _ (old new : CryptographicProfile) where
  abbrev schema? : Bool
  schema? = old.proof_schema_version =ₛ new.proof_schema_version

  abbrev canonicalization? : Bool
  canonicalization? = old.canonicalization_version =ₛ new.canonicalization_version

  abbrev digest? : Bool
  digest? = algorithm_eq old.digest_algorithm new.digest_algorithm

  abbrev signature? : Bool
  signature? = algorithm_eq old.signature_algorithm new.signature_algorithm

  abbrev policy? : Bool
  policy? = old.trust_policy_version =ₛ new.trust_policy_version

  SameTrust-iff : ((digest? && signature? && policy?) ≡ true) ↔ SameTrust old new
  SameTrust-iff = (
    λ h. record {
      digest = (algorithm_eq_iff _ _).0 (ground arith);
      signature = (algorithm_eq_iff _ _).0 (ground arith);
      policy = (eq_iff _ _).0 (ground arith);
    },
    λ s. ground (
      arith,
      (algorithm_eq_iff _ _).1 s.digest,
      (algorithm_eq_iff _ _).1 s.signature,
      (eq_iff _ _).1 s.policy,
    ),
  )

  SameContract-iff :
      ((schema? && canonicalization? && digest? && signature? && policy?) ≡ true)
      ↔ SameContract old new
  SameContract-iff = (
    λ h. record {
      schema = (eq_iff _ _).0 (ground arith);
      canonicalization = (eq_iff _ _).0 (ground arith);
      digest = (algorithm_eq_iff _ _).0 (ground arith);
      signature = (algorithm_eq_iff _ _).0 (ground arith);
      policy = (eq_iff _ _).0 (ground arith);
    },
    λ s. ground (
      arith,
      (eq_iff _ _).1 s.schema,
      (eq_iff _ _).1 s.canonicalization,
      (algorithm_eq_iff _ _).1 s.digest,
      (algorithm_eq_iff _ _).1 s.signature,
      (eq_iff _ _).1 s.policy,
    ),
  )

  accepted_iff :
      (m : Option TrustMigration)
      → (validate_algorithm_transition old new m ≡ ok tt) ↔ (
          (not (schema? && canonicalization? && digest? && signature? && policy?)
            && (not schema? || canonicalization?)
            && (is_some m || (digest? && signature? && policy?)))
          ≡ true)
  unfolding validate_algorithm_transition
  accepted_iff m = (λ h. ground arith, λ h. ground arith)

-- A change of profile is accepted exactly when the proof schema, the canonicalization, the digest
-- algorithm, the signature algorithm or the trust policy differs (the compatible verifiers are not
-- compared), the canonicalization is the same where the proof schema is, and a migration is given
-- unless both algorithms and the trust policy are the same.
pub validate_algorithm_transition_iff :
    (old new : CryptographicProfile) (m : Option TrustMigration)
    → (validate_algorithm_transition old new m ≡ ok tt) ↔ (
        (¬ SameContract old new)
        × (old.proof_schema_version ≡ new.proof_schema_version
            → old.canonicalization_version ≡ new.canonicalization_version)
        × ((is_some m ≡ true) ⊎ SameTrust old new))
validate_algorithm_transition_iff old new m =
    let (to, from) = accepted_iff old new m in
    let schema = eq_iff old.proof_schema_version new.proof_schema_version in
    let canon = eq_iff old.canonicalization_version new.canonicalization_version in
    let trust = SameTrust-iff old new in
    let same = SameContract-iff old new in
    (
      λ h. (
        λ s. ground (arith, to h, same.1 s),
        λ s. ground (arith, to h, schema.1 s),
        elim (Bool-cases (is_some m)) [
          | inl given ↦ inl given
          | inr missing ↦ inr (trust.0 (ground (arith, to h)))
        ],
      ),
      λ p. from (ground (arith, differs _ same.0 p.0, p.1, schema, canon, covered trust.1 p.2)),
    )
  where
    differs : (b : Bool) {P : Type 0} → (b ≡ true → P) → ¬ P → b ≡ false
    differs true f n = absurd (n (f refl))
    differs false f n = refl

    covered : {b : Bool} {P : Type 0} {Q : Type 0} → (Q → b ≡ true) → P ⊎ Q → P ⊎ (b ≡ true)
    covered f (inl p) = inl p
    covered f (inr q) = inr (f q)
