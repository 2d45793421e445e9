-- ===== src/Incident/Continuity.antt =====
-- Forensic continuity: verify_forensic_continuity and reconstruct_security_state of
-- src/statewake/domain/security_incident.py.
use state_wake.Base.{
  ◌≤◌, String, ◌≡◌, inl, inr, ◌↔◌, refl, ◌∙◌, subst, Bool, true, false, not, ◌&&◌, Option, none,
  some, List, [], ◌∷◌, map, filter, is_nil, any, elem, elem-cons, elem_head, elem-sorted, sorted,
  leb, value_error, Check, ok, err, ◌>>◌, >>-eq-ok, raise_if, raise_if-eq-ok, Bool-cases, arith,
}
use state_wake.Incident.{
  IncidentStatus, status_order, IncidentEvidenceReference, RecoveryEvidence, applied, planned,
  failed, verified, PostRecoveryVerification, is_verified, SecurityIncidentEvidence,
}

abbrev pub is_applied : RecoveryEvidence → Bool
is_applied r = elim r.status [ applied ↦ true | planned ↦ false | failed ↦ false ]

-- `{reference.identity for reference in ...}`
abbrev pub identities : List IncidentEvidenceReference → List String
identities = map (λ r. r.identity)

-- the part of verify_forensic_continuity that looks at the evidence
unfoldable pub check_links : List String → RecoveryEvidence → PostRecoveryVerification → Check
check_links referenced recovery post_recovery = do
  raise_if (not (elem recovery.evidence_ref.identity referenced))
      (value_error "recovery evidence is outside the preserved incident set")
  raise_if (any (λ x. not (elem x referenced)) (identities post_recovery.evidence_refs)) (
      value_error
        "post-recovery verification references evidence outside the preserved incident set")

unfoldable pub check_recovered :
    List String → Option RecoveryEvidence → PostRecoveryVerification → Check
check_recovered referenced none post_recovery =
    err (value_error "applied recovery evidence is missing")
check_recovered referenced (some recovery) post_recovery = do
  raise_if (not (is_applied recovery)) (value_error "applied recovery evidence is missing")
  check_links referenced recovery post_recovery

unfoldable pub check_verified :
    List String → Option RecoveryEvidence → Option PostRecoveryVerification → Check
check_verified referenced recovery none =
    err (value_error "post-recovery verification is missing or not verified")
check_verified referenced recovery (some post_recovery) = do
  raise_if (not (is_verified (some post_recovery)))
      (value_error "post-recovery verification is missing or not verified")
  check_recovered referenced recovery post_recovery

unfoldable pub verify_forensic_continuity : SecurityIncidentEvidence → Check
verify_forensic_continuity i = do
  raise_if (not (leb 5 (status_order i.status)))
      (value_error "forensic reconstruction requires a reverified incident")
  check_verified (identities i.evidence_refs) i.recovery i.post_recovery

-- reconstruct_security_state, the facts that it computes
pub record ReconstructedState : Type 0 where
  pub missing_evidence : List String
  pub complete : Bool

unfoldable pub reconstruct_security_state :
    SecurityIncidentEvidence → List String → ReconstructedState
reconstruct_security_state i available_evidence_ids =
    let missing =
      sorted (filter (λ x. not (elem x available_evidence_ids)) (identities i.evidence_refs)) in
    record {
      missing_evidence = missing;
      complete = is_nil missing && leb 5 (status_order i.status);
    }

-- every text of the first list is in the second
abbrev pub IsCovered : List String → List String → Type 0
IsCovered xs ys = (x : String) → elem x xs ≡ true → elem x ys ≡ true

is_nil-filter :
    (keep : String → Bool) (xs : List String) → is_nil (filter keep xs) ≡ not (any keep xs)
is_nil-filter keep [] = refl
is_nil-filter keep (x ∷ xs) =
    let rest = is_nil-filter keep xs in
    elim (Bool-cases (keep x)) [ inl kept ↦ rw kept refl | inr dropped ↦ rw dropped rest ]

elem-is_nil : (x : String) (xs : List String) → elem x xs ≡ true → is_nil xs ≡ false
elem-is_nil x [] m = cc
elem-is_nil x (y ∷ ys) m = refl

is_nil-sorted : (xs : List String) → is_nil (sorted xs) ≡ is_nil xs
unfolding sorted
is_nil-sorted [] = refl
is_nil-sorted (x ∷ xs) = elem-is_nil x (sorted (x ∷ xs)) (elem-sorted x (x ∷ xs) ∙ elem_head x xs)

any-elem :
    (p : String → Bool) (xs : List String) (x : String)
    → any p xs ≡ false
    → elem x xs ≡ true
    → p x ≡ false
any-elem p [] x h m = cc
any-elem p (y ∷ ys) x h m = elim (elem-cons x y ys m) [
  | inl it ↦ subst (λ z. p z ≡ false) it (ground arith)
  | inr there ↦ any-elem p ys x (ground arith) there
]

IsCovered-any : (xs ys : List String) → IsCovered xs ys → any (λ x. not (elem x ys)) xs ≡ false
IsCovered-any [] ys c = refl
IsCovered-any (x ∷ xs) ys c =
    let here = c x (elem_head x xs) in
    let rest = IsCovered-any xs ys (λ z m. c z (ground arith)) in ground arith

any-IsCovered : (xs ys : List String) → any (λ x. not (elem x ys)) xs ≡ false → IsCovered xs ys
any-IsCovered xs ys a x m = let e = any-elem (λ z. not (elem z ys)) xs x a m in ground arith

IsCovered-trans : (xs ys zs : List String) → IsCovered xs ys → IsCovered ys zs → IsCovered xs zs
IsCovered-trans xs ys zs a b x m = b x (a x m)

-- what continuity asks of an incident
pub record IsContinuous (i : SecurityIncidentEvidence) (recovery : RecoveryEvidence)
    (post_recovery : PostRecoveryVerification) : Type 0 where
  pub reverified : status_order i.status ≡ 5
  pub has_recovery : i.recovery ≡ some recovery
  pub is_applied : recovery.status ≡ applied
  pub has_verification : i.post_recovery ≡ some post_recovery
  pub is_verified : post_recovery.status ≡ verified
  pub recovery_preserved : elem recovery.evidence_ref.identity (identities i.evidence_refs) ≡ true
  pub verification_preserved :
      IsCovered (identities post_recovery.evidence_refs) (identities i.evidence_refs)

status_order-le : (s : IncidentStatus) → status_order s ≤ 5
status_order-le s = ground arith

check_links-parts :
    (referenced : List String) (r : RecoveryEvidence) (v : PostRecoveryVerification)
    → check_links referenced r v ≡ ok tt
    → (elem r.evidence_ref.identity referenced ≡ true)
      × IsCovered (identities v.evidence_refs) referenced
unfolding check_links
check_links-parts referenced r v h =
    let (a, b) =
      >>-eq-ok (raise_if (not (elem r.evidence_ref.identity referenced)) _)
        (raise_if (any (λ x. not (elem x referenced)) (identities v.evidence_refs)) _) h in
    let outside = raise_if-eq-ok (not (elem r.evidence_ref.identity referenced)) _ a in
    (
      ground arith,
      any-IsCovered (identities v.evidence_refs) referenced
          (raise_if-eq-ok (any (λ x. not (elem x referenced)) (identities v.evidence_refs)) _ b),
    )

continuity-parts :
    (i : SecurityIncidentEvidence) (recovery : Option RecoveryEvidence)
    (post : Option PostRecoveryVerification)
    → i.recovery ≡ recovery
    → i.post_recovery ≡ post
    → leb 5 (status_order i.status) ≡ true
    → check_verified (identities i.evidence_refs) recovery post ≡ ok tt
    → (r : RecoveryEvidence) × (v : PostRecoveryVerification) × IsContinuous i r v
unfolding check_verified check_recovered
continuity-parts i recovery none er ev s h = cc
continuity-parts i none (some v) er ev s h =
    let (a, b) =
      >>-eq-ok (raise_if (not (is_verified (some v))) _)
        (check_recovered (identities i.evidence_refs) none v) h in
    cc
continuity-parts i (some r) (some v) er ev s h =
    let (a, b) =
      >>-eq-ok (raise_if (not (is_verified (some v))) _)
        (check_recovered (identities i.evidence_refs) (some r) v) h in
    let (c, d) =
      >>-eq-ok (raise_if (not (is_applied r)) _) (check_links (identities i.evidence_refs) r v) b in
    let (preserved_one, preserved_all) = check_links-parts (identities i.evidence_refs) r v d in
    let le = status_order-le i.status in
    (
      r,
      v,
      record {
        reverified = ground arith;
        has_recovery = er;
        is_applied = ground arith;
        has_verification = ev;
        is_verified = ground arith;
        recovery_preserved = preserved_one;
        verification_preserved = preserved_all;
      },
    )

-- An incident that passes the continuity check is reverified, has an applied recovery and a verified
-- verification, and their evidence is among the incident's; and its reconstruction is complete
-- exactly when all of the incident's evidence is available, which then holds of that of the recovery
-- and of the verification too.
pub verify_forensic_continuity_reconstructs :
    (i : SecurityIncidentEvidence) (available : List String)
    → verify_forensic_continuity i ≡ ok tt
    → (r : RecoveryEvidence) × (v : PostRecoveryVerification) × IsContinuous i r v
      × (((reconstruct_security_state i available).complete ≡ true)
          ↔ IsCovered (identities i.evidence_refs) available)
      × (((reconstruct_security_state i available).complete ≡ true)
          → (elem r.evidence_ref.identity available ≡ true)
            × IsCovered (identities v.evidence_refs) available)
unfolding verify_forensic_continuity reconstruct_security_state
verify_forensic_continuity_reconstructs i available h =
    let refs = identities i.evidence_refs in
    let (a, b) =
      >>-eq-ok (raise_if (not (leb 5 (status_order i.status))) _)
        (check_verified refs i.recovery i.post_recovery) h in
    let last : leb 5 (status_order i.status) ≡ true =
      ground (arith, raise_if-eq-ok (not (leb 5 (status_order i.status))) _ a) in
    let (r, v, c) = continuity-parts i i.recovery i.post_recovery refl refl last b in
    let nothing_missing =
      is_nil-sorted (filter (λ x. not (elem x available)) refs)
      ∙ is_nil-filter (λ x. not (elem x available)) refs in
    let covers : (reconstruct_security_state i available).complete ≡ true
        → IsCovered refs available =
      λ e. any-IsCovered refs available (ground arith) in
    (
      r,
      v,
      c,
      (covers, λ cov. let none_missing = IsCovered-any refs available cov in ground arith),
      λ e. (
        covers e r.evidence_ref.identity c.recovery_preserved,
        IsCovered-trans (identities v.evidence_refs) refs available c.verification_preserved
            (covers e),
      ),
    )
