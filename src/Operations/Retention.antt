-- ===== src/Operations/Retention.antt =====
-- What `assess_retention` decides.
use state_wake.Base.{
  refl, ◌≢◌, ℕ, ◌<◌, String, ◌≡◌, ◌⊎◌, inl, inr, ◌↔◌, false, Option, none, some, List, [], ◌∷◌,
  is_nil, is_naive, Datetime, instant, add_days, ok, >>=-eq-ok, >>-eq-ok, raise_if, value_error,
  arith, ltb, Bool-cases, if◌then◌else◌,
}
use state_wake.Sensitivity.{Sensitivity, rank, validate_sensitivity}
use state_wake.Lifecycle.Deletion.{IsPast}
use state_wake.Operations.{
  OperationalArtifact, OperationalBundle, RetentionPolicy, RetentionDecision, retain, quarantine,
  expired, above_ceiling, assess_age, assess_above, assess_retention,
}

-- some artifact has a sensitivity that is a level of a rank above `n`
abbrev pub AnyAbove : ℕ → List OperationalArtifact → Type 0
AnyAbove n [] = ⊥
AnyAbove n (a ∷ rest) =
    ((level : Sensitivity) × (validate_sensitivity "sensitivity" a.sensitivity ≡ ok level)
      × (n < rank level))
    ⊎ AnyAbove n rest

AnyAbove-nonempty :
    (n : ℕ) (artifacts : List OperationalArtifact) → AnyAbove n artifacts → is_nil artifacts ≡ false
AnyAbove-nonempty n [] p = absurd p
AnyAbove-nonempty n (a ∷ rest) p = refl

above_ceiling-AnyAbove :
    (n : ℕ) (artifacts : List OperationalArtifact) (above : List String)
    → above_ceiling n artifacts ≡ ok above
    → (is_nil above ≡ false) ↔ AnyAbove n artifacts
unfolding above_ceiling
above_ceiling-AnyAbove n [] above h = (λ e. ground arith, λ p. absurd p)
above_ceiling-AnyAbove n (a ∷ rest) above h =
    let (level, e, h1) = >>=-eq-ok (validate_sensitivity "sensitivity" a.sensitivity) _ h in
    let (more, e', h2) = >>=-eq-ok (above_ceiling n rest) _ h1 in
    let later = above_ceiling-AnyAbove n rest more e' in
    let same : above ≡ (if ltb n (rank level) then a.artifact_id ∷ more else more) = cc in
    elim (Bool-cases (ltb n (rank level))) [
      | inl over ↦ (λ _. inl (level, e, ground arith), λ _. ground arith)
      | inr under ↦
          let kept : above ≡ more = ground arith in
          (
            λ x. inr (later.0 (ground arith)),
            λ p. elim p [
              | inl (other, e2, lt) ↦ let one : other ≡ level = cc in ground arith
              | inr there ↦ let m = later.1 there in ground arith
            ],
          )
    ]

assess_age-state :
    (b : OperationalBundle) (p : RetentionPolicy) (as_of : Datetime) (days : Option ℕ)
    (d : RetentionDecision)
    → assess_age b p as_of days ≡ ok d
    → ((d.state ≡ expired) ↔ IsPast days (instant b.created_at) (instant as_of))
      × (d.state ≢ quarantine)
unfolding assess_age add_days
assess_age-state b p as_of none d h = ((λ e. ground arith, λ q. absurd q), λ e. ground arith)
assess_age-state b p as_of (some n) d h =
    ((λ e. ground arith, λ q. ground arith), λ e. ground arith)

-- A retention decision that is returned for a bundle is `quarantine` exactly when some artifact's
-- sensitivity is above the policy's ceiling, and `expired` exactly when the bundle has artifacts,
-- none is above the ceiling, and the policy sets an age in days that has passed.
pub assess_retention_decides :
    (b : OperationalBundle) (p : RetentionPolicy) (as_of : Datetime) (d : RetentionDecision)
    → assess_retention b p as_of ≡ ok d
    → ((d.state ≡ quarantine) ↔ AnyAbove (rank p.max_sensitivity) b.artifacts)
      × ((d.state ≡ expired) ↔ (
          (is_nil b.artifacts ≡ false)
          × (¬ AnyAbove (rank p.max_sensitivity) b.artifacts)
          × IsPast p.max_age_days (instant b.created_at) (instant as_of)))
unfolding assess_retention assess_above
assess_retention_decides b p as_of d h =
    let (a, h1) =
      >>-eq-ok (raise_if (is_naive as_of) (value_error "as_of must be timezone-aware.")) _ h in
    let (above, e, h2) = >>=-eq-ok (above_ceiling (rank p.max_sensitivity) b.artifacts) _ h1 in
    let any_above = above_ceiling-AnyAbove (rank p.max_sensitivity) b.artifacts above e in
    elim (Bool-cases (is_nil b.artifacts)) [
      | inl empty ↦
          let kept : d.state ≡ retain = ground arith in
          (
            (
              λ q. cc,
              λ q. let some_here = AnyAbove-nonempty (rank p.max_sensitivity) b.artifacts q in cc,
            ),
            (λ q. cc, λ q. let nonempty = q.0 in cc),
          )
      | inr nonempty ↦ elim (Bool-cases (is_nil above)) [
        | inl none_above ↦
            let aged : assess_age b p as_of p.max_age_days ≡ ok d = ground arith in
            let age = assess_age-state b p as_of p.max_age_days d aged in
            (
              (λ q. absurd (age.1 q), λ q. let some_above = any_above.1 q in cc),
              (
                λ x. (nonempty, (λ q. let some_above = any_above.1 q in cc), age.0.0 x),
                λ q. age.0.1 q.2,
              ),
            )
        | inr some_above ↦
            let is_quarantine : d.state ≡ quarantine = ground arith in
            (
              (λ q. any_above.0 some_above, λ q. is_quarantine),
              (λ x. cc, λ q. absurd (q.1 (any_above.0 some_above))),
            )
      ]
    ]
