-- ===== src/Operations/Tests.antt =====
-- The bundle theorems on a trace, a report derived from it, and a summary derived from the report.
use state_wake.Base.{
  ◌≤◌, String, ◌≡◌, ◌↔◌, refl, inl, inr, false, none, some, List, [], ◌∷◌, ok, is_nil, aware,
  add_days, text_functions,
}
use state_wake.Sensitivity.{
  Sensitivity, restricted, rank, validate_sensitivity, validate_all, max_level, inherit_sensitivity,
}
use state_wake.Lifecycle.Deletion.{IsPast}
use state_wake.Operations.{
  OperationalArtifact, OperationalBundle, RetentionPolicy, RetentionDecision, expired, quarantine,
  check_bundle, check_provenance, check_inherited, sensitivities_of, assess_retention,
}
use state_wake.Operations.Bundle.{
  DerivesFrom, direct, through, HasLevel, derivation_keeps_sensitivity,
}
use state_wake.Operations.Retention.{AnyAbove, assess_retention_decides}

abbrev artifact : String → String → List String → OperationalArtifact
artifact id sensitivity derived_from = record {
  artifact_id = id;
  path = id;
  kind = "json";
  sha256 = "0123456789abcdef0123456789abcdef0123456789abcdef0123456789abcdef";
  size_bytes = 1;
  sensitivity = sensitivity;
  derived_from = derived_from;
}

abbrev bundle : OperationalBundle
bundle = record {
  bundle_id = "b";
  manifest_id = "m";
  agent_name = "agent";
  engine_version = "1";
  created_at = aware 0;
  artifacts =
      artifact "trace" "internal" []
      ∷ artifact "report" "internal" ("trace" ∷ [])
      ∷ artifact "summary" "confidential" ("report" ∷ [])
      ∷ [];
  retention_policy = none;
}

bundle-check : check_bundle bundle ≡ ok tt
unfolding check_bundle text_functions check_provenance check_inherited sensitivities_of
    inherit_sensitivity validate_all max_level validate_sensitivity
bundle-check = refl

abbrev summary-from_trace : DerivesFrom bundle.artifacts "summary" "trace"
summary-from_trace =
    through
      (direct (artifact "summary" "confidential" ("report" ∷ [])) "report" (inr (inr (inl refl)))
        refl)
      (direct (artifact "report" "internal" ("trace" ∷ [])) "trace" (inr (inl refl)) refl)

derivation_keeps_sensitivity_example :
    (high low : Sensitivity) × HasLevel bundle.artifacts "summary" high
    × HasLevel bundle.artifacts "trace" low
    × (rank low ≤ rank high)
derivation_keeps_sensitivity_example =
    derivation_keeps_sensitivity bundle "summary" "trace" bundle-check summary-from_trace

abbrev policy : RetentionPolicy
policy = record { policy_id = "p"; max_age_days = some 1; max_sensitivity = restricted }

abbrev decision : RetentionDecision
decision = record {
  bundle_id = "b";
  policy_id = "p";
  state = expired;
  eligible_at = some 86400000000;
}

assessed : assess_retention bundle policy (aware 86400000000) ≡ ok decision
unfolding assess_retention validate_sensitivity add_days
assessed = refl

assess_retention_decides_example :
    ((decision.state ≡ quarantine) ↔ AnyAbove 3 bundle.artifacts)
    × ((decision.state ≡ expired) ↔ (
        (is_nil bundle.artifacts ≡ false)
        × (¬ AnyAbove 3 bundle.artifacts)
        × IsPast (some 1) 0 86400000000))
assess_retention_decides_example =
    assess_retention_decides bundle policy (aware 86400000000) decision assessed
