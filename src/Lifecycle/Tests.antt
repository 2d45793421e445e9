-- ===== src/Lifecycle/Tests.antt =====
-- The lifecycle theorems on one object that is a day old, and on three objects.
use state_wake.Base.{
  ◌≤◌, String, ◌≡◌, ◌↔◌, refl, true, false, some, List, [], ◌∷◌, ok, elem, aware, add_days,
  is_blank, sorted, arith,
}
use state_wake.Sensitivity.{Sensitivity, internal, rank, validate_sensitivity}
use state_wake.Lifecycle.{
  DataLifecyclePolicy, DataLifecycleDecision, assess_data_lifecycle, disclosable,
  filter_disclosable_ids,
}
use state_wake.Lifecycle.Deletion.{IsPast, deletion_allowed_iff, deletion_allowed_later}
use state_wake.Lifecycle.Disclosure.{HasWithin, filter_disclosable_ids_iff}

abbrev policy : DataLifecyclePolicy
policy = record {
  policy_id = "p";
  purpose = "audit";
  max_retention_days = some 1;
  storage_max_sensitivity = internal;
  telemetry_max_sensitivity = internal;
  disclosure_max_sensitivity = internal;
  encryption_at_rest_required = false;
  tls_required = true;
}

abbrev decision : DataLifecycleDecision
decision = record {
  object_id = "o";
  sensitivity = internal;
  policy_id = "p";
  retain_until = some 86400000000;
  expired = true;
  storage_allowed = true;
  telemetry_allowed = true;
  disclosure_allowed = true;
  deletion_allowed = true;
  reasons = [];
}

assessed :
    assess_data_lifecycle "o" "internal" (aware 0) policy (aware 86400000000) false ≡ ok decision
unfolding assess_data_lifecycle is_blank validate_sensitivity add_days
assessed = refl

assessed_later :
    assess_data_lifecycle "o" "internal" (aware 0) policy (aware 90000000000) false ≡ ok decision
unfolding assess_data_lifecycle is_blank validate_sensitivity add_days
assessed_later = refl

deletion_allowed_iff_example :
    ((decision.deletion_allowed ≡ true) ↔ (IsPast (some 1) 0 86400000000 × (false ≡ false)))
    × (validate_sensitivity "sensitivity" "internal" ≡ ok internal)
    × ((decision.disclosure_allowed ≡ true) ↔ (1 ≤ 1))
deletion_allowed_iff_example =
    deletion_allowed_iff "o" "internal" (aware 0) (aware 86400000000) policy false decision assessed

deletion_allowed_later_example : decision.deletion_allowed ≡ true
deletion_allowed_later_example =
    deletion_allowed_later "o" "internal" (aware 0) (aware 86400000000) (aware 90000000000) policy
      false decision decision assessed assessed_later (omega arith) refl

abbrev objects : List (String × String)
objects = ("b", "restricted") ∷ ("c", "public") ∷ ("a", "internal") ∷ []

filtered : filter_disclosable_ids objects "internal" ≡ ok ("a" ∷ "c" ∷ [])
unfolding filter_disclosable_ids disclosable validate_sensitivity sorted is_blank
filtered = refl

filter_disclosable_ids_iff_example :
    (ceiling : Sensitivity) × (validate_sensitivity "max_sensitivity" "internal" ≡ ok ceiling)
    × ((elem "a" ("a" ∷ "c" ∷ []) ≡ true) ↔ HasWithin (rank ceiling) "a" objects)
filter_disclosable_ids_iff_example =
    filter_disclosable_ids_iff objects "internal" "a" ("a" ∷ "c" ∷ []) filtered
