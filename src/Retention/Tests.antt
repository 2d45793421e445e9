-- ===== src/Retention/Tests.antt =====
-- One artifact under a hold that is released, and then required again without a hold.
use state_wake.Base.{is_before, ◌≡◌, inr, refl, true, false, some, ok, aware}
use state_wake.Retention.{
  EvidenceRetentionRequirement, Requirements, no_requirements, set_requirement, require_retention,
  release_retention, can_delete, is_held,
}
use state_wake.Retention.Holds.{
  HoldingCalls, none_yet, required, released, hold_survives, require_retention_lifts_hold,
}

abbrev held : EvidenceRetentionRequirement
held = record {
  artifact_id = "a";
  retain_until = aware 5;
  legal_hold = true;
  policy_id = "default";
}

abbrev ordinary : EvidenceRetentionRequirement
ordinary = record {
  artifact_id = "a";
  retain_until = aware 9;
  legal_hold = false;
  policy_id = "default";
}

abbrev start : Requirements
start = set_requirement no_requirements "a" (some held)

start-held : is_held start "a" ≡ true
unfolding is_held
start-held = refl

abbrev after : Requirements
after = require_retention (release_retention start "a") held

abbrev calls : HoldingCalls "a" start after
calls = required (release_retention start "a") held (released start "a" none_yet) (inr refl)

hold_survives_example : (is_held after "a" ≡ true) × (can_delete after "a" (aware 100) ≡ ok false)
hold_survives_example = hold_survives "a" start after (aware 100) start-held calls refl

require_retention_lifts_hold_example :
    (is_held (require_retention start ordinary) "a" ≡ false)
    × (can_delete (release_retention (require_retention start ordinary) "a") "a" (aware 0)
        ≡ ok true)
unfolding is_before
require_retention_lifts_hold_example =
    require_retention_lifts_hold start held ordinary (aware 0) refl refl refl refl
