-- ===== src/Sensitivity.antt =====
-- SENSITIVITY_ORDER of src/statewake/domain/governance.py and `inherit_sensitivity` of
-- src/statewake/domain/data_lifecycle.py. The texts that the source tests against the order are read
-- into a type of their own.
pub mod Inherit
mod Tests
use state_wake.Base.{
  ℕ, String, ◌<>◌, Bool, true, false, not, ◌&&◌, Option, none, some, List, [], ◌∷◌, ◌=ₛ◌, is_nil,
  ltb, leb, value_error, Result, Check, ok, err, ◌>>=◌, ◌>>◌, raise_if, if◌then◌else◌,
}

pub data Sensitivity : Type 0 where
  public_level internal confidential restricted : Sensitivity

-- SENSITIVITY_ORDER
abbrev pub rank : Sensitivity → ℕ
rank public_level = 0
rank internal = 1
rank confidential = 2
rank restricted = 3

-- `_validate_sensitivity`, which reads the text
unfoldable pub validate_sensitivity : String → String → Result Sensitivity
validate_sensitivity field_name value =
    if value =ₛ "public"
    then ok public_level
    else if value =ₛ "internal"
    then ok internal
    else if value =ₛ "confidential"
    then ok confidential
    else if value =ₛ "restricted"
    then ok restricted
    else err
        (value_error (field_name <> " must be one of public, internal, confidential, restricted."))

-- the loop over the sources
unfoldable pub validate_all : List String → Result (List Sensitivity)
unfolding validate_sensitivity
validate_all [] = ok []
validate_all (s ∷ rest) = do
  level ← validate_sensitivity "source sensitivity" s
  levels ← validate_all rest
  ok (level ∷ levels)

-- `max(levels, key=SENSITIVITY_ORDER.__getitem__)`, from the best so far; the first of the largest
unfoldable pub max_from : Sensitivity → List Sensitivity → Sensitivity
max_from best [] = best
max_from best (s ∷ rest) = max_from (if ltb (rank best) (rank s) then s else best) rest

unfoldable pub max_level : List Sensitivity → Sensitivity
unfolding max_from
max_level [] = public_level
max_level (s ∷ rest) = max_from s rest

-- the part of `inherit_sensitivity` about a requested level
unfoldable pub requested_level : Sensitivity → Option String → Bool → Result Sensitivity
requested_level inherited none downgrade_approved = ok inherited
requested_level inherited (some requested) downgrade_approved = do
  level ← validate_sensitivity "requested_sensitivity" requested
  raise_if (ltb (rank level) (rank inherited) && not downgrade_approved)
      (value_error "derived sensitivity cannot be downgraded without explicit approval.")
  ok level

unfoldable pub inherit_sensitivity : List String → Option String → Bool → Result Sensitivity
unfolding requested_level
inherit_sensitivity sources requested downgrade_approved = do
  raise_if (is_nil sources) (value_error "source_sensitivities must not be empty.")
  levels ← validate_all sources
  requested_level (max_level levels) requested downgrade_approved
