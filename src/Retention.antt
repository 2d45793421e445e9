-- ===== src/Retention.antt =====
-- Retention requirements and legal holds: src/statewake/domain/retention.py and the in-memory adapter
-- src/statewake/adapters/retention.py. The adapter's dictionary is a function of the identifier.
pub mod Holds
mod Tests
use state_wake.Base.{
  is_before, String, Bool, true, false, not, ◌||◌, Option, none, some, ◌=ₛ◌, is_blank, leb,
  value_error, Result, Check, ok, err, ◌>>=◌, ◌>>◌, raise_if, if◌then◌else◌, Datetime, is_naive,
  instant,
}

pub record EvidenceRetentionRequirement : Type 0 where
  pub artifact_id : String
  pub retain_until : Datetime
  pub legal_hold : Bool
  pub policy_id : String

-- EvidenceRetentionRequirement.__post_init__
pub check_requirement : EvidenceRetentionRequirement → Check
check_requirement r = do
  raise_if (is_blank r.artifact_id || is_blank r.policy_id)
      (value_error "artifact_id and policy_id must not be empty.")
  raise_if (is_naive r.retain_until) (value_error "retain_until must be timezone-aware.")

-- the dictionary `_requirements`
abbrev pub Requirements : Type 0
Requirements = String → Option EvidenceRetentionRequirement

abbrev pub no_requirements : Requirements
no_requirements artifact_id = none

-- `requirements[key] = value`, or `del requirements[key]` for none
abbrev pub set_requirement :
    Requirements → String → Option EvidenceRetentionRequirement → Requirements
set_requirement requirements key value artifact_id =
    if key =ₛ artifact_id then value else requirements artifact_id

-- `existing is None or requirement.retain_until >= existing.retain_until`
abbrev pub replaces : Option EvidenceRetentionRequirement → EvidenceRetentionRequirement → Bool
replaces none r = true
replaces (some existing) r = not (is_before r.retain_until existing.retain_until)

unfoldable pub require_retention : Requirements → EvidenceRetentionRequirement → Requirements
require_retention requirements r =
    if replaces (requirements r.artifact_id) r
    then set_requirement requirements r.artifact_id (some r)
    else requirements

-- `requirement is not None and requirement.legal_hold`
abbrev pub has_hold : Option EvidenceRetentionRequirement → Bool
has_hold none = false
has_hold (some r) = r.legal_hold

unfoldable pub release_retention : Requirements → String → Requirements
release_retention requirements artifact_id =
    if has_hold (requirements artifact_id)
    then requirements
    else set_requirement requirements artifact_id none

-- the test of `can_delete` on the requirement
abbrev pub is_past : Option EvidenceRetentionRequirement → Datetime → Bool
is_past none now = true
is_past (some r) now = if r.legal_hold then false else not (is_before now r.retain_until)

unfoldable pub can_delete : Requirements → String → Datetime → Result Bool
can_delete requirements artifact_id now = do
  raise_if (is_naive now) (value_error "now must be timezone-aware.")
  ok (is_past (requirements artifact_id) now)

unfoldable pub is_held : Requirements → String → Bool
is_held requirements artifact_id = has_hold (requirements artifact_id)
