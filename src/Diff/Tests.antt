-- ===== src/Diff/Tests.antt =====
-- The comparison theorems on two short runs of an agent.
use state_wake.Base.{
  ℕ, ◌≤◌, String, ◌≡◌, ◌↔◌, refl, false, none, some, List, [], ◌∷◌, ◌=ₛ◌, length, map, aware,
  sorted, starts_with,
}
use state_wake.Events.{EventEnvelope}
use state_wake.States.{SystemState}
use state_wake.Diff.{
  outcome, changes_of, between, payload_eq, align_gap, zip_residual, change_of, state_changes,
  child_changes, union_keys, risk, low, changed, action_payload, action_events, action_alignment,
  action_changes, compare,
}
use state_wake.Diff.Lcs.{lcs_matches, lookup}
use state_wake.Diff.Lcs.Longest.{HasCommon}
use state_wake.Diff.Lcs.Walk.{IsIncreasing, AreEqualAt, lcs_matches_longest}
use state_wake.Diff.Alignment.{Covers, action_alignment-Covers}
use state_wake.Diff.Changes.{action_changes-nil_iff}
use state_wake.Diff.Compare.{AreSameRuns, compare-changed}

abbrev event : ℕ → String → String → EventEnvelope
event n kind label = record {
  run_id = "r";
  sequence = n;
  occurred_at = aware n;
  event_type = kind;
  actor = "agent";
  name = some label;
  state_id = none;
  payload_ref = none;
  metadata = [];
}

abbrev run_one : List EventEnvelope
run_one =
    event 0 "run.started" "go" ∷ event 1 "tool.called" "search" ∷ event 2 "decision.made" "buy" ∷ []

-- the same actions later, after one more event
abbrev run_two : List EventEnvelope
run_two =
    event 3 "run.started" "go"
    ∷ event 4 "log" "note"
    ∷ event 5 "tool.called" "search"
    ∷ event 6 "decision.made" "buy"
    ∷ []

abbrev snapshot : SystemState
snapshot = record {
  state_id = "s";
  captured_at = aware 1;
  agent_version = "1";
  model = "m";
  prompt_digest = "p";
  tool_digests = ("search", "d") ∷ [];
  retrieval_digest = none;
  memory_digest = none;
  policy_digest = none;
}

abbrev keys_one : List String
keys_one = "a" ∷ "b" ∷ "c" ∷ "d" ∷ []

abbrev keys_two : List String
keys_two = "b" ∷ "x" ∷ "d" ∷ "a" ∷ []

common_keys : lcs_matches (λ a b. a =ₛ b) keys_one keys_two ≡ (1, 0) ∷ (3, 2) ∷ []
unfolding lcs_matches lookup
common_keys = refl

lcs_matches_longest_example :
    IsIncreasing 0 0 4 4 (lcs_matches (λ a b. a =ₛ b) keys_one keys_two)
    × AreEqualAt (λ a b. a =ₛ b) keys_one keys_two (lcs_matches (λ a b. a =ₛ b) keys_one keys_two)
    × ((n : ℕ)
        → HasCommon (λ a b. a =ₛ b) keys_one keys_two n
        → n ≤ length (lcs_matches (λ a b. a =ₛ b) keys_one keys_two))
lcs_matches_longest_example = lcs_matches_longest (λ a b. a =ₛ b) keys_one keys_two

action_alignment-Covers_example :
    Covers (action_alignment run_one run_two) (0 ∷ 1 ∷ 2 ∷ []) (0 ∷ 1 ∷ 2 ∷ 3 ∷ [])
action_alignment-Covers_example = action_alignment-Covers run_one run_two

action_changes-nil_iff_example :
    (action_changes run_one run_two ≡ [])
    ↔ (map action_payload (action_events run_one) ≡ map action_payload (action_events run_two))
action_changes-nil_iff_example = action_changes-nil_iff run_one run_two

compare-changed_example :
    (changed (compare snapshot (record snapshot { model = "n" }) none none run_one run_two) ≡ false)
    ↔ AreSameRuns snapshot (record snapshot { model = "n" }) none none run_one run_two
compare-changed_example =
    compare-changed snapshot (record snapshot { model = "n" }) none none run_one run_two

changed_model :
    risk (compare snapshot (record snapshot { agent_version = "n" }) none none run_one run_two)
    ≡ low
unfolding compare outcome action_changes changes_of action_alignment between lcs_matches
    action_events starts_with payload_eq align_gap zip_residual change_of state_changes
    child_changes union_keys sorted
changed_model = refl
