-- ===== src/States.antt =====
-- Snapshots of a system's state: src/statewake/domain/state.py. A dictionary of tool digests is the
-- list of its items; the fingerprint, SHA-256 of canonical JSON, is not modelled.
use state_wake.Base.{
  String, ◌||◌, Option, List, is_blank, any, value_error, Check, ◌>>◌, raise_if, Datetime, is_naive,
}

pub record SystemState : Type 0 where
  pub state_id : String
  pub captured_at : Datetime
  pub agent_version : String
  pub model : String
  pub prompt_digest : String
  pub tool_digests : List (String × String)
  pub retrieval_digest : Option String
  pub memory_digest : Option String
  pub policy_digest : Option String

-- SystemState.__post_init__
pub check_state : SystemState → Check
check_state s = do
  raise_if (is_blank s.state_id) (value_error "state_id must not be empty.")
  raise_if (is_naive s.captured_at) (value_error "captured_at must be timezone-aware.")
  raise_if (is_blank s.agent_version) (value_error "agent_version must not be empty.")
  raise_if (is_blank s.model) (value_error "model must not be empty.")
  raise_if (is_blank s.prompt_digest) (value_error "prompt_digest must not be empty.")
  raise_if (any (λ (t : String × String). is_blank t.0 || is_blank t.1) s.tool_digests)
      (value_error "tool_digests must contain non-empty names and digests.")
