-- ===== src/Anchor.antt =====
-- Trust checkpoints: src/statewake/domain/trust_anchor.py. The digest of a checkpoint, SHA-256 of canonical
-- JSON, is a parameter, and so is the verification of a signature.
pub mod Store
mod Tests
use state_wake.Base.{
  ℕ, String, ◌<>◌, Bool, not, ◌&&◌, ◌||◌, Option, none, some, ltb, ◌==◌, ◌=ₛ◌, is_blank, is_sha256,
  is_some, value_error, Check, ok, ◌>>=◌, ◌>>◌, raise_if,
}

pub record TrustCheckpoint : Type 0 where
  pub checkpoint_id : String
  pub subject_id : String
  pub issued_at : String
  pub history_tip_digest : String
  -- no count is negative
  pub history_record_count : ℕ
  pub signing_key_id : String
  pub signing_key_digest : String
  pub signature : String
  pub previous_checkpoint_digest : Option String
  pub format_version : String

-- `value is not None` and it is no digest
abbrev lacks_sha256 : Option String → Bool
lacks_sha256 none = Bool.false
lacks_sha256 (some d) = not (is_sha256 d)

-- TrustCheckpoint.__post_init__
unfoldable pub check_checkpoint : TrustCheckpoint → Check
check_checkpoint c = do
  raise_if (not (c.format_version =ₛ "1"))
      (value_error "unsupported trust-checkpoint format version.")
  raise_if (is_blank c.checkpoint_id) (value_error "checkpoint_id must not be empty.")
  raise_if (is_blank c.subject_id) (value_error "subject_id must not be empty.")
  raise_if (is_blank c.issued_at) (value_error "issued_at must not be empty.")
  raise_if (is_blank c.signing_key_id) (value_error "signing_key_id must not be empty.")
  raise_if (is_blank c.signature) (value_error "signature must not be empty.")
  raise_if (not (is_sha256 c.history_tip_digest))
      (value_error "history_tip_digest must be lowercase SHA-256 hex.")
  raise_if (not (is_sha256 c.signing_key_digest))
      (value_error "signing_key_digest must be lowercase SHA-256 hex.")
  raise_if (lacks_sha256 c.previous_checkpoint_digest)
      (value_error "previous_checkpoint_digest must be lowercase SHA-256 hex.")

unfoldable pub compare_local_tip : TrustCheckpoint → String → ℕ → Check
compare_local_tip c history_tip_digest history_record_count = do
  raise_if (not (is_sha256 history_tip_digest))
      (value_error "history_tip_digest must be lowercase SHA-256 hex.")
  raise_if
      (not (c.history_tip_digest =ₛ history_tip_digest)
        || not (c.history_record_count == history_record_count))
      (value_error "local history disagrees with the independent trust checkpoint")

-- `current.previous_checkpoint_digest == digest`
abbrev pub names : Option String → String → Bool
names none digest = Bool.false
names (some d) digest = d =ₛ digest

module _ (digest : TrustCheckpoint → String) where
  unfoldable pub ensure_checkpoint_sequence : Option TrustCheckpoint → TrustCheckpoint → Check
  ensure_checkpoint_sequence none current =
      raise_if (is_some current.previous_checkpoint_digest)
        (value_error "first checkpoint unexpectedly references a previous checkpoint.")
  ensure_checkpoint_sequence (some previous) current = do
    raise_if (not (names current.previous_checkpoint_digest (digest previous)))
        (value_error "trust checkpoint sequence is discontinuous.")
    raise_if (ltb current.history_record_count previous.history_record_count)
        (value_error "trust checkpoint sequence rolled back history.")
