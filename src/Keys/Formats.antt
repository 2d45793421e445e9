-- ===== src/Keys/Formats.antt =====
-- ProofFormatMigration of src/statewake/domain/cryptographic_trust.py.
use state_wake.Base.{
  String, ◌<>◌, not, List, [], ◌∷◌, ◌=ₛ◌, elem, is_blank, value_error, Check, ok, ◌>>◌, raise_if,
}

pub record ProofFormatMigration : Type 0 where
  pub from_version : String
  pub to_version : String
  pub canonicalization_version : String
  pub compatibility_mode : String
  pub migration_authority : String

-- the loop over the fields
check_named : List (String × String) → Check
check_named [] = ok tt
check_named ((name, value) ∷ rest) = do
  raise_if (is_blank value) (value_error (name <> " must not be empty."))
  check_named rest

-- ProofFormatMigration.__post_init__
pub check_format_migration : ProofFormatMigration → Check
unfolding check_named
check_format_migration m = do
  check_named (
      ("from_version", m.from_version)
      ∷ ("to_version", m.to_version)
      ∷ ("canonicalization_version", m.canonicalization_version)
      ∷ ("compatibility_mode", m.compatibility_mode)
      ∷ ("migration_authority", m.migration_authority)
      ∷ [])
  raise_if (m.from_version =ₛ m.to_version)
      (value_error "proof format migration must change versions.")
  raise_if (not (elem m.compatibility_mode ("read-both" ∷ "rewrite-forward" ∷ "dual-format" ∷ [])))
      (value_error "unsupported proof-format compatibility mode.")
