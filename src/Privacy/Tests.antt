-- ===== src/Privacy/Tests.antt =====
-- The redaction theorem on a nested mapping.
use state_wake.Base.{
  arith, ℕ, String, ◌≡◌, refl, [], ◌∷◌, ◌=ₛ◌, if◌then◌else◌, Bool-cases, inl, inr, ok,
}
use state_wake.Privacy.{
  PrivacyPolicy, default_redact_keys, text, list, mapping, no_values, value, Members, no_members,
  member, Externals, join, redact_mapping,
}
use state_wake.Privacy.Redacted.{IsRedacted, redact_mapping-IsRedacted}

-- a substitution that knows one text
abbrev subn : String → String → String → String × ℕ
subn pattern replacement s = if s =ₛ pattern then (replacement, 1) else (s, 0)

subn-unmatched :
    (pattern replacement s : String)
    → (subn pattern replacement s).1 ≡ 0
    → (subn pattern replacement s).0 ≡ s
subn-unmatched pattern replacement s h = elim (Bool-cases (s =ₛ pattern)) [
  | inl here ↦ absurd (ground arith)
  | inr other_text ↦ rw other_text refl
]

abbrev externals : Externals
externals = record {
  compile = λ pattern. ok tt;
  subn = subn;
  casefold = λ s. if s =ₛ "Email" then "email" else s;
  decimal = λ i. "0";
}

abbrev policy : PrivacyPolicy
policy = record {
  policy_id = "p";
  redact_keys = default_redact_keys;
  rules = (record { rule_id = "r"; pattern = "4111"; replacement = "[CARD]" }) ∷ [];
  replacement = "[REDACTED]";
}

abbrev metadata : Members
metadata = member "card" (text "4111") (
    member "user" (mapping (member "Email" (text "a@b") (member "name" (text "x") no_members)))
      (member "tags" (list (value (text "4111") no_values)) no_members))

redacted : redact_mapping externals policy [] metadata ≡ (
  member "card" (text "[CARD]") (
      member "user"
        (mapping (member "Email" (text "[REDACTED]") (member "name" (text "x") no_members)))
        (member "tags" (list (value (text "[CARD]") no_values)) no_members)),
  "rule:r:card" ∷ "key:user.Email" ∷ "rule:r:tags.0" ∷ [],
)
unfolding redact_mapping join
redacted = refl

redact_mapping-IsRedacted_example :
    IsRedacted externals policy
      (mapping metadata)
      (mapping (redact_mapping externals policy [] metadata).0)
    × ((redact_mapping externals policy [] metadata).1 ≡ []
        → (redact_mapping externals policy [] metadata).0 ≡ metadata)
redact_mapping-IsRedacted_example =
    redact_mapping-IsRedacted externals policy metadata subn-unmatched
