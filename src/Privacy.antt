-- ===== src/Privacy.antt =====
-- Redaction of metadata: src/statewake/domain/privacy.py. A value is a text, a list, a mapping or something
-- else that is left alone; a mapping is the list of its items in the order of their keys, which are
-- texts. Regular expressions and `str.casefold` are parameters.
pub mod Redacted
mod Tests
use state_wake.Base.{
  ℕ, suc, String, ◌<>◌, Bool, true, false, not, ◌&&◌, ◌||◌, List, [], ◌∷◌, ◌++◌, map, any, elem,
  ltb, ◌=ₛ◌, is_blank, is_empty, value_error, Check, ok, ◌>>=◌, ◌>>◌, raise_if, if◌then◌else◌,
}

pub record RedactionRule : Type 0 where
  pub rule_id : String
  pub pattern : String
  pub replacement : String

pub record PrivacyPolicy : Type 0 where
  pub policy_id : String
  pub redact_keys : List String
  pub rules : List RedactionRule
  pub replacement : String

-- DEFAULT_REDACT_KEYS
abbrev pub default_redact_keys : List String
default_redact_keys =
    "api_key" ∷ "authorization" ∷ "email" ∷ "password" ∷ "phone" ∷ "secret" ∷ "ssn" ∷ "token" ∷ []

-- PrivacyPolicy.__post_init__
pub check_policy : PrivacyPolicy → Check
check_policy p = do
  raise_if (is_blank p.policy_id) (value_error "policy_id must not be empty.")
  raise_if (is_empty p.replacement) (value_error "replacement must not be empty.")
  raise_if (any is_blank p.redact_keys) (value_error "redact_keys must not contain empty values.")

mutual
  pub data Value : Type 0 where
    text : String → Value
    list : Values → Value
    mapping : Members → Value
    other : String → Value

  pub data Values : Type 0 where
    no_values : Values
    value : Value → Values → Values

  pub data Members : Type 0 where
    no_members : Members
    member : String → Value → Members → Members

-- `re.compile(pattern)`, `re.subn(pattern, replacement, value)`, `str.casefold` and `str` of an index
pub record Externals : Type 0 where
  pub compile : String → Check
  pub subn : String → String → String → String × ℕ
  pub casefold : String → String
  pub decimal : ℕ → String

-- RedactionRule.__post_init__
pub check_rule : Externals → RedactionRule → Check
check_rule x rule = do
  raise_if (is_blank rule.rule_id) (value_error "rule_id must not be empty.")
  raise_if (is_empty rule.pattern) (value_error "pattern must not be empty.")
  x.compile rule.pattern

-- `".".join(path)`
unfoldable pub join : List String → String
join [] = ""
join (key ∷ []) = key
join (key ∷ next ∷ rest) = key <> "." <> join (next ∷ rest)

module _ (x : Externals) (policy : PrivacyPolicy) where
  -- Redactor._keys
  abbrev pub keys : List String
  keys = map (x.casefold) policy.redact_keys

  abbrev pub is_sensitive : String → Bool
  is_sensitive key = elem (x.casefold key) keys

  -- the loop over the rules: the text, and the findings
  unfoldable pub apply_rules : List String → List RedactionRule → String → String × List String
  apply_rules path [] s = (s, [])
  apply_rules path (rule ∷ rest) s =
      let (next, count) = x.subn rule.pattern rule.replacement s in
      let (last_text, findings) = apply_rules path rest next in
      (
        last_text,
        if ltb 0 count then ("rule:" <> rule.rule_id <> ":" <> join path) ∷ findings else findings,
      )

  -- Redactor._redact_value and Redactor._redact_mapping
  unfoldable mutual
    unfolding apply_rules

    pub redact_value : List String → Value → Value × List String
    redact_value path (text s) =
        let (t, findings) = apply_rules path policy.rules s in (text t, findings)
    redact_value path (list vs) =
        let (out, findings) = redact_values path 0 vs in (list out, findings)
    redact_value path (mapping ms) =
        let (out, findings) = redact_mapping path ms in (mapping out, findings)
    redact_value path (other s) = (other s, [])

    pub redact_values : List String → ℕ → Values → Values × List String
    redact_values path i no_values = (no_values, [])
    redact_values path i (value v vs) =
        let (out, found) = redact_value (path ++ x.decimal i ∷ []) v in
        let (rest, findings) = redact_values path (suc i) vs in (value out rest, found ++ findings)

    pub redact_mapping : List String → Members → Members × List String
    redact_mapping path no_members = (no_members, [])
    redact_mapping path (member key v ms) =
        let (out, found) = redact_value (path ++ key ∷ []) v in
        let (rest, findings) = redact_mapping path ms in
        if is_sensitive key
        then (
          member key (text policy.replacement) rest,
          ("key:" <> join (path ++ key ∷ [])) ∷ findings,
        )
        else (member key out rest, found ++ findings)
