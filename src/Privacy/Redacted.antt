-- ===== src/Privacy/Redacted.antt =====
-- What is left of a mapping after its redaction.
use state_wake.Base.{
  elem, ◌=ₛ◌, eq_iff, map, ◌⊎◌, ◌↔◌, ◌≢◌, ℕ, suc, String, ◌≡◌, refl, ap, ◌∙◌, inl, inr, Bool, true,
  false, List, [], ◌∷◌, ◌++◌, ltb, if◌then◌else◌, arith, Bool-cases,
}
use state_wake.Privacy.{
  RedactionRule, PrivacyPolicy, Value, text, list, mapping, other, Values, no_values, value,
  Members, no_members, member, Externals, is_sensitive, apply_rules, redact_value, redact_values,
  redact_mapping,
}

append-nil_both : (xs ys : List String) → xs ++ ys ≡ [] → (xs ≡ []) × (ys ≡ [])
append-nil_both [] ys h = (refl, h)
append-nil_both (x ∷ xs) ys h = cc

nonempty_when :
    (b : Bool) (f : String) (fs : List String) → b ≡ true → (if b then f ∷ fs else fs) ≢ []
nonempty_when true f fs e h = cc
nonempty_when false f fs e h = cc

empty_when :
    (b : Bool) (f : String) (fs : List String)
    → b ≡ false
    → (if b then f ∷ fs else fs) ≡ []
    → fs ≡ []
empty_when true f fs e h = cc
empty_when false f fs e h = h

-- the key and one of the list are the same text once their cases are folded
abbrev pub IsListed : Externals → List String → String → Type 0
IsListed x [] key = ⊥
IsListed x (k ∷ keys) key = (x.casefold k ≡ x.casefold key) ⊎ IsListed x keys key

-- the second text is what the substitutions of all the rules, in order, make of the first
abbrev pub IsSubstituted : Externals → List RedactionRule → String → String → Type 0
IsSubstituted x [] s t = t ≡ s
IsSubstituted x (rule ∷ rules) s t =
    IsSubstituted x rules (x.subn rule.pattern rule.replacement s).0 t

module _ (x : Externals) (policy : PrivacyPolicy) where
  -- The second value is the first with every text substituted by the rules, and with the policy's
  -- replacement as the value of every listed key, at any depth. It has the same keys in the same
  -- order, and lists of the same lengths.
  mutual
    pub data IsRedacted : Value → Value → Type 0 where
      text_redacted :
          {s t : String} → IsSubstituted x policy.rules s t → IsRedacted (text s) (text t)
      list_redacted : {vs ws : Values} → AreValuesRedacted vs ws → IsRedacted (list vs) (list ws)
      mapping_redacted :
          {ms ns : Members} → AreMembersRedacted ms ns → IsRedacted (mapping ms) (mapping ns)
      left_alone : {s : String} → IsRedacted (other s) (other s)

    pub data AreValuesRedacted : Values → Values → Type 0 where
      no_values_redacted : AreValuesRedacted no_values no_values
      value_redacted :
          {v w : Value} {vs ws : Values}
          → IsRedacted v w
          → AreValuesRedacted vs ws
          → AreValuesRedacted (value v vs) (value w ws)

    pub data AreMembersRedacted : Members → Members → Type 0 where
      no_members_redacted : AreMembersRedacted no_members no_members
      hidden_member :
          {key : String} {v : Value} {ms ns : Members}
          → IsListed x policy.redact_keys key
          → AreMembersRedacted ms ns
          → AreMembersRedacted (member key v ms) (member key (text policy.replacement) ns)
      shown_member :
          {key : String} {v w : Value} {ms ns : Members}
          → (¬ IsListed x policy.redact_keys key)
          → IsRedacted v w
          → AreMembersRedacted ms ns
          → AreMembersRedacted (member key v ms) (member key w ns)

  elem-IsListed :
      (ks : List String) (key : String)
      → (elem (x.casefold key) (map (x.casefold) ks) ≡ true) ↔ IsListed x ks key
  elem-IsListed [] key = (λ h. cc, λ h. absurd h)
  elem-IsListed (k ∷ ks) key =
      let (to, from) = elem-IsListed ks key in
      let here = eq_iff (x.casefold k) (x.casefold key) in
      elim (Bool-cases (x.casefold k =ₛ x.casefold key)) [
        | inl e ↦ rw e (λ h. inl (here.0 e), λ h. refl)
        | inr e ↦ rw e (
          λ h. inr (to h),
          λ h. elim h [ inl same ↦ absurd (cc (here.1 same, e)) | inr later ↦ from later ],
        )
      ]

  sensitive_iff :
      (key : String) → (is_sensitive x policy key ≡ true) ↔ IsListed x policy.redact_keys key
  sensitive_iff key = elem-IsListed policy.redact_keys key

  apply_rules-IsSubstituted :
      (path : List String) (rules : List RedactionRule) (s : String)
      → IsSubstituted x rules s (apply_rules x policy path rules s).0
  unfolding apply_rules
  apply_rules-IsSubstituted path [] s = refl
  apply_rules-IsSubstituted path (rule ∷ rest) s =
      apply_rules-IsSubstituted path rest (x.subn rule.pattern rule.replacement s).0

  -- redaction leaves no sensitive value
  mutual
    unfolding redact_value

    value-IsRedacted :
        (path : List String) (v : Value) → IsRedacted v (redact_value x policy path v).0
    value-IsRedacted path (text s) = text_redacted (apply_rules-IsSubstituted path policy.rules s)
    value-IsRedacted path (list vs) = list_redacted (values-IsRedacted path 0 vs)
    value-IsRedacted path (mapping ms) = mapping_redacted (mapping-IsRedacted path ms)
    value-IsRedacted path (other s) = left_alone

    values-IsRedacted :
        (path : List String) (i : ℕ) (vs : Values)
        → AreValuesRedacted vs (redact_values x policy path i vs).0
    values-IsRedacted path i no_values = no_values_redacted
    values-IsRedacted path i (value v vs) =
        value_redacted (value-IsRedacted (path ++ x.decimal i ∷ []) v)
          (values-IsRedacted path (suc i) vs)

    mapping-IsRedacted :
        (path : List String) (ms : Members)
        → AreMembersRedacted ms (redact_mapping x policy path ms).0
    mapping-IsRedacted path no_members = no_members_redacted
    mapping-IsRedacted path (member key v ms) =
        let own = value-IsRedacted (path ++ key ∷ []) v in
        let rest = mapping-IsRedacted path ms in
        let (to, from) = sensitive_iff key in
        elim (Bool-cases (is_sensitive x policy key)) [
          | inl hidden ↦ rw hidden (hidden_member (to hidden) rest)
          | inr shown ↦ rw shown (shown_member (λ l. absurd (cc (from l, shown))) own rest)
        ]

  -- a text that no rule matches is left as it is
  apply_rules-nil :
      ((pattern replacement s : String)
        → (x.subn pattern replacement s).1 ≡ 0
        → (x.subn pattern replacement s).0 ≡ s)
      → (path : List String) (rules : List RedactionRule) (s : String)
      → (apply_rules x policy path rules s).1 ≡ []
      → (apply_rules x policy path rules s).0 ≡ s
  unfolding apply_rules
  apply_rules-nil unmatched path [] s h = refl
  apply_rules-nil unmatched path (rule ∷ rest) s h =
      let found = x.subn rule.pattern rule.replacement s in
      elim (Bool-cases (ltb 0 found.1)) [
        | inl matched ↦ absurd (nonempty_when (ltb 0 found.1) _ _ matched h)
        | inr nothing ↦
            let same = unmatched rule.pattern rule.replacement s (ground arith) in
            let h' = empty_when (ltb 0 found.1) _ _ nothing h in
            apply_rules-nil unmatched path rest found.0 h' ∙ same
      ]

  -- the findings of a member
  hidden_found :
      (path : List String) (key : String) (v : Value) (ms : Members)
      → is_sensitive x policy key ≡ true
      → (redact_mapping x policy path (member key v ms)).1 ≢ []
  unfolding redact_mapping
  hidden_found path key v ms hidden = rw hidden (λ h. cc)

  shown_found :
      (path : List String) (key : String) (v : Value) (ms : Members)
      → is_sensitive x policy key ≡ false
      → (redact_mapping x policy path (member key v ms)).1 ≡ []
      → (redact_value x policy (path ++ key ∷ []) v).1 ++ (redact_mapping x policy path ms).1 ≡ []
  unfolding redact_mapping
  shown_found path key v ms shown = rw shown (λ h. h)

  module _
      (unmatched : (pattern replacement s : String)
        → (x.subn pattern replacement s).1 ≡ 0
        → (x.subn pattern replacement s).0 ≡ s) where
    mutual
      unfolding redact_value

      value-unchanged :
          (path : List String) (v : Value)
          → (redact_value x policy path v).1 ≡ []
          → (redact_value x policy path v).0 ≡ v
      value-unchanged path (text s) h = ap text (apply_rules-nil unmatched path policy.rules s h)
      value-unchanged path (list vs) h = ap list (values-unchanged path 0 vs h)
      value-unchanged path (mapping ms) h = ap mapping (mapping-unchanged path ms h)
      value-unchanged path (other s) h = refl

      values-unchanged :
          (path : List String) (i : ℕ) (vs : Values)
          → (redact_values x policy path i vs).1 ≡ []
          → (redact_values x policy path i vs).0 ≡ vs
      values-unchanged path i no_values h = refl
      values-unchanged path i (value v vs) h =
          let (own, rest) =
            append-nil_both (redact_value x policy (path ++ x.decimal i ∷ []) v).1 _ h in
          let a = value-unchanged (path ++ x.decimal i ∷ []) v own in
          let b = values-unchanged path (suc i) vs rest in λ j. value (a j) (b j)

      mapping-unchanged :
          (path : List String) (ms : Members)
          → (redact_mapping x policy path ms).1 ≡ []
          → (redact_mapping x policy path ms).0 ≡ ms
      mapping-unchanged path no_members h = refl
      mapping-unchanged path (member key v ms) h = elim (Bool-cases (is_sensitive x policy key)) [
        | inl hidden ↦ absurd (hidden_found path key v ms hidden h)
        | inr shown ↦
            let h' = shown_found path key v ms shown h in
            let (own, rest) = append-nil_both (redact_value x policy (path ++ key ∷ []) v).1 _ h' in
            let a = value-unchanged (path ++ key ∷ []) v own in
            let b = mapping-unchanged path ms rest in rw shown (λ j. member key (a j) (b j))
      ]

-- A redacted mapping has the keys of the mapping in the same order, and so has every mapping in it;
-- at any depth, a key that equals a key of the policy once their cases are folded has the policy's
-- replacement as its value, and the value of any other key is redacted in turn; every text there is
-- what the substitutions of all the rules, in order, make of the text. The redacted mapping is the
-- mapping itself when nothing was found, where the substitution of a pattern that does not occur
-- leaves the text as it is.
pub redact_mapping-IsRedacted :
    (x : Externals) (policy : PrivacyPolicy) (ms : Members)
    → ((pattern replacement s : String)
        → (x.subn pattern replacement s).1 ≡ 0
        → (x.subn pattern replacement s).0 ≡ s)
    → IsRedacted x policy (mapping ms) (mapping (redact_mapping x policy [] ms).0)
      × ((redact_mapping x policy [] ms).1 ≡ [] → (redact_mapping x policy [] ms).0 ≡ ms)
redact_mapping-IsRedacted x policy ms unmatched = (
  mapping_redacted (mapping-IsRedacted x policy [] ms),
  mapping-unchanged x policy unmatched [] ms,
)
