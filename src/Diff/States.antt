-- ===== src/Diff/States.antt =====
-- When a comparison of two states reports no change.
use state_wake.Base.{
  elem-sorted, elem_head, elem-append, elem-cons, inr, inl, String, ◌<>◌, ◌≡◌, refl, sym, ap, ◌∙◌,
  subst, ◌↔◌, Bool, true, false, not, ◌||◌, Option, none, some, List, [], ◌∷◌, ◌++◌, filter, elem,
  arith, Bool-cases,
}
use state_wake.States.{SystemState}
use state_wake.Diff.{
  option_text_eq, get, keys, union_keys, field_change, child_changes, state_changes,
}
use state_wake.Diff.Payloads.{option_text_eq-eq, option_text_eq_refl}

append_nil {ℓ} : {A : Type ℓ} (xs ys : List A) → (xs ++ ys ≡ []) ↔ ((xs ≡ []) × (ys ≡ []))
append_nil [] ys = (λ h. (refl, h), λ p. p.1)
append_nil (x ∷ xs) ys = (λ h. cc, λ p. cc)

field_change-nil : (path : String) (a b : Option String) → (field_change path a b ≡ []) ↔ (a ≡ b)
field_change-nil path a b = (
  λ h. elim (Bool-cases (option_text_eq a b)) [
    | inl same ↦ option_text_eq-eq a b same
    | inr differ ↦ absurd (ground arith)
  ],
  λ h. let same = subst (λ z. option_text_eq a z ≡ true) h (option_text_eq_refl a) in rw same refl,
)

-- a key that a dictionary does not have
get-keys :
    (xs : List (String × String)) (key : String) → elem key (keys xs) ≡ false → get xs key ≡ none
get-keys [] key h = refl
get-keys ((k, v) ∷ xs) key h = ground (arith, get-keys xs key)

child_changes-get :
    (name : String) (before after : List (String × String)) (children : List String)
    → child_changes name before after children ≡ []
    → (key : String) → elem key children ≡ true
    → get before key ≡ get after key
unfolding child_changes
child_changes-get name before after [] h key m = cc
child_changes-get name before after (child ∷ rest) h key m =
    let (own, later) =
      (append_nil (field_change (name <> "." <> child) (get before child) (get after child))
          (child_changes name before after rest)).0
        h in
    elim (elem-cons key child rest m) [
      | inl e ↦
          subst (λ k. get before k ≡ get after k) e
            ((field_change-nil _ (get before child) (get after child)).0 own)
      | inr m' ↦ child_changes-get name before after rest later key m'
    ]

child_changes-nil :
    (name : String) (before after : List (String × String)) (children : List String)
    → ((key : String) → get before key ≡ get after key)
    → child_changes name before after children ≡ []
unfolding child_changes
child_changes-nil name before after [] h = refl
child_changes-nil name before after (child ∷ rest) h =
    (append_nil (field_change (name <> "." <> child) (get before child) (get after child))
        (child_changes name before after rest)).1
      (
        (field_change-nil _ (get before child) (get after child)).1 (h child),
        child_changes-nil name before after rest h,
      )

pub elem-filter :
    (x : String) (p : String → Bool) (xs : List String)
    → elem x xs ≡ true
    → p x ≡ true
    → elem x (filter p xs) ≡ true
elem-filter x p [] m h = m
elem-filter x p (y ∷ ys) m h = elim (elem-cons x y ys m) [
  | inl e ↦
      let own = subst (λ z. p z ≡ true) (sym e) h in
      rw own (subst (λ z. elem x (z ∷ filter p ys) ≡ true) (sym e) (elem_head x (filter p ys)))
  | inr m' ↦ ground (arith, elem-filter x p ys m' h)
]

-- the keys of both
elem-union_keys :
    (before after : List (String × String)) (key : String)
    → elem key (union_keys before after) ≡ false
    → (elem key (keys before) ≡ false) × (elem key (keys after) ≡ false)
unfolding union_keys
elem-union_keys before after key h =
    let new = filter (λ k. not (elem k (keys before))) (keys after) in
    let flat : elem key (keys before) || elem key new ≡ false =
      sym (elem-append key (keys before) new) ∙ sym (elem-sorted key (keys before ++ new)) ∙ h in
    let left : elem key (keys before) ≡ false = ground arith in
    elim (Bool-cases (elem key (keys after))) [
      | inl m ↦
          let found =
            elem-filter key (λ k. not (elem k (keys before))) (keys after) m (ground arith) in
          absurd (ground arith)
      | inr absent ↦ (left, absent)
    ]

tool_changes-nil :
    (name : String) (before after : List (String × String))
    → (child_changes name before after (union_keys before after) ≡ [])
      ↔ ((key : String) → get before key ≡ get after key)
tool_changes-nil name before after = (
  λ h key. elim (Bool-cases (elem key (union_keys before after))) [
    | inl m ↦ child_changes-get name before after (union_keys before after) h key m
    | inr absent ↦
        let (l, r) = elem-union_keys before after key absent in
        get-keys before key l ∙ sym (get-keys after key r)
  ],
  child_changes-nil name before after (union_keys before after),
)

-- two states with the same fields, and the same digest for each tool
abbrev pub AreSameStates : SystemState → SystemState → Type 0
AreSameStates s t =
    (s.agent_version ≡ t.agent_version)
    × (s.memory_digest ≡ t.memory_digest)
    × (s.model ≡ t.model)
    × (s.policy_digest ≡ t.policy_digest)
    × (s.prompt_digest ≡ t.prompt_digest)
    × (s.retrieval_digest ≡ t.retrieval_digest)
    × ((tool : String) → get s.tool_digests tool ≡ get t.tool_digests tool)

field_change-eq : (path : String) {a b : Option String} → field_change path a b ≡ [] → a ≡ b
field_change-eq path {a = a} {b = b} h = (field_change-nil path a b).0 h

some_eq : {a b : String} → some a ≡ some b → a ≡ b
some_eq h = cc

pub state_changes-nil : (s t : SystemState) → (state_changes s t ≡ []) ↔ AreSameStates s t
unfolding state_changes
state_changes-nil s t = (
  λ h.
      let (h6, e7) =
        (append_nil _ (
            child_changes "tool_digests" s.tool_digests t.tool_digests
              (union_keys s.tool_digests t.tool_digests))).0
          h in
      let (h5, e6) =
        (append_nil _ (field_change "retrieval_digest" s.retrieval_digest t.retrieval_digest)).0
          h6 in
      let (h4, e5) =
        (append_nil _
            (field_change "prompt_digest" (some s.prompt_digest) (some t.prompt_digest))).0
          h5 in
      let (h3, e4) =
        (append_nil _ (field_change "policy_digest" s.policy_digest t.policy_digest)).0 h4 in
      let (h2, e3) = (append_nil _ (field_change "model" (some s.model) (some t.model))).0 h3 in
      let (e1, e2) =
        (append_nil (field_change "agent_version" (some s.agent_version) (some t.agent_version))
            (field_change "memory_digest" s.memory_digest t.memory_digest)).0
          h2 in
      (
        some_eq (field_change-eq _ e1),
        field_change-eq _ e2,
        some_eq (field_change-eq _ e3),
        field_change-eq _ e4,
        some_eq (field_change-eq _ e5),
        field_change-eq _ e6,
        (tool_changes-nil "tool_digests" s.tool_digests t.tool_digests).0 e7,
      ),
  λ (e1, e2, e3, e4, e5, e6, e7).
      rw
        (
          (field_change-nil "agent_version" (some s.agent_version) (some t.agent_version)).1
              (ap some e1),
          (field_change-nil "memory_digest" s.memory_digest t.memory_digest).1 e2,
          (field_change-nil "model" (some s.model) (some t.model)).1 (ap some e3),
          (field_change-nil "policy_digest" s.policy_digest t.policy_digest).1 e4,
          (field_change-nil "prompt_digest" (some s.prompt_digest) (some t.prompt_digest)).1
              (ap some e5),
          (field_change-nil "retrieval_digest" s.retrieval_digest t.retrieval_digest).1 e6,
          (tool_changes-nil "tool_digests" s.tool_digests t.tool_digests).1 e7,
        )
        refl,
)
