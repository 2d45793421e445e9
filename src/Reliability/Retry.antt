-- ===== src/Reliability/Retry.antt =====
-- An append to whole lines that is tried again.
use state_wake.Base.{
  texts_eq_refl, String, ◌≡◌, inl, inr, sym, ◌∙◌, subst, true, Option, none, some, List, [], ◌∷◌,
  ◌++◌, ◌=ₛ◌, eq_iff, last, ok, >>=-ok, >>=-eq-ok, >>-eq-ok, arith, Bool-cases, Option-cases,
}
use state_wake.Reliability.{
  ReliabilityStateTransition, Line, same_payload, check_transition, of_subject, read_all,
  check_predecessor, find_existing, append_to, append,
}
use state_wake.Reliability.Parse.{digest_or, read_all-append}

same_payload_refl : (t : ReliabilityStateTransition) → same_payload t t ≡ true
unfolding same_payload
same_payload_refl t = ground (
  arith,
  eq_iff t.transition_id t.transition_id,
  eq_iff t.subject_id t.subject_id,
  eq_iff t.from_state t.from_state,
  eq_iff t.to_state t.to_state,
  eq_iff t.actor t.actor,
  eq_iff t.evidence_chain_id t.evidence_chain_id,
  eq_iff t.evidence_chain_digest t.evidence_chain_digest,
  eq_iff t.decision t.decision,
  texts_eq_refl t.rationale,
  eq_iff t.previous_transition_digest t.previous_transition_digest,
)

-- a transition appended to a list that has none of its identity is the one that is found
find_existing-append :
    (ts : List ReliabilityStateTransition) (t : ReliabilityStateTransition)
    → find_existing ts t.transition_id ≡ none
    → find_existing (ts ++ t ∷ []) t.transition_id ≡ some t
unfolding find_existing
find_existing-append [] t h = ground (arith, eq_iff t.transition_id t.transition_id)
find_existing-append (x ∷ ts) t h = elim (Bool-cases (x.transition_id =ₛ t.transition_id)) [
  | inl here ↦ ground arith
  | inr other ↦
      let rest : find_existing ts t.transition_id ≡ none = ground arith in
      let later = find_existing-append ts t rest in rw other later
]

module _ (computed_digest : ReliabilityStateTransition → String) where
  pub check_predecessor-linked :
      (latest : Option ReliabilityStateTransition) (t : ReliabilityStateTransition)
      → check_predecessor computed_digest latest t ≡ ok tt
      → t.previous_transition_digest ≡ digest_or computed_digest "" latest
  unfolding check_predecessor
  check_predecessor-linked none t h = ground (arith, eq_iff t.previous_transition_digest "")
  check_predecessor-linked (some p) t h =
      ground (arith, eq_iff t.previous_transition_digest (computed_digest p))

  -- the second append of a transition to whole lines
  pub append_again :
      (file file' : List Line) (t r : ReliabilityStateTransition)
      → check_transition t ≡ ok tt
      → append computed_digest file t ≡ ok (file', r)
      → append computed_digest file' t ≡ ok (file', r)
  unfolding append append_to
  append_again file file' t r v h =
      let (ts, e, h1) = >>=-eq-ok (read_all computed_digest file) _ h in
      elim (Option-cases (find_existing ts t.transition_id)) [
        | inl missing ↦
            let run : append_to computed_digest file ts t none ≡ ok (file', r) =
              subst (λ o. append_to computed_digest file ts t o ≡ ok (file', r)) missing h1 in
            let (c, h2) =
              >>-eq-ok (check_predecessor computed_digest (last (of_subject t.subject_id ts)) t) _
                run in
            let grown : file ++ (record { transition = t; digest = computed_digest t }) ∷ []
                ≡ file' =
              ground arith in
            let same : t ≡ r = ground arith in
            let reads =
              read_all-append computed_digest file ts t e v
                (check_predecessor-linked (last (of_subject t.subject_id ts)) t c) in
            let reads' : read_all computed_digest file' ≡ ok (ts ++ t ∷ []) =
              subst (λ f. read_all computed_digest f ≡ ok (ts ++ t ∷ [])) grown reads in
            let found = find_existing-append ts t missing in
            let again : append_to computed_digest file' (ts ++ t ∷ []) t (some t) ≡ ok (file', r) =
              ground (arith, same_payload_refl t) in
            >>=-ok (read_all computed_digest file') _ (ts ++ t ∷ []) reads'
            ∙ subst (λ o. append_to computed_digest file' (ts ++ t ∷ []) t o ≡ ok (file', r))
                (sym found) again
        | inr (existing, found) ↦
            let run : append_to computed_digest file ts t (some existing) ≡ ok (file', r) =
              subst (λ o. append_to computed_digest file ts t o ≡ ok (file', r)) found h1 in
            let same : file ≡ file' = ground arith in
            subst (λ f. append computed_digest f t ≡ ok (file', r)) same h
      ]
