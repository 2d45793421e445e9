-- ===== src/Reliability/Progress.antt =====
-- A subject can always be brought back to the reliable state, on a file of whole lines.
pub mod Allowed
pub mod Built
use state_wake.Base.{
  elem-cons, raise_if-eq-ok, >>-eq-ok, ℕ, String, ◌≡◌, ◌≢◌, refl, sym, ◌∙◌, subst, inl, inr, Bool,
  true, false, not, ◌&&◌, ◌||◌, Option, none, some, List, [], ◌∷◌, ◌++◌, elem, last, ◌=ₛ◌, eq_iff,
  is_blank, is_empty, is_sha256, is_naive, Datetime, instant, Check, ok, raise_if, arith,
  Bool-cases, Option-cases,
}
use state_wake.Reliability.{
  ReliabilityStateTransition, Line, reliability_states, allowed_transitions, check_transition,
  check_states, check_evidence, check_decision, of_subject, find_existing, check_predecessor,
  append_to, append, read_all, read,
}
use state_wake.Reliability.Parse.{read_all-append}
use state_wake.Reliability.Retry.{check_predecessor-linked}
use state_wake.Reliability.Sqlite.Agrees.{AreLinked-last, of_subject-AreLinked}
use state_wake.Reliability.Sqlite.Refinement.{read_all-AreLinked}
use state_wake.Reliability.Service.{
  check_request, verify_given, ReliabilityEvidenceChain, ReliabilityStateSnapshot,
  check_chain_decision, check_recovery, or_empty, fresh, snapshot, build_transition, prepare_fresh,
  prepare_from, prepare, finish, transition_reliability_state,
}
use state_wake.Reliability.Progress.Built.{
  current_state, built, built-check, built-prepared, prepare_from-fresh, built-predecessor,
  built-appended,
}

-- the same on whole lines
pub transition_reliability_state-reliable :
    (computed_digest : ReliabilityStateTransition → String)
    (verify_chain : Option (ReliabilityEvidenceChain → Check))
    (derive_id : String → String → ReliabilityEvidenceChain → ℕ → String) (file : List Line)
    (ts : List ReliabilityStateTransition) (subject_id : String) (chain : ReliabilityEvidenceChain)
    (actor : String) (when : Datetime) (rationale : List String) (id : String)
    → read_all computed_digest file ≡ ok ts
    → ((t : ReliabilityStateTransition) → is_sha256 (computed_digest t) ≡ true)
    → is_blank subject_id ≡ false
    → is_blank actor ≡ false
    → is_blank chain.chain_id ≡ false
    → is_sha256 chain.digest ≡ true
    → is_naive when ≡ false
    → verify_given verify_chain chain ≡ ok tt
    → chain.decision ≡ "accept"
    → chain.reliability_state ≡ "reliable"
    → (snapshot computed_digest subject_id (last (of_subject subject_id ts))).state ≢ "reliable"
    → derive_id subject_id
        (or_empty
          (snapshot computed_digest subject_id (last (of_subject subject_id ts))).transition_digest)
        chain
        (instant when)
      ≡ id
    → is_blank id ≡ false
    → find_existing ts id ≡ none
    → (file' : List Line) × (t : ReliabilityStateTransition) × (transition_reliability_state
          computed_digest verify_chain derive_id file subject_id chain actor when rationale
        ≡ ok (file', t))
      × (t.subject_id ≡ subject_id)
      × (t.to_state ≡ "reliable")
      × (read_all computed_digest file' ≡ ok (ts ++ t ∷ []))
unfolding transition_reliability_state prepare finish check_request read build_transition
transition_reliability_state-reliable computed_digest verify_chain derive_id file ts subject_id
      chain actor when rationale id h digests hs ha hc hd hw hv he hr other same hi new =
    let latest = last (of_subject subject_id ts) in
    let linked =
      of_subject-AreLinked computed_digest subject_id [] [] ts refl
        (read_all-AreLinked computed_digest file ts h) in
    let known =
      current_state computed_digest subject_id latest chain actor when rationale id
        (λ p e. AreLinked-last computed_digest [] (of_subject subject_id ts) p linked e) in
    let t = built computed_digest subject_id latest chain actor when rationale id in
    let v =
      built-check computed_digest subject_id latest chain actor when rationale id hs ha hi hc hd
        digests he hr known other in
    let prepared =
      built-prepared computed_digest subject_id latest chain actor when rationale id derive_id same
        he hr known other v in
    let from =
      prepare_from-fresh computed_digest derive_id subject_id latest chain actor when rationale
        (subst (λ z. (snapshot computed_digest subject_id latest).state ≢ z) (sym hr) other)
      ∙ prepared in
    let c = built-predecessor computed_digest subject_id latest chain actor when rationale id in
    let reads =
      read_all-append computed_digest file ts t h v
        (check_predecessor-linked computed_digest latest t c) in
    (
      file ++ (record { transition = t; digest = computed_digest t }) ∷ [],
      t,
      rw (hs, hw, hv, h, from)
          (built-appended computed_digest subject_id latest chain actor when rationale id file ts h
            new c),
      refl,
      hr,
      reads,
    )
