-- ===== src/Reliability/Tail/Progress.antt =====
-- The service on a file whose last line ends with its newline is the service on its lines; so a
-- subject can be brought back to the reliable state on such a file.
use state_wake.Base.{
  false, true, ℕ, String, ◌≡◌, ◌≢◌, refl, sym, ap, ◌∙◌, inl, inr, Option, none, some, List, [], ◌∷◌,
  ◌++◌, last, is_blank, is_sha256, is_naive, Datetime, instant, Result, Check, ok, err, ◌>>=◌,
}
use state_wake.Reliability.{
  ReliabilityStateTransition, Line, of_subject, find_existing, read_all, read,
}
use state_wake.Reliability.Service.{
  ReliabilityEvidenceChain, Prepared, repeated, fresh, check_request, verify_given, last_of,
  snapshot, or_empty, prepare_from, prepare, finish, transition_reliability_state,
}
use state_wake.Reliability.Progress.{transition_reliability_state-reliable}
use state_wake.Reliability.Tail.{File, settle, recover_partial_tail, read_file}
use state_wake.Reliability.Tail.Service.{finish_file, after_read, after_request, transition_file}
use state_wake.Reliability.Tail.Crash.{whole, on_whole, Result-cases}
use state_wake.Reliability.Tail.Whole.{
  read_file-whole, append_file-whole, recovered-whole, read_file-recovered,
}

module _ (computed_digest : ReliabilityStateTransition → String) where
  settle-last :
      (lines : List Line) (o : Option ReliabilityStateTransition)
      → settle (whole lines) (last_of (whole lines) o)
        ≡ on_whole computed_digest lines (last_of lines o)
  settle-last lines none = refl
  settle-last lines (some t) = refl

  finish_file-whole :
      (lines : List Line) (p : Result Prepared)
      → finish_file computed_digest (whole lines) p
        ≡ on_whole computed_digest lines (p >>= finish computed_digest lines)
  unfolding finish_file finish read
  finish_file-whole lines (err e) = refl
  finish_file-whole lines (ok (fresh t)) = append_file-whole computed_digest lines t
  finish_file-whole lines (ok (repeated s)) = elim (Result-cases (read_all computed_digest lines)) [
    | inl (ts, h) ↦
        rw (read_file-whole computed_digest lines, h) (settle-last lines (last (of_subject s ts)))
    | inr (e, h) ↦ rw (read_file-whole computed_digest lines, h) refl
  ]

  module _ (verify_chain : Option (ReliabilityEvidenceChain → Check))
      (derive_id : String → String → ReliabilityEvidenceChain → ℕ → String) (subject_id : String)
      (chain : ReliabilityEvidenceChain) (actor : String) (when : Datetime)
      (rationale : List String) where
    transition_file-whole :
        (lines : List Line)
        → transition_file computed_digest derive_id subject_id chain actor when rationale
            verify_chain
            (whole lines)
          ≡ on_whole computed_digest lines (
              transition_reliability_state computed_digest verify_chain derive_id lines subject_id
                chain actor when rationale)
    unfolding transition_file after_request after_read transition_reliability_state prepare read
    transition_file-whole lines =
        elim (Result-cases (check_request verify_chain subject_id chain when)) [
          | inr (e, refused) ↦ rw refused refl
          | inl (tt, allowed) ↦ elim (Result-cases (read_all computed_digest lines)) [
            | inr (e, h) ↦ rw (allowed, read_file-whole computed_digest lines, h) refl
            | inl (ts, h) ↦
                rw (allowed, read_file-whole computed_digest lines, h)
                  (finish_file-whole lines (
                    prepare_from computed_digest derive_id subject_id
                      (last (of_subject subject_id ts)) chain actor when rationale))
          ]
        ]

    -- a call whose own tests pass looks at the repaired file only
    transition_file-recovered :
        (f : File) (lines : List Line)
        → check_request verify_chain subject_id chain when ≡ ok tt
        → recover_partial_tail computed_digest f ≡ whole lines
        → transition_file computed_digest derive_id subject_id chain actor when rationale
            verify_chain f
          ≡ transition_file computed_digest derive_id subject_id chain actor when rationale
              verify_chain
              (whole lines)
    unfolding transition_file after_request
    transition_file-recovered f lines allowed same = rw allowed (
        ap (after_read computed_digest derive_id subject_id chain actor when rationale)
          (read_file-recovered computed_digest f lines same))

-- In a file that reads and whose last record, once a tail that does not decode is cut, ends with
-- its newline, a subject in any state but reliable is brought to the reliable state by an evidence
-- chain that accepts it as reliable, and is verified if an evidence root is given, where subject,
-- actor and chain are named, the time has a zone, digests are SHA-256 texts, and the identity
-- derived for the transition is not blank and new: the service returns a transition to the reliable
-- state, and the file then reads as the history with that transition at its end.
pub transition_file-reliable :
    (computed_digest : ReliabilityStateTransition → String)
    (verify_chain : Option (ReliabilityEvidenceChain → Check))
    (derive_id : String → String → ReliabilityEvidenceChain → ℕ → String) (f : File)
    (ts : List ReliabilityStateTransition) (subject_id : String) (chain : ReliabilityEvidenceChain)
    (actor : String) (when : Datetime) (rationale : List String) (id : String)
    → (recover_partial_tail computed_digest f).tail ≡ none
    → (read_file computed_digest f).1 ≡ ok ts
    → ((t : ReliabilityStateTransition) → is_sha256 (computed_digest t) ≡ true)
    → is_blank subject_id ≡ false
    → is_blank actor ≡ false
    → is_blank chain.chain_id ≡ false
    → is_sha256 chain.digest ≡ true
    → is_naive when ≡ false
    → verify_given verify_chain chain ≡ ok tt
    → chain.decision ≡ "accept"
    → chain.reliability_state ≡ "reliable"
    → (snapshot computed_digest subject_id (last (of_subject subject_id ts))).state ≢ "reliable"
    → derive_id subject_id
        (or_empty
          (snapshot computed_digest subject_id (last (of_subject subject_id ts))).transition_digest)
        chain
        (instant when)
      ≡ id
    → is_blank id ≡ false
    → find_existing ts id ≡ none
    → (f' : File) × (t : ReliabilityStateTransition) × (transition_file computed_digest derive_id
          subject_id chain actor when rationale verify_chain f
        ≡ (f', ok t))
      × (t.subject_id ≡ subject_id)
      × (t.to_state ≡ "reliable")
      × ((read_file computed_digest f').1 ≡ ok (ts ++ t ∷ []))
unfolding check_request
transition_file-reliable computed_digest verify_chain derive_id f ts subject_id chain actor when
      rationale id ended h digests hs ha hc hd hw hv he hr other same hi new =
    let (lines, recovered) = recovered-whole computed_digest f ts ended h in
    let reads : read_all computed_digest lines ≡ ok ts =
      ap (λ p. p.1)
        (sym (read_file-whole computed_digest lines)
          ∙ sym (read_file-recovered computed_digest f lines recovered))
      ∙ h in
    let (lines', t, run, own, reliable, after) =
      transition_reliability_state-reliable computed_digest verify_chain derive_id lines ts
        subject_id chain actor when rationale id reads digests hs ha hc hd hw hv he hr other same hi
        new in
    let allowed : check_request verify_chain subject_id chain when ≡ ok tt = rw (hs, hw, hv) refl in
    (
      whole lines',
      t,
      transition_file-recovered computed_digest verify_chain derive_id subject_id chain actor when
            rationale f lines allowed recovered
          ∙ transition_file-whole computed_digest verify_chain derive_id subject_id chain actor when
              rationale lines
          ∙ ap (on_whole computed_digest lines) run,
      own,
      reliable,
      ap (λ p. p.1) (read_file-whole computed_digest lines') ∙ after,
    )
