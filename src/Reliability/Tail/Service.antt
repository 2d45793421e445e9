-- ===== src/Reliability/Tail/Service.antt =====
-- transition_reliability_state of src/statewake/services/reliability_state_service.py on a file as a
-- crash may have left it: each read and each append repairs a tail that does not decode.
use state_wake.Base.{String, ℕ, Option, List, last, Result, Check, ok, err, ◌>>=◌, Datetime}
use state_wake.Reliability.{ReliabilityStateTransition, of_subject}
use state_wake.Reliability.Service.{
  ReliabilityEvidenceChain, Prepared, repeated, fresh, check_request, last_of, prepare_from,
}
use state_wake.Reliability.Tail.{File, settle, read_file, append_file}

module _ (computed_digest : ReliabilityStateTransition → String) where
  -- the second read, or the append
  unfoldable pub finish_file : File → Result Prepared → File × Result ReliabilityStateTransition
  finish_file f (err e) = (f, err e)
  finish_file f (ok (repeated subject_id)) =
      let (g, transitions) = read_file computed_digest f in
      settle g (transitions >>= λ ts. last_of g (last (of_subject subject_id ts)))
  finish_file f (ok (fresh t)) = append_file computed_digest f t

  module _ (derive_id : String → String → ReliabilityEvidenceChain → ℕ → String)
      (subject_id : String) (chain : ReliabilityEvidenceChain) (actor : String) (when : Datetime)
      (rationale : List String) where
    -- from the first read on
    unfoldable pub after_read :
        File × Result (List ReliabilityStateTransition) → File × Result ReliabilityStateTransition
    unfolding finish_file
    after_read (g, err e) = (g, err e)
    after_read (g, ok ts) = finish_file g (
        prepare_from computed_digest derive_id subject_id (last (of_subject subject_id ts)) chain
          actor when rationale)

    -- from the tests of the call on
    unfoldable pub after_request : File → Check → File × Result ReliabilityStateTransition
    unfolding after_read
    after_request f (err e) = (f, err e)
    after_request f (ok tt) = after_read (read_file computed_digest f)

    -- the service: the file that it leaves, and what it returns or raises
    unfoldable pub transition_file :
        Option (ReliabilityEvidenceChain → Check) → File → File × Result ReliabilityStateTransition
    unfolding after_request
    transition_file verify_chain f =
        after_request f (check_request verify_chain subject_id chain when)
