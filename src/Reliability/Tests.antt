-- ===== src/Reliability/Tests.antt =====
-- The history theorems on a subject that becomes unreliable and then recovers.
use state_wake.Base.{
  ℕ, String, ◌≡◌, ◌≢◌, refl, none, some, List, [], ◌∷◌, Check, ok, true, false, last, is_blank,
  is_sha256, aware, text_functions,
}
use state_wake.Reliability.{
  ReliabilityStateTransition, Line, of_subject, find_existing, check_transition, append, read,
  read_all,
}
use state_wake.Reliability.Service.{
  snapshot, ReliabilityEvidenceChain, fresh, prepare, finish, service_functions,
}
use state_wake.Reliability.Reached.{Reached, nothing, called, IsHistory, Reached-IsHistory}
use state_wake.Reliability.Sqlite
use state_wake.Reliability.Sqlite.{decode}
use state_wake.Reliability.Tail.{
  File, recover_partial_tail, record_of, undecodable, read_file, append_file,
}
use state_wake.Reliability.Tail.Crash.{whole, with_tail, append_file_poisons}
use state_wake.Reliability.Sqlite.Refinement.{run, answers, stores_agree}
use state_wake.Reliability.Tail.Whole.{append_file_again}
use state_wake.Reliability.Tail.Service.{transition_file}
use state_wake.Reliability.Tail.Progress.{transition_file-reliable}
use state_wake.Reliability.Recovery.{IsRecovery, prepare-IsRecovery}

abbrev digest_a : String
digest_a = "0123456789abcdef0123456789abcdef0123456789abcdef0123456789abcdef"

abbrev digest : ReliabilityStateTransition → String
digest t = digest_a

digest-nonempty : (t : ReliabilityStateTransition) → digest t ≢ ""
digest-nonempty t e = cc

abbrev verified : ReliabilityEvidenceChain → Check
verified chain = ok tt

abbrev identity : String → String → ReliabilityEvidenceChain → ℕ → String
identity subject_id previous chain when = chain.chain_id

abbrev rejection : ReliabilityEvidenceChain
rejection = record {
  chain_id = "c1";
  decision = "reject";
  reliability_state = "unreliable";
  reconciliation_state = "none";
  recovery_ref = none;
  decision_rationale = "failed" ∷ [];
  digest = digest_a;
}

abbrev recovery : ReliabilityEvidenceChain
recovery = record {
  chain_id = "c2";
  decision = "accept";
  reliability_state = "recovered";
  reconciliation_state = "recovered";
  recovery_ref = some "r1";
  decision_rationale = "fixed" ∷ [];
  digest = digest_a;
}

abbrev first : ReliabilityStateTransition
first = record {
  transition_id = "c1";
  subject_id = "s";
  from_state = "unknown";
  to_state = "unreliable";
  occurred_at = aware 1;
  actor = "ops";
  evidence_chain_id = "c1";
  evidence_chain_digest = digest_a;
  decision = "reject";
  rationale = "failed" ∷ [];
  previous_transition_digest = "";
}

abbrev second : ReliabilityStateTransition
second = record {
  transition_id = "c2";
  subject_id = "s";
  from_state = "unreliable";
  to_state = "recovered";
  occurred_at = aware 2;
  actor = "ops";
  evidence_chain_id = "c2";
  evidence_chain_digest = digest_a;
  decision = "accept";
  rationale = "fixed" ∷ [];
  previous_transition_digest = digest_a;
}

abbrev one : List Line
one = (record { transition = first; digest = digest_a }) ∷ []

abbrev two : List Line
two =
    (record { transition = first; digest = digest_a })
    ∷ (record { transition = second; digest = digest_a })
    ∷ []

prepare-first :
    prepare digest (some verified) identity [] "s" rejection "ops" (aware 1) [] ≡ ok (fresh first)
unfolding service_functions text_functions
prepare-first = refl

prepare-second :
    prepare digest (some verified) identity one "s" recovery "ops" (aware 2) [] ≡ ok (fresh second)
unfolding service_functions text_functions
prepare-second = refl

append-first : append digest [] first ≡ ok (one, first)
unfolding service_functions text_functions
append-first = refl

append-second : append digest one second ≡ ok (two, second)
unfolding service_functions text_functions
append-second = refl

first-check : check_transition first ≡ ok tt
unfolding service_functions text_functions
first-check = refl

second-check : check_transition second ≡ ok tt
unfolding service_functions text_functions
second-check = refl

finish-first : finish digest [] (fresh first) ≡ ok (one, first)
unfolding service_functions
finish-first = append-first

finish-second : finish digest one (fresh second) ≡ ok (two, second)
unfolding service_functions
finish-second = append-second

two-Reached : Reached digest (some verified) identity two
two-Reached =
    called one one two "s" recovery "ops" (aware 2) [] (fresh second) second
      (called [] [] one "s" rejection "ops" (aware 1) [] (fresh first) first nothing prepare-first
        finish-first)
      prepare-second finish-second

Reached-IsHistory_example : IsHistory digest (some verified) identity two
Reached-IsHistory_example =
    Reached-IsHistory digest (some verified) identity digest-nonempty two two-Reached

abbrev crashed : File
crashed = with_tail one undecodable

append_file-crashed : append_file digest crashed second ≡ (whole two, ok second)
unfolding append_file recover_partial_tail decode service_functions text_functions
append_file-crashed = refl

recovered : (recover_partial_tail digest crashed).tail ≡ none
unfolding recover_partial_tail
recovered = refl

append_file_again_example : append_file digest (whole two) second ≡ (whole two, ok second)
append_file_again_example =
    append_file_again digest crashed (whole two) second second second-check recovered
      append_file-crashed

prepare-IsRecovery_example :
    IsRecovery second recovery
    × ((verify : ReliabilityEvidenceChain → Check)
        → some verified ≡ some verify
        → verify recovery ≡ ok tt)
prepare-IsRecovery_example =
    prepare-IsRecovery digest (some verified) identity one "s" recovery "ops" (aware 2) [] second
      prepare-second refl

stores_agree_example :
    (answers (Sqlite.append digest) [] (first ∷ second ∷ first ∷ [])
      ≡ answers (append digest) [] (first ∷ second ∷ first ∷ []))
    × (Sqlite.read digest (run (Sqlite.append digest) [] (first ∷ second ∷ first ∷ [])) none
        ≡ read_all digest (run (append digest) [] (first ∷ second ∷ first ∷ [])))
    × ((s : String)
        → Sqlite.read digest (run (Sqlite.append digest) [] (first ∷ second ∷ first ∷ [])) (some s)
          ≡ read digest (run (append digest) [] (first ∷ second ∷ first ∷ [])) s)
stores_agree_example =
    stores_agree digest (first ∷ second ∷ first ∷ [])
      (first-check, (second-check, (first-check, tt)))

abbrev restoration : ReliabilityEvidenceChain
restoration = record {
  chain_id = "c3";
  decision = "accept";
  reliability_state = "reliable";
  reconciliation_state = "verified";
  recovery_ref = none;
  decision_rationale = "passed" ∷ [];
  digest = digest_a;
}

one-reads : read_all digest one ≡ ok (first ∷ [])
unfolding service_functions text_functions
one-reads = refl

digest-IsSha256 : is_sha256 digest_a ≡ true
unfolding text_functions
digest-IsSha256 = refl

named : (is_blank "s" ≡ false) × (is_blank "ops" ≡ false) × (is_blank "c3" ≡ false)
unfolding text_functions
named = (refl, refl, refl)

unreliable-first : (snapshot digest "s" (last (of_subject "s" (first ∷ [])))).state ≢ "reliable"
unfolding snapshot
unreliable-first e = cc

new-restoration : find_existing (first ∷ []) "c3" ≡ none
unfolding find_existing
new-restoration = refl

crashed-reads : (read_file digest crashed).1 ≡ ok (first ∷ [])
unfolding read_file recover_partial_tail decode service_functions text_functions
crashed-reads = refl

transition_file-reliable_example :
    (f' : File) × (t : ReliabilityStateTransition) × (transition_file digest identity "s"
        restoration "ops"
        (aware 3)
        []
        (some verified)
        crashed
      ≡ (f', ok t))
    × (t.subject_id ≡ "s")
    × (t.to_state ≡ "reliable")
    × ((read_file digest f').1 ≡ ok (first ∷ t ∷ []))
transition_file-reliable_example =
    transition_file-reliable digest (some verified) identity crashed (first ∷ []) "s" restoration
      "ops" (aware 3) [] "c3" recovered crashed-reads (λ t. digest-IsSha256) named.0 named.1 named.2
      digest-IsSha256 refl refl refl refl unreliable-first refl named.2 new-restoration

-- a crash cut off the newline of the first record
append_file-second :
    append_file digest
      (with_tail [] (record_of (record { transition = first; digest = digest_a })))
      second
    ≡ (record { lines = undecodable ∷ []; tail = none }, ok second)
unfolding append_file decode service_functions text_functions
append_file-second = refl

first-decode : decode digest (record { transition = first; digest = digest_a }) ≡ ok first
unfolding decode service_functions text_functions
first-decode = refl

new-second : find_existing (first ∷ []) "c2" ≡ none
unfolding find_existing
new-second = refl

append_file_poisons_example :
    ((us : List ReliabilityStateTransition)
      → (read_file digest (record { lines = undecodable ∷ []; tail = none })).1 ≢ ok us)
    × ((x r : ReliabilityStateTransition)
        → (append_file digest (record { lines = undecodable ∷ []; tail = none }) x).1 ≢ ok r)
append_file_poisons_example =
    append_file_poisons digest [] (record { transition = first; digest = digest_a }) (first ∷ [])
      second (record { lines = undecodable ∷ []; tail = none }) one-reads first-decode new-second
      append_file-second
