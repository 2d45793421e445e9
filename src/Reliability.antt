-- ===== src/Reliability.antt =====
-- Reliability states and their hash-linked history: src/statewake/domain/reliability_state.py,
-- src/statewake/adapters/reliability_state.py and src/statewake/services/reliability_state_service.py.
-- States and decisions are the source's texts. A history file is the list of its decoded lines; the
-- JSON codec, the lock and telemetry are not modelled; Tail has the repair of a partial last line, with
-- which every store of the service is made (recover_partial_tail is true).
pub mod Parse
pub mod Histories
pub mod Service
pub mod Reached
pub mod Retry
pub mod Recovery
pub mod Sqlite
pub mod Progress
pub mod Tail
pub mod Chain
mod Tests
use state_wake.Base.{
  texts_eq, ℕ, String, ◌<>◌, Bool, true, false, not, ◌&&◌, ◌||◌, Option, none, some, List, [], ◌∷◌,
  ◌++◌, map, ◌=ₛ◌, ◌==◌, is_blank, is_empty, is_nil, is_sha256, elem, filter, last, value_error,
  Result, Check, ok, err, ◌>>=◌, ◌>>◌, raise_if, if◌then◌else◌, Datetime, aware, is_naive, instant,
}

-- RELIABILITY_STATES
abbrev pub reliability_states : List String
reliability_states = "unknown" ∷ "reliable" ∷ "degraded" ∷ "unreliable" ∷ "recovered" ∷ []

-- `ALLOWED_TRANSITIONS.get(state, frozenset())`
unfoldable pub allowed_transitions : String → List String
allowed_transitions state =
    if state =ₛ "unknown"
    then "reliable" ∷ "degraded" ∷ "unreliable" ∷ []
    else if state =ₛ "reliable"
    then "degraded" ∷ "unreliable" ∷ []
    else if state =ₛ "degraded"
    then "reliable" ∷ "unreliable" ∷ []
    else if state =ₛ "unreliable"
    then "recovered" ∷ "reliable" ∷ "degraded" ∷ []
    else if state =ₛ "recovered"
    then "reliable" ∷ "degraded" ∷ "unreliable" ∷ []
    else []

pub record ReliabilityStateTransition : Type 0 where
  pub transition_id : String
  pub subject_id : String
  pub from_state : String
  pub to_state : String
  pub occurred_at : Datetime
  pub actor : String
  pub evidence_chain_id : String
  pub evidence_chain_digest : String
  pub decision : String
  pub rationale : List String
  pub previous_transition_digest : String

-- the tests of the decision against the state that it leads to
unfoldable pub check_decision : String → String → Check
check_decision to_state decision = do
  raise_if (not (elem decision ("accept" ∷ "review" ∷ "reject" ∷ [])))
      (value_error "decision must be accept, review, or reject.")
  raise_if (elem to_state ("reliable" ∷ "recovered" ∷ []) && not (decision =ₛ "accept"))
      (value_error "reliable/recovered transitions require an accept decision.")
  raise_if (to_state =ₛ "degraded" && not (decision =ₛ "review"))
      (value_error "degraded transitions require a review decision.")
  raise_if (to_state =ₛ "unreliable" && not (decision =ₛ "reject"))
      (value_error "unreliable transitions require a reject decision.")

-- the tests of the identities and the states
unfoldable pub check_states : ReliabilityStateTransition → Check
check_states t = do
  raise_if (is_blank t.transition_id || is_blank t.subject_id || is_blank t.actor)
      (value_error "transition_id, subject_id, and actor must not be empty.")
  raise_if (not (elem t.from_state reliability_states))
      (value_error ("unsupported from_state: " <> t.from_state))
  raise_if (not (elem t.to_state reliability_states))
      (value_error ("unsupported to_state: " <> t.to_state))
  raise_if (not (elem t.to_state (allowed_transitions t.from_state))) (
      value_error
        ("invalid reliability-state transition: " <> t.from_state <> " -> " <> t.to_state))

-- the tests of the time and the evidence
unfoldable pub check_evidence : ReliabilityStateTransition → Check
check_evidence t = do
  raise_if (is_naive t.occurred_at) (value_error "occurred_at must be timezone-aware.")
  raise_if (is_blank t.evidence_chain_id) (value_error "evidence_chain_id must not be empty.")
  raise_if (not (is_sha256 t.evidence_chain_digest))
      (value_error "evidence_chain_digest must be lowercase SHA-256 hex.")
  raise_if
      (not (is_empty t.previous_transition_digest) && not (is_sha256 t.previous_transition_digest))
      (value_error "previous_transition_digest must be lowercase SHA-256 hex.")

-- ReliabilityStateTransition.__post_init__, its tests
unfoldable pub check_transition : ReliabilityStateTransition → Check
unfolding check_states check_evidence check_decision
check_transition t = do check_states t; check_evidence t; check_decision t.to_state t.decision

-- `existing.to_dict() == transition.to_dict()`; the digests of equal payloads are equal
unfoldable pub same_payload : ReliabilityStateTransition → ReliabilityStateTransition → Bool
same_payload a b =
    a.transition_id =ₛ b.transition_id
    && a.subject_id =ₛ b.subject_id
    && a.from_state =ₛ b.from_state
    && a.to_state =ₛ b.to_state
    && instant a.occurred_at == instant b.occurred_at
    && a.actor =ₛ b.actor
    && a.evidence_chain_id =ₛ b.evidence_chain_id
    && a.evidence_chain_digest =ₛ b.evidence_chain_digest
    && a.decision =ₛ b.decision
    && texts_eq a.rationale b.rationale
    && a.previous_transition_digest =ₛ b.previous_transition_digest

-- a line of the file: the transition and the digest that stands beside it
pub record Line : Type 0 where
  pub transition : ReliabilityStateTransition
  pub digest : String

-- `tips.get(subject_id, "")`
unfoldable pub tip : List (String × String) → String → String
tip [] subject_id = ""
tip ((s, d) ∷ rest) subject_id =
    let other = tip rest subject_id in if s =ₛ subject_id then d else other

-- the selection by subject
abbrev pub of_subject : String → List ReliabilityStateTransition → List ReliabilityStateTransition
of_subject subject_id = filter (λ t. t.subject_id =ₛ subject_id)

-- the test for a transition of the same identity, in the order of the file
unfoldable pub find_existing :
    List ReliabilityStateTransition → String → Option ReliabilityStateTransition
find_existing [] transition_id = none
find_existing (t ∷ rest) transition_id =
    let later = find_existing rest transition_id in
    if t.transition_id =ₛ transition_id then some t else later

-- `except (...) as exc: raise ValueError(...) from exc` where the last line is whole, without the
-- number of the line
abbrev pub in_line : Check → Check
in_line (ok tt) = ok tt
in_line (err e) = err (value_error "Invalid reliability-state transition")

-- `ReliabilityStateTransition.computed_digest`, SHA-256 of the canonical JSON, is a parameter.
module _ (computed_digest : ReliabilityStateTransition → String) where
  -- the tests of the loop of parse_reliability_state_history; from_dict compares a supplied digest
  -- with the payload, and the loop requires one
  unfoldable pub check_line_parts : List (String × String) → Line → Check
  check_line_parts tips line = do
    raise_if (not (is_empty line.digest) && not (line.digest =ₛ computed_digest line.transition))
        (value_error "reliability-state transition digest mismatch.")
    check_transition line.transition
    raise_if
        (not (line.transition.previous_transition_digest =ₛ tip tips line.transition.subject_id))
        (value_error "previous transition digest does not match subject tip")
    raise_if (not (line.digest =ₛ computed_digest line.transition))
        (value_error "stored transition digest mismatch")

  -- the `try` around them
  unfoldable pub check_line : List (String × String) → Line → Check
  unfolding check_line_parts
  check_line tips line = in_line (check_line_parts tips line)

  -- the loop, from the tips so far; a dictionary keeps the last tip of a subject
  unfoldable pub parse_from :
      List (String × String) → List Line → Result (List ReliabilityStateTransition)
  parse_from tips [] = ok []
  parse_from tips (line ∷ rest) = do
    check_line tips line
    transitions ←
        parse_from ((line.transition.subject_id, computed_digest line.transition) ∷ tips) rest
    ok (line.transition ∷ transitions)

  -- JsonlReliabilityStateStore.read, without a subject and with one
  unfoldable pub read_all : List Line → Result (List ReliabilityStateTransition)
  read_all = parse_from []

  unfoldable pub read : List Line → String → Result (List ReliabilityStateTransition)
  read file subject_id = do transitions ← read_all file; ok (of_subject subject_id transitions)

  -- the tests of `append` against the last transition of the subject
  unfoldable pub check_predecessor :
      Option ReliabilityStateTransition → ReliabilityStateTransition → Check
  check_predecessor none t =
      raise_if (not (t.previous_transition_digest =ₛ ""))
        (value_error "stale reliability-state tip")
  check_predecessor (some previous) t = do
    raise_if (not (t.previous_transition_digest =ₛ computed_digest previous))
        (value_error "stale reliability-state tip")
    raise_if (not (t.from_state =ₛ previous.to_state))
        (value_error "reliability-state predecessor mismatch")

  -- JsonlReliabilityStateStore.append once the file is read: the file after it, and what it returns
  unfoldable pub append_to :
      List Line
      → List ReliabilityStateTransition
      → ReliabilityStateTransition
      → Option ReliabilityStateTransition
      → Result (List Line × ReliabilityStateTransition)
  append_to file transitions t (some existing) = do
    raise_if (not (same_payload existing t))
        (value_error ("transition identity collision: " <> t.transition_id))
    ok (file, existing)
  append_to file transitions t none = do
    check_predecessor (last (of_subject t.subject_id transitions)) t
    ok (file ++ (record { transition = t; digest = computed_digest t } ∷ []), t)

  -- `append` to a file of whole lines; Tail has every file, and Tail/Whole that the two agree here
  unfoldable pub append :
      List Line → ReliabilityStateTransition → Result (List Line × ReliabilityStateTransition)
  append file t = do
    transitions ← read_all file
    append_to file transitions t (find_existing transitions t.transition_id)
