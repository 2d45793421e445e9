-- ===== src/Reliability/Sqlite.antt =====
-- SqliteReliabilityStateStore of src/statewake/adapters/reliability_state.py. The table is the list of its
-- rows in the order of their sequence; the stored JSON is the transition with the digest beside it.
-- A transaction that raises leaves the table as it was.
pub mod Agrees
pub mod Refinement
use state_wake.Base.{
  String, ◌<>◌, Bool, true, false, not, ◌&&◌, Option, none, some, List, [], ◌∷◌, ◌++◌, any, filter,
  last, ◌=ₛ◌, is_empty, value_error, integrity_error, Result, Check, ok, err, ◌>>=◌, ◌>>◌, raise_if,
  if◌then◌else◌,
}
use state_wake.Reliability.{
  ReliabilityStateTransition, Line, tip, check_transition, same_payload, in_line,
}

pub record Row : Type 0 where
  pub transition_id : String
  pub subject_id : String
  pub digest : String
  pub payload : Line

-- `SELECT payload ... WHERE transition_id=?`, then fetchone()
unfoldable pub find_row : List Row → String → Option Row
find_row [] transition_id = none
find_row (row ∷ rest) transition_id =
    let later = find_row rest transition_id in
    if row.transition_id =ₛ transition_id then some row else later

-- `WHERE subject_id=? ORDER BY sequence`; with `DESC LIMIT 1` it is the last one
abbrev pub rows_of : String → List Row → List Row
rows_of subject_id = filter (λ row. row.subject_id =ₛ subject_id)

module _ (computed_digest : ReliabilityStateTransition → String) where
  -- from_dict(json.loads(row["payload"]))
  unfoldable pub decode : Line → Result ReliabilityStateTransition
  decode line = do
    raise_if (not (is_empty line.digest) && not (line.digest =ₛ computed_digest line.transition))
        (value_error "reliability-state transition digest mismatch.")
    check_transition line.transition
    ok line.transition

  -- the row that is inserted for a transition
  abbrev pub row_of : ReliabilityStateTransition → Row
  row_of t = record {
    transition_id = t.transition_id;
    subject_id = t.subject_id;
    digest = computed_digest t;
    payload = record { transition = t; digest = computed_digest t };
  }

  -- INSERT, under the UNIQUE constraint on the identity
  unfoldable pub insert :
      List Row → ReliabilityStateTransition → Result (List Row × ReliabilityStateTransition)
  insert rows t = do
    raise_if (any (λ row. row.transition_id =ₛ t.transition_id) rows)
        (integrity_error "UNIQUE constraint failed")
    ok (rows ++ row_of t ∷ [], t)

  -- the tests against the last row of the subject
  unfoldable pub check_latest : Option Row → ReliabilityStateTransition → Check
  unfolding decode
  check_latest none t =
      raise_if (not (t.previous_transition_digest =ₛ ""))
        (value_error "stale reliability-state tip")
  check_latest (some row) t = do
    raise_if (not (t.previous_transition_digest =ₛ row.digest))
        (value_error "stale reliability-state tip")
    previous ← decode row.payload
    raise_if (not (t.from_state =ₛ previous.to_state))
        (value_error "reliability-state predecessor mismatch")

  -- the transaction, once the row of the same identity is looked for
  unfoldable pub append_row :
      List Row
      → ReliabilityStateTransition
      → Option Row
      → Result (List Row × ReliabilityStateTransition)
  unfolding decode insert check_latest
  append_row rows t (some row) = do
    existing ← decode row.payload
    raise_if (not (same_payload existing t))
        (value_error ("transition identity collision: " <> t.transition_id))
    ok (rows, existing)
  append_row rows t none = do check_latest (last (rows_of t.subject_id rows)) t; insert rows t

  unfoldable pub append :
      List Row → ReliabilityStateTransition → Result (List Row × ReliabilityStateTransition)
  unfolding append_row
  append rows t = append_row rows t (find_row rows t.transition_id)

  -- the tests of the loop of `read`
  unfoldable pub check_row_parts : List (String × String) → Row → Check
  unfolding decode
  check_row_parts tips row = do
    transition ← decode row.payload
    raise_if (not (row.subject_id =ₛ transition.subject_id))
        (value_error "stored transition subject_id column does not match payload")
    raise_if (not (row.digest =ₛ computed_digest transition))
        (value_error "stored transition digest column does not match payload")
    raise_if (not (transition.previous_transition_digest =ₛ tip tips transition.subject_id))
        (value_error "previous transition digest does not match subject tip")
    raise_if (not (row.payload.digest =ₛ computed_digest transition))
        (value_error "stored transition digest mismatch")

  -- the loop, from the tips so far
  unfoldable pub read_rows :
      List (String × String) → List Row → Result (List ReliabilityStateTransition)
  unfolding check_row_parts
  read_rows tips [] = ok []
  read_rows tips (row ∷ rest) = do
    in_line (check_row_parts tips row)
    transitions ←
        read_rows
          ((row.payload.transition.subject_id, computed_digest row.payload.transition) ∷ tips) rest
    ok (row.payload.transition ∷ transitions)

  unfoldable pub read : List Row → Option String → Result (List ReliabilityStateTransition)
  unfolding read_rows
  read rows none = read_rows [] rows
  read rows (some subject_id) = read_rows [] (rows_of subject_id rows)
