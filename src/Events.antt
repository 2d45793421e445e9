-- ===== src/Events.antt =====
-- Run events and their file: src/statewake/domain/events.py and src/statewake/adapters/jsonl_store.py.
-- A dictionary of metadata is the list of its items in the order of their keys. The file is the list
-- of its lines, and whether the last one ends with a newline; a line is blank, or json.loads and
-- from_dict return an event or raise. Locking is not modelled.
pub mod Runs
mod Tests
use state_wake.Base.{
  ℕ, suc, ◌+◌, String, ◌<>◌, Bool, true, false, not, Option, none, some, List, [], ◌∷◌, ◌++◌, ◌==◌,
  ◌=ₛ◌, is_blank, filter, value_error, Result, Check, ok, err, ◌>>=◌, ◌>>◌, raise_if, if◌then◌else◌,
  Datetime, is_naive,
}

pub record EventEnvelope : Type 0 where
  pub run_id : String
  -- no sequence is negative
  pub sequence : ℕ
  pub occurred_at : Datetime
  pub event_type : String
  pub actor : String
  pub name : Option String
  pub state_id : Option String
  pub payload_ref : Option String
  pub metadata : List (String × String)

-- EventEnvelope.__post_init__
unfoldable pub check_event : EventEnvelope → Check
check_event e = do
  raise_if (is_blank e.run_id) (value_error "run_id must not be empty.")
  raise_if (is_blank e.event_type) (value_error "event_type must not be empty.")
  raise_if (is_blank e.actor) (value_error "actor must not be empty.")
  raise_if (is_naive e.occurred_at) (value_error "occurred_at must be timezone-aware.")

-- a line of the file; a decoded event has yet to pass its __post_init__
pub data Line : Type 0 where
  blank : Line
  decoded : Result EventEnvelope → Line

pub record File : Type 0 where
  pub lines : List Line
  -- the last line, if there is one, ends with its newline
  pub ended : Bool

-- `except (...) as exc: raise ValueError(...) from exc`, without the number of the line
abbrev pub in_line {ℓ} : {A : Type ℓ} → Result A → Result A
in_line (ok a) = ok a
in_line (err e) = err (value_error "Invalid event")

-- the loop of `_read_unlocked`, with no run chosen
unfoldable pub read_lines : List Line → Result (List EventEnvelope)
read_lines [] = ok []
read_lines (blank ∷ lines) = read_lines lines
read_lines (decoded r ∷ lines) = do
  event ← in_line (r >>= λ e. (check_event e >> ok e))
  events ← read_lines lines
  ok (event ∷ events)

-- `run_id is None or event.run_id == run_id`
abbrev pub of_run : Option String → EventEnvelope → Bool
of_run none e = true
of_run (some run_id) e = e.run_id =ₛ run_id

unfoldable pub read : File → Option String → Result (List EventEnvelope)
read file run_id = do events ← read_lines (file.lines); ok (filter (of_run run_id) events)

-- An event written into a line that has begun: behind white space it is the event, and behind a
-- document json.loads refuses it.
joined : Line → EventEnvelope → Line
joined blank event = decoded (ok event)
joined (decoded _) event = decoded (err (value_error "Extra data"))

-- `os.write` of the event to a file whose last line has no newline
join_last : List Line → EventEnvelope → List Line
unfolding joined
join_last [] event = decoded (ok event) ∷ []
join_last (l ∷ []) event = joined l event ∷ []
join_last (l ∷ k ∷ rest) event = l ∷ join_last (k ∷ rest) event

-- JsonlEventStore.append, which writes behind what the file holds and adds its own newline;
-- json.loads of the line gives the event back
unfoldable pub append : File → EventEnvelope → File
unfolding join_last
append file event = record {
  lines =
      if file.ended then file.lines ++ decoded (ok event) ∷ [] else join_last (file.lines) event;
  ended = true;
}

-- the loop of `validate_run`, from the next sequence that it expects
unfoldable pub check_sequences : ℕ → List EventEnvelope → Check
check_sequences expected [] = ok tt
check_sequences expected (e ∷ rest) = do
  raise_if (not (e.sequence == expected))
      (value_error ("Run has another sequence than expected: " <> e.run_id))
  check_sequences (suc expected) rest

unfoldable pub validate_run : File → String → Result (List EventEnvelope)
validate_run file run_id = do events ← read file (some run_id); check_sequences 0 events; ok events
