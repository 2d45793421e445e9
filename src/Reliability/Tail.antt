-- ===== src/Reliability/Tail.antt =====
-- The last line of a history file after a crash: _recover_partial_tail, and read and append of
-- JsonlReliabilityStateStore around it, in src/statewake/adapters/reliability_state.py. A line is a
-- record of the codec, or something that json.loads refuses; what follows the last newline is the tail.
pub mod Crash
pub mod Whole
pub mod Service
pub mod Progress
use state_wake.Base.{
  String, ◌<>◌, not, ◌&&◌, Option, none, some, List, [], ◌∷◌, ◌++◌, map, last, ◌=ₛ◌, is_empty,
  value_error, Result, ok, err, ◌>>=◌, ◌>>◌, raise_if,
}
use state_wake.Reliability.{
  ReliabilityStateTransition, Line, check_line, check_transition, check_predecessor, find_existing,
  of_subject, same_payload,
}
use state_wake.Reliability.Sqlite.{decode}

pub data Content : Type 0 where
  record_of : Line → Content
  undecodable : Content

pub record File : Type 0 where
  pub lines : List Content
  pub tail : Option Content

-- the lines that `splitlines` gives
abbrev pub all_lines : File → List Content
all_lines f = elim (f.tail) [ none ↦ f.lines | some c ↦ f.lines ++ c ∷ [] ]

-- A record written with its newline. After a tail it stands in the same line, which is then no JSON
-- document: json.loads refuses whatever follows an object.
abbrev pub write : File → Line → File
write f line = elim (f.tail) [
  | none ↦ record { lines = f.lines ++ record_of line ∷ []; tail = none }
  | some c ↦ record { lines = f.lines ++ undecodable ∷ []; tail = none }
]

-- the tail is kept when from_dict returned
abbrev pub kept_tail : File → Result ReliabilityStateTransition → File
kept_tail f (ok t) = f
kept_tail f (err e) = record f { tail = none }

-- what a call leaves: the file it has written, or the file as it was when it raised
abbrev pub settle :
    File → Result (File × ReliabilityStateTransition) → File × Result ReliabilityStateTransition
settle g (ok (f, t)) = (f, ok t)
settle g (err e) = (g, err e)

module _ (computed_digest : ReliabilityStateTransition → String) where
  -- the loop of parse_reliability_state_history, with its test of the codec
  unfoldable pub parse_contents :
      List (String × String) → List Content → Result (List ReliabilityStateTransition)
  parse_contents tips [] = ok []
  parse_contents tips (undecodable ∷ rest) =
      err (value_error "Invalid reliability-state transition")
  parse_contents tips (record_of line ∷ rest) = do
    check_line computed_digest tips line
    transitions ←
        parse_contents ((line.transition.subject_id, computed_digest line.transition) ∷ tips) rest
    ok (line.transition ∷ transitions)

  -- _recover_partial_tail: the tail is kept when it is a record that from_dict accepts
  unfoldable pub recover_partial_tail : File → File
  recover_partial_tail f = elim (f.tail) [
    | none ↦ f
    | some undecodable ↦ record f { tail = none }
    | some (record_of line) ↦ kept_tail f (decode computed_digest line)
  ]

  -- JsonlReliabilityStateStore.read of all subjects: the file after it, and what it returns or raises
  unfoldable pub read_file : File → File × Result (List ReliabilityStateTransition)
  unfolding recover_partial_tail parse_contents
  read_file f = let g = recover_partial_tail f in (g, parse_contents [] (all_lines g))

  -- the tests of `append`, and its write, with the transition of the same identity
  unfoldable pub append_found :
      File
      → List ReliabilityStateTransition
      → ReliabilityStateTransition
      → Option ReliabilityStateTransition
      → Result (File × ReliabilityStateTransition)
  append_found f transitions t (some existing) = do
    raise_if (not (same_payload existing t))
        (value_error ("transition identity collision: " <> t.transition_id))
    ok (f, existing)
  append_found f transitions t none = do
    check_predecessor computed_digest (last (of_subject t.subject_id transitions)) t
    ok (write f (record { transition = t; digest = computed_digest t }), t)

  abbrev pub append_checked :
      File
      → List ReliabilityStateTransition
      → ReliabilityStateTransition
      → Result (File × ReliabilityStateTransition)
  append_checked f transitions t =
      append_found f transitions t (find_existing transitions t.transition_id)

  -- `append` to a file as a crash may have left it; the repair stays when the append raises
  unfoldable pub append_file :
      File → ReliabilityStateTransition → File × Result ReliabilityStateTransition
  unfolding recover_partial_tail parse_contents append_found
  append_file f t =
      let g = recover_partial_tail f in
      settle g (parse_contents [] (all_lines g) >>= λ transitions. append_checked g transitions t)
