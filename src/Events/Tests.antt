-- ===== src/Events/Tests.antt =====
-- The theorem on files of events, at a file with two runs.
use state_wake.Base.{true, ℕ, String, none, [], ◌∷◌, ok, aware}
use state_wake.Events.{EventEnvelope, File, blank, decoded}

abbrev event : String → ℕ → EventEnvelope
event run n = record {
  run_id = run;
  sequence = n;
  occurred_at = aware n;
  event_type = "tool.called";
  actor = "agent";
  name = none;
  state_id = none;
  payload_ref = none;
  metadata = [];
}

abbrev two_runs : File
two_runs = record {
  ended = true;
  lines =
      decoded (ok (event "r" 0))
      ∷ blank
      ∷ decoded (ok (event "q" 0))
      ∷ decoded (ok (event "r" 1))
      ∷ [];
}
