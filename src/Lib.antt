-- ===== src/Lib.antt =====
-- StateWake records evidence of the runs of software agents and decides what may be relied on. This
-- library models the core of its Python package, src/statewake, and proves what makes that core correct.
--
-- Parts, and the files that model them (paths are from the repository's root):
--
-- Base (text, lists, Result, Datetime) is shared. A call that may raise returns a Result whose Error
-- carries the exception's message, without the values that some messages name. Texts are native strings, numbers native naturals. The source
-- refuses negative counts, so a natural stands for them. A datetime is naive, or aware with its instant
-- in UTC in microseconds, or in a named zone with its wall clock as well: is_before is Python's
-- comparison, by the wall clock in one zone and by the instant otherwise. An enumeration of the source is a data type, and a text that the source tests
-- against a fixed list is read into one where the test stands (Sensitivity, incident statuses).
--
-- Provenance (src/statewake/domain/provenance.py, src/statewake/services/provenance_service.py) is the
-- graph of artifacts: check_node and check_graph are the __post_init__ methods; validate_acyclic with
-- visit is the depth-first search, whose limit is what is left of Python's recursion limit; reachable
-- is the stack loop, on fuel. Its fuel is the number of all sources of all nodes plus two, and enough: a
-- node is expanded once. Provenance/Proof has build_integrity_proof.
--
-- Keys (src/statewake/domain/cryptographic_trust.py) has keys, profiles, transitions and migrations, and
-- rotate_key, retire_key, revoke_key, validate_historical_verification and
-- validate_algorithm_transition.
--
-- Attestation (src/statewake/domain/attestation_trust.py) has trust anchors, signed states and the check of a
-- transition. Attestation/History is _parse_history_records and Attestation/Store is
-- JsonlAttestationTrustHistoryStore (src/statewake/adapters/attestation_trust_history.py); the file is the list
-- of its decoded lines and whether the last one ends with a newline, behind which append writes. Digests, date parsing and the signature check are parameters (Externals).
--
-- Reliability (src/statewake/domain/reliability_state.py, src/statewake/adapters/reliability_state.py) has the
-- states, the transition contract, the hash-linked history with parse_from, read and append of
-- JsonlReliabilityStateStore. Reliability/Service is transition_reliability_state
-- (src/statewake/services/reliability_state_service.py), cut at the append: prepare reads a snapshot,
-- finish reads or appends to the file as it is by then, so that interleaved callers are sequences of the two.
-- The digests are parameters; what a theorem uses of them is that a digest is not the empty text, or that
-- it is a SHA-256 text. Reliability/Sqlite is SqliteReliabilityStateStore, its table the list of its rows.
-- The chain is verified where an evidence root is given, so verify_chain is optional. These files are
-- lists of whole lines. Reliability/Tail has the repair of a last line that a crash cut, and read and
-- append around it, over files with whole lines and a tail; Reliability/Tail/Service has the service over
-- such files, and Reliability/Tail/Whole and Reliability/Tail/Progress show that both agree on whole lines. Reliability/Chain has the evidence chain that a transition rests on
-- (src/statewake/domain/reliability_evidence.py).
--
-- Sensitivity and Lifecycle (src/statewake/domain/governance.py, src/statewake/domain/data_lifecycle.py) have
-- the sensitivity order, its inheritance, retention, deletion and disclosure. Operations
-- (src/statewake/domain/operations.py) has operational bundles and uses the inheritance of Sensitivity.
--
-- Access (src/statewake/domain/access_control.py) has principals, grants and authorize.
--
-- Retention (src/statewake/domain/retention.py, src/statewake/adapters/retention.py) has retention requirements
-- and the in-memory adapter, with its legal holds.
--
-- Incident (src/statewake/domain/security_incident.py) has incidents and their validation;
-- Incident/Timeline has IncidentTimeline and build_incident_timeline, Incident/Continuity has
-- verify_forensic_continuity and reconstruct_security_state.
--
-- Events and States (src/statewake/domain/events.py, src/statewake/adapters/jsonl_store.py,
-- src/statewake/domain/state.py) have the events of a run, their file with validate_run, and snapshots of a
-- system. The file of events is the list of its lines and whether the last one ends with a newline. A dictionary of metadata is the list of its items in the order of their keys.
--
-- Evidence (src/statewake/domain/evidence.py, src/statewake/domain/governance.py) has manifests of evidence and,
-- in Evidence/Governance, the decision where they may go and their projection for telemetry.
--
-- Diff (src/statewake/domain/diff.py) compares two runs: Diff/Lcs is _lcs_matches, table and walk; between is
-- the loop over anchors that _action_alignment runs on two levels; compare is compare.
--
-- Containment (src/statewake/domain/runtime_containment.py) has the limits on untrusted input:
-- Containment/Json the bounded walk of a decoded document, and the checks of archives. A document whose
-- texts cannot be encoded as UTF-8, or that is nested too deeply for the interpreter, counts as refused by
-- the decoder, which is a parameter.
--
-- Anchor (src/statewake/domain/trust_anchor.py) has signed checkpoints of a history and the check of their
-- sequence; Anchor/Store is JsonTrustAnchorStore (src/statewake/adapters/trust_anchor.py) over the list of the
-- files of its directory.
--
-- Privacy (src/statewake/domain/privacy.py) redacts metadata by keys and rules; regular expressions and casefold
-- are parameters.
--
-- Not modelled: JSON codecs, canonical JSON and SHA-256, locks, telemetry, clocks,
-- archives on disk, the command line, servers, integrations and views. They are input and output, or
-- calls of libraries; what the code relies on of them is a parameter where a model needs it.
pub mod Base
pub mod Provenance
pub mod Keys
pub mod Attestation
pub mod Reliability
pub mod Sensitivity
pub mod Lifecycle
pub mod Operations
pub mod Access
pub mod Retention
pub mod Incident
pub mod Events
pub mod States
pub mod Evidence
pub mod Diff
pub mod Containment
pub mod Anchor
pub mod Privacy
