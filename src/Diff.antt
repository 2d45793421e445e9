-- ===== src/Diff.antt =====
-- Behavioural comparison of two runs: src/statewake/domain/diff.py. Digests and other values of a state
-- are texts; two events have equal keys in the alignment when their action payloads are equal, of
-- which the source compares the `repr`.
pub mod Lcs
pub mod Payloads
pub mod Alignment
pub mod Diagonal
pub mod Changes
pub mod States
pub mod Compare
mod Tests
use state_wake.Base.{
  ℕ, zero, suc, ◌+◌, ◌-◌, String, ◌<>◌, Bool, true, false, not, ◌&&◌, ◌||◌, Option, none, some,
  List, [], ◌∷◌, ◌++◌, map, filter, any, elem, sorted, last, length, take, drop, get_elem?, is_nil,
  is_empty, ltb, ◌=ₛ◌, texts_eq, starts_with, if◌then◌else◌,
}
use state_wake.Events.{EventEnvelope}
use state_wake.States.{SystemState}
use state_wake.Evidence.{EvidenceManifest, evidence_ids}
use state_wake.Diff.Lcs.{lcs_matches}

pub record FieldChange : Type 0 where
  pub path : String
  pub before : Option String
  pub after : Option String

pub data ChangeType : Type 0 where
  added removed changed_action : ChangeType

pub record ActionChange : Type 0 where
  pub change_type : ChangeType
  pub before : Option EventEnvelope
  pub after : Option EventEnvelope

pub record BehavioralDiff : Type 0 where
  pub state_changes : List FieldChange
  pub outcome_before : Option String
  pub outcome_after : Option String
  pub evidence_added : List String
  pub evidence_removed : List String
  pub action_changes : List ActionChange

-- `a == b` on texts that may be None
abbrev pub option_text_eq : Option String → Option String → Bool
option_text_eq none none = true
option_text_eq (some a) (some b) = a =ₛ b
option_text_eq none (some _) = false
option_text_eq (some _) none = false

-- BehavioralDiff.changed
abbrev pub changed : BehavioralDiff → Bool
changed d =
    not (is_nil d.state_changes)
    || not (option_text_eq d.outcome_before d.outcome_after)
    || not (is_nil d.evidence_added)
    || not (is_nil d.evidence_removed)
    || not (is_nil d.action_changes)

abbrev is_one_sided : ActionChange → Bool
is_one_sided c = elim c.change_type [ added ↦ true | removed ↦ true | changed_action ↦ false ]

abbrev is_critical : FieldChange → Bool
is_critical c =
    elem c.path ("model" ∷ "prompt_digest" ∷ "policy_digest" ∷ "retrieval_digest" ∷ [])
    || starts_with c.path "tool_digests."

pub data Risk : Type 0 where
  high medium low no_risk : Risk

-- BehavioralDiff.risk
abbrev pub risk : BehavioralDiff → Risk
risk d =
    if not (option_text_eq d.outcome_before d.outcome_after)
    then high
    else if not (is_nil d.action_changes)
    then (if any is_one_sided d.action_changes then high else medium)
    else if not (is_nil d.state_changes)
    then (if any is_critical d.state_changes then medium else low)
    else if not (is_nil d.evidence_added) || not (is_nil d.evidence_removed)
    then low
    else no_risk

-- `mapping.get(key)`
abbrev pub get : List (String × String) → String → Option String
get [] key = none
get ((k, v) ∷ rest) key = if k =ₛ key then some v else get rest key

-- `sorted(set(before) | set(after))` on the keys of two dictionaries
abbrev pub keys : List (String × String) → List String
keys = map (λ (item : String × String). item.0)

unfoldable pub union_keys : List (String × String) → List (String × String) → List String
union_keys before after =
    sorted (keys before ++ filter (λ k. not (elem k (keys before))) (keys after))

-- a field whose values differ
abbrev pub field_change : String → Option String → Option String → List FieldChange
field_change path before after =
    if option_text_eq before after
    then []
    else (record { path = path; before = before; after = after }) ∷ []

-- the inner loop over the names of two dictionaries
unfoldable pub child_changes :
    String → List (String × String) → List (String × String) → List String → List FieldChange
child_changes key before after [] = []
child_changes key before after (child ∷ rest) =
    field_change (key <> "." <> child) (get before child) (get after child)
    ++ child_changes key before after rest

-- _state_changes; the keys of the two payloads are the same, here in their order
unfoldable pub state_changes : SystemState → SystemState → List FieldChange
state_changes before after =
    field_change "agent_version" (some before.agent_version) (some after.agent_version)
    ++ field_change "memory_digest" before.memory_digest after.memory_digest
    ++ field_change "model" (some before.model) (some after.model)
    ++ field_change "policy_digest" before.policy_digest after.policy_digest
    ++ field_change "prompt_digest" (some before.prompt_digest) (some after.prompt_digest)
    ++ field_change "retrieval_digest" before.retrieval_digest after.retrieval_digest
    ++ child_changes "tool_digests" before.tool_digests after.tool_digests
        (union_keys before.tool_digests after.tool_digests)

-- _evidence_ids
abbrev pub manifest_ids : Option EvidenceManifest → List String
manifest_ids none = []
manifest_ids (some m) = evidence_ids m.items

-- `a or b`, and `a or b` with a text at the end
abbrev or_text : Option String → String → String
or_text none b = b
or_text (some a) b = if is_empty a then b else a

-- the outcome that an event names, or else its name, or else the text
abbrev outcome_of : EventEnvelope → String → String
outcome_of e default = or_text (get e.metadata "outcome") (or_text e.name default)

-- the last of the events that completes the run
last_completed : List EventEnvelope → Option EventEnvelope
last_completed [] = none
last_completed (e ∷ rest) = elim (last_completed rest) [
  | some later ↦ some later
  | none ↦ if e.event_type =ₛ "run.completed" then some e else none
]

abbrev terminal_outcome : Option EventEnvelope → Option String
terminal_outcome none = none
terminal_outcome (some e) = some (outcome_of e e.event_type)

-- _outcome
unfoldable pub outcome : List EventEnvelope → Option String
unfolding last_completed
outcome events = elim (last_completed events) [
  | some e ↦ some (outcome_of e "completed")
  | none ↦ terminal_outcome (last events)
]

-- _action_events
abbrev is_action : EventEnvelope → Bool
is_action e =
    starts_with e.event_type "action."
    || starts_with e.event_type "decision."
    || elem e.event_type ("tool.called" ∷ "tool.returned" ∷ [])

unfoldable pub action_events : List EventEnvelope → List EventEnvelope
action_events = filter is_action

-- the event without its sequence and its time
pub record ActionPayload : Type 0 where
  pub run_id : String
  pub event_type : String
  pub actor : String
  pub name : Option String
  pub state_id : Option String
  pub payload_ref : Option String
  pub metadata : List (String × String)

-- _action_payload
abbrev pub action_payload : EventEnvelope → ActionPayload
action_payload e = record {
  run_id = e.run_id;
  event_type = e.event_type;
  actor = e.actor;
  name = e.name;
  state_id = e.state_id;
  payload_ref = e.payload_ref;
  metadata = e.metadata;
}

abbrev pub items_eq : List (String × String) → List (String × String) → Bool
items_eq [] [] = true
items_eq ((k, v) ∷ xs) ((l, w) ∷ ys) = k =ₛ l && v =ₛ w && items_eq xs ys
items_eq [] (_ ∷ _) = false
items_eq (_ ∷ _) [] = false

unfoldable pub payload_eq : ActionPayload → ActionPayload → Bool
payload_eq a b =
    a.run_id =ₛ b.run_id
    && a.event_type =ₛ b.event_type
    && a.actor =ₛ b.actor
    && option_text_eq a.name b.name
    && option_text_eq a.state_id b.state_id
    && option_text_eq a.payload_ref b.payload_ref
    && items_eq a.metadata b.metadata

-- the loop over the keys of `_action_identity`
identity_from : EventEnvelope → List String → List String
identity_from e [] =
    "shape" ∷ e.event_type ∷ e.actor ∷ or_text e.state_id "" ∷ or_text e.payload_ref "" ∷ []
identity_from e (key ∷ rest) =
    let later = identity_from e rest in
    let value = or_text (get e.metadata key) "" in
    if is_empty value then later else "id" ∷ key ∷ value ∷ []

-- _action_identity
unfoldable pub action_identity : EventEnvelope → List String
unfolding identity_from
action_identity e = identity_from e ("action_id" ∷ "tool_call_id" ∷ "decision_id" ∷ "event_id" ∷ [])

-- an index on either side, or None
abbrev pub Pair : Type 0
Pair = Option ℕ × Option ℕ

-- `range(n)`, from a number on
abbrev pub range_from : ℕ → ℕ → List ℕ
range_from i zero = []
range_from i (suc n) = i ∷ range_from (suc i) n

-- `xs[p:a]`
abbrev pub slice : ℕ → ℕ → List ℕ → List ℕ
slice p a xs = take (a - p) (drop p xs)

-- the two residuals by position, then what is left of the longer
unfoldable pub zip_residual : List ℕ → List ℕ → List Pair
zip_residual [] [] = []
zip_residual (l ∷ ls) [] = (some l, none) ∷ zip_residual ls []
zip_residual [] (r ∷ rs) = (none, some r) ∷ zip_residual [] rs
zip_residual (l ∷ ls) (r ∷ rs) = (some l, some r) ∷ zip_residual ls rs

-- The loop over neighbouring anchors, from the positions behind the last one: `gap` aligns what is
-- between, and the anchor itself is a pair unless it is the end.
unfoldable pub between :
    (List ℕ → List ℕ → List Pair) → List (ℕ × ℕ) → ℕ → ℕ → List ℕ → List ℕ → List Pair
between gap [] p q ls rs = []
between gap ((a, b) ∷ anchors) p q ls rs =
    gap (slice p a ls) (slice q b rs)
    ++ ((if ltb a (length ls) && ltb b (length rs)
          then (get_elem? ls a, get_elem? rs b) ∷ []
          else [])
        ++ between gap anchors (a + 1) (b + 1) ls rs)

-- the anchors: the matches, and the end
abbrev pub with_end : List (ℕ × ℕ) → List ℕ → List ℕ → List (ℕ × ℕ)
with_end matches ls rs = matches ++ (length ls, length rs) ∷ []

-- the identity of the event at an index, which is always one of the events
abbrev pub identity_at : List EventEnvelope → ℕ → List String
identity_at events i = elim (get_elem? events i) [ some e ↦ action_identity e | none ↦ [] ]

-- the inner loops: what is between two exact matches, by identity and then by position
unfoldable pub align_gap : List EventEnvelope → List EventEnvelope → List ℕ → List ℕ → List Pair
align_gap left right ls rs =
    between zip_residual
      (with_end (lcs_matches texts_eq (map (identity_at left) ls) (map (identity_at right) rs)) ls
        rs)
      0 0 ls rs

-- _action_alignment
unfoldable pub action_alignment : List EventEnvelope → List EventEnvelope → List Pair
action_alignment left right =
    let ls = range_from 0 (length left) in
    let rs = range_from 0 (length right) in
    between (align_gap left right)
      (with_end (lcs_matches payload_eq (map action_payload left) (map action_payload right)) ls rs)
      0 0 ls rs

-- `None if index is None else events[index]`
abbrev pub event_at : List EventEnvelope → Option ℕ → Option EventEnvelope
event_at events none = none
event_at events (some i) = get_elem? events i

-- the body of the loop of `_action_changes`
unfoldable pub change_of : Option EventEnvelope → Option EventEnvelope → List ActionChange
change_of none after = (record { change_type = added; before = none; after = after }) ∷ []
change_of (some b) none = (record { change_type = removed; before = some b; after = none }) ∷ []
change_of (some b) (some a) =
    if payload_eq (action_payload b) (action_payload a)
    then []
    else (record { change_type = changed_action; before = some b; after = some a }) ∷ []

unfoldable pub changes_of : List EventEnvelope → List EventEnvelope → List Pair → List ActionChange
changes_of left right [] = []
changes_of left right ((l, r) ∷ rest) =
    change_of (event_at left l) (event_at right r) ++ changes_of left right rest

-- _action_changes; no events and None are treated alike
unfoldable pub action_changes : List EventEnvelope → List EventEnvelope → List ActionChange
action_changes before after =
    let left = action_events before in
    let right = action_events after in changes_of left right (action_alignment left right)

unfoldable pub compare :
    SystemState
    → SystemState
    → Option EvidenceManifest
    → Option EvidenceManifest
    → List EventEnvelope
    → List EventEnvelope
    → BehavioralDiff
compare before_state after_state before_evidence after_evidence before_events after_events =
    let before_ids = manifest_ids before_evidence in
    let after_ids = manifest_ids after_evidence in
    record {
      state_changes = state_changes before_state after_state;
      outcome_before = outcome before_events;
      outcome_after = outcome after_events;
      evidence_added = sorted (filter (λ x. not (elem x before_ids)) after_ids);
      evidence_removed = sorted (filter (λ x. not (elem x after_ids)) before_ids);
      action_changes = action_changes before_events after_events;
    }
