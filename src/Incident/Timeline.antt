-- ===== src/Incident/Timeline.antt =====
-- The timeline of an incident: IncidentTimeline and build_incident_timeline of
-- src/statewake/domain/security_incident.py.
use state_wake.Base.{
  ◌=ₛ◌, ◌⊎◌, ◌≢◌, inl, inr, eq_iff, Bool-cases, naive, aware, zoned, is_before, ◌≤◌, ◌<◌, String,
  ◌≡◌, ◌↔◌, refl, Bool, false, Option, none, some, List, [], ◌∷◌, ◌++◌, is_blank, leb, value_error,
  Result, Check, ok, ◌>>◌, >>-eq-ok, raise_if, raise_if-eq-ok, Datetime, is_naive, instant, arith,
}
use state_wake.Incident.{
  IncidentStatus, detected, preserved, contained, assessed, recovered, reverified, status_order,
  SecurityIncidentEvidence,
}

-- IncidentTimeline's entries
abbrev pub Entry : Type 0
Entry = IncidentStatus × Datetime

-- `rank <= previous_rank`, which is -1 at first
abbrev not_after : Option Entry → IncidentStatus → Bool
not_after none status = false
not_after (some (s, _)) status = leb (status_order status) (status_order s)

-- `previous_time is not None and occurred_at < previous_time`
abbrev is_earlier : Option Entry → Datetime → Bool
is_earlier none occurred_at = false
is_earlier (some (_, t)) occurred_at = is_before occurred_at t

-- the loop of IncidentTimeline.__post_init__, from the previous entry
unfoldable pub check_entries : Option Entry → List Entry → Check
check_entries previous [] = ok tt
check_entries previous ((status, occurred_at) ∷ rest) = do
  raise_if (is_naive occurred_at) (value_error "timeline timestamp must be timezone-aware.")
  raise_if (not_after previous status)
      (value_error "incident timeline statuses must advance strictly")
  raise_if (is_earlier previous occurred_at)
      (value_error "incident timeline timestamps must be monotonic")
  check_entries (some (status, occurred_at)) rest

-- IncidentTimeline.__post_init__
unfoldable pub check_timeline : String → List Entry → Check
unfolding check_entries
check_timeline incident_id entries = do
  raise_if (is_blank incident_id) (value_error "incident_id must not be empty")
  check_entries none entries

-- an entry whose time is given
abbrev optional_entry : IncidentStatus → Option Datetime → List Entry
optional_entry status none = []
optional_entry status (some t) = (status, t) ∷ []

-- build_incident_timeline
pub build_incident_timeline :
    SecurityIncidentEvidence
    → Datetime
    → Option Datetime
    → Option Datetime
    → Option Datetime
    → Option Datetime
    → Result (List Entry)
unfolding check_timeline
build_incident_timeline i preserved_at contained_at assessed_at recovered_at reverified_at = do
  let entries =
      (detected, i.detected_at)
      ∷ (preserved, preserved_at)
      ∷ (optional_entry contained contained_at
          ++ optional_entry assessed assessed_at
          ++ optional_entry recovered recovered_at
          ++ optional_entry reverified reverified_at)
  check_timeline i.incident_id entries
  ok entries

-- not earlier, as Python compares datetimes: by the wall clock in one zone, and by the instant
-- otherwise
abbrev pub IsNotEarlier : Datetime → Datetime → Type 0
IsNotEarlier (zoned zone wall utc) (zoned zone' wall' utc') =
    ((zone' ≡ zone) × (wall ≤ wall')) ⊎ ((zone' ≢ zone) × (utc ≤ utc'))
IsNotEarlier t t' = instant t ≤ instant t'

is_before_iff : (t t' : Datetime) → (is_before t' t ≡ false) ↔ IsNotEarlier t t'
unfolding is_before
is_before_iff (naive t) (naive t') = (λ h. ground arith, λ h. ground arith)
is_before_iff (naive t) (aware t') = (λ h. ground arith, λ h. ground arith)
is_before_iff (naive t) (zoned z' w' u') = (λ h. ground arith, λ h. ground arith)
is_before_iff (aware t) (naive t') = (λ h. ground arith, λ h. ground arith)
is_before_iff (aware t) (aware t') = (λ h. ground arith, λ h. ground arith)
is_before_iff (aware t) (zoned z' w' u') = (λ h. ground arith, λ h. ground arith)
is_before_iff (zoned z w u) (naive t') = (λ h. ground arith, λ h. ground arith)
is_before_iff (zoned z w u) (aware t') = (λ h. ground arith, λ h. ground arith)
is_before_iff (zoned z w u) (zoned z' w' u') = elim (Bool-cases (z' =ₛ z)) [
  | inl e ↦
      let same = (eq_iff z' z).0 e in
      rw e (
        λ h. inl (same, ground arith),
        λ o. elim o [ inl (_, le) ↦ ground arith | inr (other, _) ↦ absurd (other same) ],
      )
  | inr e ↦
      let other : z' ≢ z = λ q. absurd (cc ((eq_iff z' z).1 q, e)) in
      rw e (
        λ h. inr (other, ground arith),
        λ o. elim o [ inl (q, _) ↦ absurd (other q) | inr (_, le) ↦ ground arith ],
      )
]

-- every entry has a later status
abbrev pub AllLater : IncidentStatus → List Entry → Type 0
AllLater s [] = Unit
AllLater s (e ∷ rest) = (status_order s < status_order e.0) × AllLater s rest

-- the next entry, if there is one, is not earlier
abbrev pub NextNotEarlier : Datetime → List Entry → Type 0
NextNotEarlier t [] = Unit
NextNotEarlier t (e ∷ rest) = IsNotEarlier t e.1

-- each entry has a time zone, is followed by entries of later statuses only, and not directly by an
-- earlier one
abbrev pub IsOrdered : List Entry → Type 0
IsOrdered [] = Unit
IsOrdered (e ∷ rest) =
    (is_naive e.1 ≡ false) × AllLater e.0 rest × NextNotEarlier e.1 rest × IsOrdered rest

AllLater-from :
    (s s' : IncidentStatus) (entries : List Entry)
    → status_order s < status_order s'
    → AllLater s' entries
    → AllLater s entries
AllLater-from s s' [] lt all = tt
AllLater-from s s' (x ∷ rest) lt (a, all) = (omega arith, AllLater-from s s' rest lt all)

-- what the loop tests of its previous entry
abbrev AfterPrevious : Option Entry → List Entry → Type 0
AfterPrevious none entries = Unit
AfterPrevious (some (s, t)) entries = AllLater s entries × NextNotEarlier t entries

check_entries-IsOrdered :
    (previous : Option Entry) (entries : List Entry)
    → check_entries previous entries ≡ ok tt
    → AfterPrevious previous entries × IsOrdered entries
unfolding check_entries
check_entries-IsOrdered none [] h = (tt, tt)
check_entries-IsOrdered (some (s, t)) [] h = ((tt, tt), tt)
check_entries-IsOrdered none ((status, occurred_at) ∷ rest) h =
    let ((later, next), ordered) =
      check_entries-IsOrdered (some (status, occurred_at)) rest (ground arith) in
    (tt, (ground arith, later, next, ordered))
check_entries-IsOrdered (some (s, t)) ((status, occurred_at) ∷ rest) h =
    let ((later, next), ordered) =
      check_entries-IsOrdered (some (status, occurred_at)) rest (ground arith) in
    let lt : status_order s < status_order status = ground arith in
    let not_before : is_before occurred_at t ≡ false = ground arith in
    (
      ((lt, AllLater-from s status rest lt later), (is_before_iff t occurred_at).0 not_before),
      (ground arith, later, next, ordered),
    )

IsOrdered-check_entries :
    (previous : Option Entry) (entries : List Entry)
    → AfterPrevious previous entries
    → IsOrdered entries
    → check_entries previous entries ≡ ok tt
unfolding check_entries
IsOrdered-check_entries previous [] a o = refl
IsOrdered-check_entries none ((status, occurred_at) ∷ rest) a (has_zone, later, follows, ordered) =
    let next = IsOrdered-check_entries (some (status, occurred_at)) rest (later, follows) ordered in
    ground arith
IsOrdered-check_entries (some (s, t)) ((status, occurred_at) ∷ rest) ((lt, a), le)
      (has_zone, later, follows, ordered) =
    let next = IsOrdered-check_entries (some (status, occurred_at)) rest (later, follows) ordered in
    let not_before = (is_before_iff t occurred_at).1 le in ground arith

-- A timeline passes its validation exactly when the incident's name is not blank, every time has a
-- zone, every entry has a later status than every earlier one, and no entry is earlier than the one
-- before it. Python compares the two times: by the wall clock where both are in one zone, which need
-- not order the entries in UTC, and by the instant otherwise.
pub check_timeline_iff :
    (incident_id : String) (entries : List Entry)
    → (check_timeline incident_id entries ≡ ok tt)
      ↔ ((is_blank incident_id ≡ false) × IsOrdered entries)
unfolding check_timeline
check_timeline_iff incident_id entries = (
  λ h.
      let (a, h1) =
        >>-eq-ok (raise_if (is_blank incident_id) (value_error "incident_id must not be empty"))
          (check_entries none entries) h in
      (raise_if-eq-ok (is_blank incident_id) _ a, (check_entries-IsOrdered none entries h1).1),
  λ q. let run = IsOrdered-check_entries none entries tt q.1 in ground (arith, q.0),
)
