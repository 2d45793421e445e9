-- ===== src/Retention/Holds.antt =====
-- Which calls keep a legal hold, and one that lifts it.
use state_wake.Base.{
  String, ◌≡◌, ◌≢◌, ◌⊎◌, inl, inr, refl, subst, true, false, some, ◌=ₛ◌, eq_iff, ok, Bool-cases,
  Datetime, is_naive, is_before, arith,
}
use state_wake.Retention.{
  EvidenceRetentionRequirement, Requirements, replaces, require_retention, has_hold,
  release_retention, can_delete, is_held,
}

-- Calls of the adapter in which every requirement for the artifact carries a legal hold.
pub data HoldingCalls (artifact_id : String) (s : Requirements) : Requirements → Type 0 where
  none_yet : HoldingCalls artifact_id s s
  required :
      (s' : Requirements) (r : EvidenceRetentionRequirement)
      → HoldingCalls artifact_id s s'
      → (r.artifact_id ≢ artifact_id) ⊎ (r.legal_hold ≡ true)
      → HoldingCalls artifact_id s (require_retention s' r)
  released :
      (s' : Requirements) (other : String)
      → HoldingCalls artifact_id s s'
      → HoldingCalls artifact_id s (release_retention s' other)

require_retention-is_held :
    (s : Requirements) (r : EvidenceRetentionRequirement) (x : String)
    → is_held s x ≡ true
    → (r.artifact_id ≢ x) ⊎ (r.legal_hold ≡ true)
    → is_held (require_retention s r) x ≡ true
unfolding is_held require_retention
require_retention-is_held s r x h d = elim (Bool-cases (replaces (s r.artifact_id) r)) [
  | inl later ↦ rw later (elim (Bool-cases (r.artifact_id =ₛ x)) [
    | inl same ↦ rw same (elim d [
      | inl differ ↦ absurd (differ ((eq_iff r.artifact_id x).0 same))
      | inr holds ↦ holds
    ])
    | inr other ↦ rw other h
  ])
  | inr earlier ↦ rw earlier h
]

release_retention-is_held :
    (s : Requirements) (y x : String)
    → is_held s x ≡ true
    → is_held (release_retention s y) x ≡ true
unfolding is_held release_retention
release_retention-is_held s y x h = elim (Bool-cases (has_hold (s y))) [
  | inl held ↦ rw held h
  | inr free ↦ rw free (elim (Bool-cases (y =ₛ x)) [
    | inl same ↦
        let at_x : has_hold (s x) ≡ false =
          subst (λ z. has_hold (s z) ≡ false) ((eq_iff y x).0 same) free in
        cc
    | inr other ↦ rw other h
  ])
]

HoldingCalls-is_held :
    (x : String) (s s' : Requirements)
    → is_held s x ≡ true
    → HoldingCalls x s s'
    → is_held s' x ≡ true
HoldingCalls-is_held x s _ h none_yet = h
HoldingCalls-is_held x s _ h (required s' r p d) =
    require_retention-is_held s' r x (HoldingCalls-is_held x s s' h p) d
HoldingCalls-is_held x s _ h (released s' other p) =
    release_retention-is_held s' other x (HoldingCalls-is_held x s s' h p)

can_delete-held :
    (s : Requirements) (x : String) (now : Datetime)
    → is_held s x ≡ true
    → is_naive now ≡ false
    → can_delete s x now ≡ ok false
unfolding is_held can_delete
can_delete-held s x now h a = ground arith

-- An artifact under a legal hold stays under it, and may not be deleted at any time, after any calls
-- in which every requirement for that artifact carries a hold; releases, also of it, do not matter.
pub hold_survives :
    (x : String) (s s' : Requirements) (now : Datetime)
    → is_held s x ≡ true
    → HoldingCalls x s s'
    → is_naive now ≡ false
    → (is_held s' x ≡ true) × (can_delete s' x now ≡ ok false)
hold_survives x s s' now h calls a =
    let held = HoldingCalls-is_held x s s' h calls in (held, can_delete-held s' x now held a)

-- A requirement without a hold whose time is not before that of the artifact's requirement, as Python
-- compares the two, lifts its legal hold: after it and a release, the artifact may be deleted at any time.
pub require_retention_lifts_hold :
    (s : Requirements) (held r : EvidenceRetentionRequirement) (now : Datetime)
    → s r.artifact_id ≡ some held
    → r.legal_hold ≡ false
    → is_before r.retain_until held.retain_until ≡ false
    → is_naive now ≡ false
    → (is_held (require_retention s r) r.artifact_id ≡ false)
      × (can_delete (release_retention (require_retention s r) r.artifact_id) r.artifact_id now
          ≡ ok true)
unfolding is_held require_retention release_retention can_delete
require_retention_lifts_hold s held r now e f le a =
    let own = (eq_iff r.artifact_id r.artifact_id).1 refl in
    let later : replaces (s r.artifact_id) r ≡ true = rw e (ground arith) in
    (rw (later, own) f, rw (later, own) (rw f (rw own (rw a refl))))
