-- ===== src/Reliability/Histories.antt =====
-- Histories that the service builds: every subject goes through allowed states, from unknown.
use state_wake.Base.{
  String, ◌≡◌, inl, inr, refl, sym, ap, subst, true, Option, none, some, List, [], ◌∷◌, ◌++◌, ◌=ₛ◌,
  eq_iff, elem, last, Bool-cases,
}
use state_wake.Reliability.{ReliabilityStateTransition, allowed_transitions, of_subject}

pub filter-append :
    (s : String) (ts : List ReliabilityStateTransition) (t : ReliabilityStateTransition)
    → of_subject s (ts ++ t ∷ []) ≡ of_subject s ts ++ of_subject s (t ∷ [])
filter-append s [] t = refl
filter-append s (x ∷ ts) t =
    let later = filter-append s ts t in
    elim (Bool-cases (x.subject_id =ₛ s)) [
      | inl here ↦ rw here (ap (λ l. x ∷ l) later)
      | inr other ↦ rw other later
    ]

append-nil : (ts : List ReliabilityStateTransition) → ts ++ [] ≡ ts
append-nil [] = refl
append-nil (x ∷ ts) = ap (λ l. x ∷ l) (append-nil ts)

module _ (computed_digest : ReliabilityStateTransition → String) where
  -- From a state and a tip, each transition starts where the one before it ended, goes to a state
  -- allowed from there, and names its digest.
  abbrev pub Follows : String → String → List ReliabilityStateTransition → Type 0
  Follows state tip [] = Unit
  Follows state tip (t ∷ rest) =
      (t.from_state ≡ state)
      × (elem t.to_state (allowed_transitions t.from_state) ≡ true)
      × (t.previous_transition_digest ≡ tip)
      × Follows t.to_state (computed_digest t) rest

  -- the transition continues the last one, or starts at the state and the tip
  abbrev pub Continues :
      Option ReliabilityStateTransition → String → String → ReliabilityStateTransition → Type 0
  Continues none state tip t = (t.from_state ≡ state) × (t.previous_transition_digest ≡ tip)
  Continues (some p) state tip t =
      (t.from_state ≡ p.to_state) × (t.previous_transition_digest ≡ computed_digest p)

  Continues-any :
      (x : ReliabilityStateTransition) (ts : List ReliabilityStateTransition) (s d s' d' : String)
      (t : ReliabilityStateTransition)
      → Continues (last (x ∷ ts)) s d t
      → Continues (last (x ∷ ts)) s' d' t
  Continues-any x [] s d s' d' t c = c
  Continues-any x (y ∷ ts) s d s' d' t c = Continues-any y ts s d s' d' t c

  Continues-tail :
      (x : ReliabilityStateTransition) (ts : List ReliabilityStateTransition) (s d : String)
      (t : ReliabilityStateTransition)
      → Continues (last (x ∷ ts)) s d t
      → Continues (last ts) x.to_state (computed_digest x) t
  Continues-tail x [] s d t c = c
  Continues-tail x (y ∷ ts) s d t c = Continues-any y ts s d x.to_state (computed_digest x) t c

  Follows-append :
      (s d : String) (ts : List ReliabilityStateTransition) (t : ReliabilityStateTransition)
      → Follows s d ts
      → Continues (last ts) s d t
      → elem t.to_state (allowed_transitions t.from_state) ≡ true
      → Follows s d (ts ++ t ∷ [])
  Follows-append s d [] t f c a = (c.0, a, c.1, tt)
  Follows-append s d (x ∷ ts) t (e1, e2, e3, f) c a = (
    e1,
    e2,
    e3,
    Follows-append x.to_state (computed_digest x) ts t f (Continues-tail x ts s d t c) a,
  )

  -- a new transition of one subject leaves the others' histories
  pub Follows-other :
      (ts : List ReliabilityStateTransition) (t : ReliabilityStateTransition)
      → ((s : String) → Follows "unknown" "" (of_subject s ts))
      → Continues (last (of_subject t.subject_id ts)) "unknown" "" t
      → elem t.to_state (allowed_transitions t.from_state) ≡ true
      → (s : String) → Follows "unknown" "" (of_subject s (ts ++ t ∷ []))
  Follows-other ts t f c a s =
      subst (Follows "unknown" "") (sym (filter-append s ts t))
        (elim (Bool-cases (t.subject_id =ₛ s)) [
          | inl here ↦
              let same = (eq_iff t.subject_id s).0 here in
              rw here (
                Follows-append "unknown" "" (of_subject s ts) t (f s)
                  (subst (λ z. Continues (last (of_subject z ts)) "unknown" "" t) same c) a)
          | inr other ↦
              rw other (subst (Follows "unknown" "") (sym (append-nil (of_subject s ts))) (f s))
        ])
