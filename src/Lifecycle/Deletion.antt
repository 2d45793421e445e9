-- ===== src/Lifecycle/Deletion.antt =====
-- When a data object may be deleted.
use state_wake.Base.{
  ℕ, ◌+◌, ◌*◌, ◌≤◌, String, ◌≡◌, ◌↔◌, refl, Bool, true, false, not, ◌||◌, ◌&&◌, Option, none, some,
  List, ok, >>=-eq-ok, >>-eq-ok, raise_if, value_error, is_blank, Datetime, is_naive, instant,
  add_days, day, arith, leb,
}
use state_wake.Sensitivity.{rank, validate_sensitivity}
use state_wake.Lifecycle.{
  DataLifecyclePolicy, DataLifecycleDecision, retention_window, assess_data_lifecycle,
}

-- the policy sets a limit of days that is over `now`
abbrev pub IsPast : Option ℕ → ℕ → ℕ → Type 0
IsPast none created now = ⊥
IsPast (some days) created now = created + days * day ≤ now

retention_window-IsPast :
    (days : Option ℕ) (created now : ℕ) (w : Option ℕ × Bool × List String)
    → retention_window days created now ≡ ok w
    → (w.1 ≡ true) ↔ IsPast days created now
unfolding retention_window add_days
retention_window-IsPast none created now w h = (λ e. cc, λ p. absurd p)
retention_window-IsPast (some n) created now w h = (λ e. ground arith, λ p. ground arith)

-- A lifecycle decision that is returned allows deletion exactly when the policy sets a number of
-- days, they have passed since the object's creation, and no legal hold is in force; it allows
-- disclosure exactly when the object's sensitivity, a known level, is at most the policy's ceiling.
pub deletion_allowed_iff :
    (object_id sensitivity : String) (created now : Datetime) (policy : DataLifecyclePolicy)
    (hold : Bool) (d : DataLifecycleDecision)
    → assess_data_lifecycle object_id sensitivity created policy now hold ≡ ok d
    → ((d.deletion_allowed ≡ true)
        ↔ (IsPast policy.max_retention_days (instant created) (instant now) × (hold ≡ false)))
      × (validate_sensitivity "sensitivity" sensitivity ≡ ok d.sensitivity)
      × ((d.disclosure_allowed ≡ true)
          ↔ (rank d.sensitivity ≤ rank policy.disclosure_max_sensitivity))
unfolding assess_data_lifecycle
deletion_allowed_iff object_id sensitivity created now policy hold d h =
    let (a, h1) =
      >>-eq-ok (raise_if (is_blank object_id) (value_error "object_id must not be empty.")) _ h in
    let (level, e, h2) = >>=-eq-ok (validate_sensitivity "sensitivity" sensitivity) _ h1 in
    let (b, h3) =
      >>-eq-ok
        (raise_if (is_naive created || is_naive now)
          (value_error "created_at and now must be timezone-aware."))
        _ h2 in
    let (w, e', h4) =
      >>=-eq-ok (retention_window policy.max_retention_days (instant created) (instant now)) _ h3 in
    let past =
      retention_window-IsPast policy.max_retention_days (instant created) (instant now) w e' in
    let deletion : d.deletion_allowed ≡ w.1 && not hold = cc in
    let same : d.sensitivity ≡ level = cc in
    let disclosure : d.disclosure_allowed
        ≡ leb (rank level) (rank policy.disclosure_max_sensitivity) =
      cc in
    (
      (
        λ t. (past.0 (ground arith), ground arith),
        λ p. let expired = past.1 p.0 in ground (arith, p.1),
      ),
      rw same e,
      (λ t. rw same (ground arith), λ le. ground arith),
    )

-- While the legal hold stays off, an object that may be deleted may be deleted at any later
-- time-aware instant that the same call is made at.
pub deletion_allowed_later :
    (object_id sensitivity : String) (created now later : Datetime) (policy : DataLifecyclePolicy)
    (hold : Bool) (d d' : DataLifecycleDecision)
    → assess_data_lifecycle object_id sensitivity created policy now hold ≡ ok d
    → assess_data_lifecycle object_id sensitivity created policy later false ≡ ok d'
    → instant now ≤ instant later
    → d.deletion_allowed ≡ true
    → d'.deletion_allowed ≡ true
deletion_allowed_later object_id sensitivity created now later policy hold d d' h h' le t =
    let first = deletion_allowed_iff object_id sensitivity created now policy hold d h in
    let second = deletion_allowed_iff object_id sensitivity created later policy false d' h' in
    second.0.1 (IsPast-mono policy.max_retention_days _ _ _ le ((first.0.0 t).0), refl)
  where
    IsPast-mono : (days : Option ℕ) (c n m : ℕ) → n ≤ m → IsPast days c n → IsPast days c m
    IsPast-mono none c n m le p = p
    IsPast-mono (some x) c n m le p = omega arith
