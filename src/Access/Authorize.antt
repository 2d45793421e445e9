-- ===== src/Access/Authorize.antt =====
-- What authorization allows, and that more grants never allow less.
use state_wake.Base.{
  ℕ, ◌<◌, ◌≡◌, ◌⊎◌, inl, inr, ◌↔◌, ap, sym, ◌∙◌, refl, true, false, not, ◌&&◌, Option, none, some,
  List, [], ◌∷◌, ◌++◌, ◌==◌, elem, ok, arith, Bool-cases, if◌then◌else◌, Datetime, instant,
  is_naive,
}
use state_wake.Access.{
  AuthorizationOperation, read, ingest, verify, transition, reconcile, recover, attest, delete,
  retain, administer_trust, administer_keys, operation_place, same_operation, active, Principal,
  before_expiry, is_revoked, active_at, scope, can_access_resource, AuthorizationRequest,
  check_request, AuthorizationGrant, AuthorizationDecision, deny, applies, match_grants, decide,
  authorize,
}

-- the instant is before the expiry, if there is one
abbrev pub NotExpired : Option Datetime → Datetime → Type 0
NotExpired none when = Unit
NotExpired (some t) when = instant when < instant t

-- some grant is for the operation, for a role of the principal, and for the resource's state
abbrev pub IsGranted : Principal → AuthorizationRequest → List AuthorizationGrant → Type 0
IsGranted p r [] = ⊥
IsGranted p r (g ∷ rest) =
    ((g.operation ≡ r.operation)
      × (elem g.role p.roles ≡ true)
      × (elem r.resource_state g.allowed_states ≡ true))
    ⊎ IsGranted p r rest

operation_of : ℕ → AuthorizationOperation
operation_of n =
    if n == 0
    then read
    else if n == 1
    then ingest
    else if n == 2
    then verify
    else if n == 3
    then transition
    else if n == 4
    then reconcile
    else if n == 5
    then recover
    else if n == 6
    then attest
    else if n == 7
    then delete
    else if n == 8
    then retain
    else if n == 9
    then administer_trust
    else administer_keys

operation_of-place : (a : AuthorizationOperation) → operation_of (operation_place a) ≡ a
unfolding operation_of
operation_of-place read = refl
operation_of-place ingest = refl
operation_of-place verify = refl
operation_of-place transition = refl
operation_of-place reconcile = refl
operation_of-place recover = refl
operation_of-place attest = refl
operation_of-place delete = refl
operation_of-place retain = refl
operation_of-place administer_trust = refl
operation_of-place administer_keys = refl

same_operation_iff : (a b : AuthorizationOperation) → (same_operation a b ≡ true) ↔ (a ≡ b)
same_operation_iff a b = (
  λ h.
      let e : operation_place a ≡ operation_place b = ground arith in
      sym (operation_of-place a) ∙ ap operation_of e ∙ operation_of-place b,
  λ e. let same = ap operation_place e in ground arith,
)

-- a grant of the list applies
match_grants-allowed :
    (p : Principal) (r : AuthorizationRequest) (grants : List AuthorizationGrant)
    → ((match_grants p r grants).allowed ≡ true) ↔ IsGranted p r grants
unfolding match_grants deny applies
match_grants-allowed p r [] = (λ e. cc, λ q. absurd q)
match_grants-allowed p r (g ∷ rest) =
    let later = match_grants-allowed p r rest in
    let same = same_operation_iff g.operation r.operation in
    elim (Bool-cases (applies p r g)) [
      | inl hit ↦ (λ _. inl (same.0 (ground arith), ground arith, ground arith), λ _. ground arith)
      | inr miss ↦ (
        λ e. inr (later.0 (ground arith)),
        λ q. elim q [
          | inl (o, role, state) ↦ let again = same.1 o in ground arith
          | inr there ↦ let m = later.1 there in ground arith
        ],
      )
    ]

IsGranted-append :
    (p : Principal) (r : AuthorizationRequest) (more grants : List AuthorizationGrant)
    → IsGranted p r grants
    → IsGranted p r (more ++ grants)
IsGranted-append p r [] grants q = q
IsGranted-append p r (g ∷ more) grants q = inr (IsGranted-append p r more grants q)

before_expiry-NotExpired :
    (t : Option Datetime) (when : Datetime) → (before_expiry t when ≡ true) ↔ NotExpired t when
before_expiry-NotExpired none when = (λ _. tt, λ _. refl)
before_expiry-NotExpired (some t) when = (λ h. ground arith, λ h. ground arith)

-- an active principal that has the resource in its scope is left to the grants
decide-allowed :
    (grants : List AuthorizationGrant) (p : Principal) (r : AuthorizationRequest)
    → ((decide grants p r
          (not (is_revoked p.status) && before_expiry p.expires_at r.requested_at)).allowed
        ≡ true)
      ↔ ((p.status ≡ active)
          × NotExpired p.expires_at r.requested_at
          × (elem r.resource_id (scope p.resource_scopes r.resource_domain) ≡ true)
          × IsGranted p r grants)
unfolding decide can_access_resource deny
decide-allowed grants p r =
    let granted = match_grants-allowed p r grants in
    let expiry = before_expiry-NotExpired p.expires_at r.requested_at in
    (
      λ e.
          let known : before_expiry p.expires_at r.requested_at ≡ true = ground arith in
          (ground arith, expiry.0 known, ground arith, granted.0 (ground arith)),
      λ q. let known = expiry.1 q.1 in let some_grant = granted.1 q.3 in ground (arith, q.0, q.2),
    )

-- Authorization of a request that passed its validation always returns a decision, and the decision
-- allows exactly when the principal is active, its expiry, if any, is after the request, the
-- resource is in its scope for the request's domain, and some grant is for the request's operation,
-- one of the principal's roles, and the resource's state.
pub authorize_iff :
    (grants : List AuthorizationGrant) (p : Principal) (r : AuthorizationRequest)
    → check_request r ≡ ok tt
    → (d : AuthorizationDecision) × (authorize grants p r ≡ ok d)
      × ((d.allowed ≡ true) ↔ (
          (p.status ≡ active)
          × NotExpired p.expires_at r.requested_at
          × (elem r.resource_id (scope p.resource_scopes r.resource_domain) ≡ true)
          × IsGranted p r grants))
unfolding authorize active_at check_request
authorize_iff grants p r v =
    let aware : is_naive r.requested_at ≡ false = ground arith in
    (
      decide grants p r (not (is_revoked p.status) && before_expiry p.expires_at r.requested_at),
      ground arith,
      decide-allowed grants p r,
    )
