-- ===== src/Access.antt =====
-- Deny-by-default authorization: src/statewake/domain/access_control.py.
pub mod Authorize
mod Tests
use state_wake.Base.{
  ℕ, String, ◌<>◌, Bool, true, false, not, ◌&&◌, ◌||◌, Option, none, some, List, [], ◌∷◌, ◌=ₛ◌,
  ◌==◌, is_blank, is_nil, any, elem, ltb, value_error, Result, Check, ok, err, ◌>>=◌, ◌>>◌,
  raise_if, if◌then◌else◌, Datetime, is_naive, instant,
}

pub data AuthorizationOperation : Type 0 where
  read ingest verify transition reconcile recover attest delete retain administer_trust
        administer_keys :
      AuthorizationOperation

-- the member's place in the class, by which members differ
abbrev pub operation_place : AuthorizationOperation → ℕ
operation_place read = 0
operation_place ingest = 1
operation_place verify = 2
operation_place transition = 3
operation_place reconcile = 4
operation_place recover = 5
operation_place attest = 6
operation_place delete = 7
operation_place retain = 8
operation_place administer_trust = 9
operation_place administer_keys = 10

-- `a is b` on members
abbrev pub same_operation : AuthorizationOperation → AuthorizationOperation → Bool
same_operation a b = operation_place a == operation_place b

pub data PrincipalStatus : Type 0 where
  active revoked : PrincipalStatus

pub record Principal : Type 0 where
  pub principal_id : String
  pub roles : List String
  -- a domain with its resources
  pub resource_scopes : List (String × List String)
  pub status : PrincipalStatus
  pub expires_at : Option Datetime

abbrev is_naive_option : Option Datetime → Bool
is_naive_option none = false
is_naive_option (some t) = is_naive t

-- Principal.__post_init__
pub check_principal : Principal → Check
check_principal p = do
  raise_if (is_blank p.principal_id) (value_error "principal_id must not be empty.")
  raise_if (any is_blank p.roles) (value_error "roles must not contain blank values.")
  raise_if (any (λ (s : String × List String). is_blank s.0) p.resource_scopes)
      (value_error "resource-scope domains must not be blank.")
  raise_if (any (λ (s : String × List String). any is_blank s.1) p.resource_scopes)
      (value_error "resource scopes must not contain blank values.")
  raise_if (is_naive_option p.expires_at) (value_error "principal expiry must be timezone-aware.")

-- `when.astimezone(UTC) < self.expires_at.astimezone(UTC)`, with no expiry always
abbrev pub before_expiry : Option Datetime → Datetime → Bool
before_expiry none when = true
before_expiry (some t) when = ltb (instant when) (instant t)

abbrev pub is_revoked : PrincipalStatus → Bool
is_revoked active = false
is_revoked revoked = true

unfoldable pub active_at : Principal → Datetime → Result Bool
active_at p when = do
  raise_if (is_naive when) (value_error "authorization timestamps must be timezone-aware.")
  ok (not (is_revoked p.status) && before_expiry p.expires_at when)

-- `self.resource_scopes.get(domain, ())`
unfoldable pub scope : List (String × List String) → String → List String
scope [] domain = []
scope ((d, resources) ∷ rest) domain =
    let other = scope rest domain in if d =ₛ domain then resources else other

unfoldable pub can_access_resource : Principal → String → String → Bool
can_access_resource p domain resource_id = elem resource_id (scope p.resource_scopes domain)

pub record AuthorizationRequest : Type 0 where
  pub operation : AuthorizationOperation
  pub resource_domain : String
  pub resource_id : String
  pub resource_state : String
  pub requested_at : Datetime

-- AuthorizationRequest.__post_init__
unfoldable pub check_request : AuthorizationRequest → Check
check_request r = do
  raise_if (is_blank r.resource_domain) (value_error "resource_domain must not be empty.")
  raise_if (is_blank r.resource_id) (value_error "resource_id must not be empty.")
  raise_if (is_blank r.resource_state) (value_error "resource_state must not be empty.")
  raise_if (is_naive r.requested_at) (value_error "requested_at must be timezone-aware.")

pub record AuthorizationGrant : Type 0 where
  pub role : String
  pub operation : AuthorizationOperation
  pub allowed_states : List String

-- AuthorizationGrant.__post_init__
pub check_grant : AuthorizationGrant → Check
check_grant g = do
  raise_if (is_blank g.role) (value_error "grant role must not be empty.")
  raise_if (is_nil g.allowed_states) (value_error "grant must contain at least one state.")
  raise_if (any is_blank g.allowed_states)
      (value_error "grant states must not contain blank values.")

pub record AuthorizationDecision : Type 0 where
  pub allowed : Bool
  pub principal_id : String
  pub operation : AuthorizationOperation
  pub resource_domain : String
  pub resource_id : String
  pub resource_state : String
  pub reason : String
  pub matched_role : Option String

-- _deny
unfoldable pub deny : Principal → AuthorizationRequest → String → AuthorizationDecision
deny p r reason = record {
  allowed = false;
  principal_id = p.principal_id;
  operation = r.operation;
  resource_domain = r.resource_domain;
  resource_id = r.resource_id;
  resource_state = r.resource_state;
  reason = reason;
  matched_role = none;
}

-- the three tests of the loop over the grants, none of which skips the grant
unfoldable pub applies : Principal → AuthorizationRequest → AuthorizationGrant → Bool
applies p r g =
    same_operation g.operation r.operation
    && elem g.role p.roles
    && elem r.resource_state g.allowed_states

-- the loop over the grants
unfoldable pub match_grants :
    Principal → AuthorizationRequest → List AuthorizationGrant → AuthorizationDecision
match_grants p r [] = deny p r "operation_not_authorized"
match_grants p r (g ∷ rest) =
    let later = match_grants p r rest in
    if applies p r g
    then record {
      allowed = true;
      principal_id = p.principal_id;
      operation = r.operation;
      resource_domain = r.resource_domain;
      resource_id = r.resource_id;
      resource_state = r.resource_state;
      reason = "authorized";
      matched_role = some g.role;
    }
    else later

-- the branches of `authorize`, given whether the principal is active
unfoldable pub decide :
    List AuthorizationGrant → Principal → AuthorizationRequest → Bool → AuthorizationDecision
decide grants p r is_active =
    if not is_active
    then deny p r (if is_revoked p.status then "principal_revoked" else "authorization_expired")
    else if not (can_access_resource p r.resource_domain r.resource_id)
    then deny p r "resource_scope_denied"
    else match_grants p r grants

-- AuthorizationPolicy.authorize, the policy being its grants
unfoldable pub authorize :
    List AuthorizationGrant → Principal → AuthorizationRequest → Result AuthorizationDecision
authorize grants p r = do is_active ← active_at p r.requested_at; ok (decide grants p r is_active)
