-- ===== src/Access/Tests.antt =====
-- An auditor who may verify one receipt.
use state_wake.Base.{◌≡◌, ◌↔◌, refl, true, some, List, [], ◌∷◌, ok, elem, aware, text_functions}
use state_wake.Access.{
  verify, active, Principal, scope, AuthorizationRequest, check_request, AuthorizationGrant,
  AuthorizationDecision, authorize,
}
use state_wake.Access.Authorize.{NotExpired, IsGranted, authorize_iff}

abbrev principal : Principal
principal = record {
  principal_id = "alice";
  roles = "auditor" ∷ [];
  resource_scopes = ("receipt", "r1" ∷ []) ∷ [];
  status = active;
  expires_at = some (aware 10);
}

abbrev request : AuthorizationRequest
request = record {
  operation = verify;
  resource_domain = "receipt";
  resource_id = "r1";
  resource_state = "sealed";
  requested_at = aware 9;
}

abbrev grants : List AuthorizationGrant
grants = (record { role = "auditor"; operation = verify; allowed_states = "sealed" ∷ [] }) ∷ []

request-check : check_request request ≡ ok tt
unfolding check_request text_functions
request-check = refl

authorize_iff_example :
    (d : AuthorizationDecision) × (authorize grants principal request ≡ ok d)
    × ((d.allowed ≡ true) ↔ (
        (principal.status ≡ active)
        × NotExpired (some (aware 10)) (aware 9)
        × (elem "r1" (scope principal.resource_scopes "receipt") ≡ true)
        × IsGranted principal request grants))
authorize_iff_example = authorize_iff grants principal request request-check
