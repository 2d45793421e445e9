-- ===== src/Provenance/Proof.antt =====
-- src/statewake/services/provenance_service.py: integrity proofs over a provenance graph, and
-- `verify_identities` of domain/provenance.py.
pub mod Sound
use state_wake.Base.{
  ℕ, String, ◌<>◌, Bool, true, false, not, ◌&&◌, Option, none, some, List, [], ◌∷◌, ◌=ₛ◌, is_nil,
  is_sha256, all, Error, value_error, key_error, Result, Check, ok, err, ◌>>=◌, ◌>>◌, raise_if,
  if◌then◌else◌,
}
use state_wake.Provenance.{ProvenanceGraph, node, validate_required_edges, reachable}

-- The identities whose node has another one, in order; a lookup of an unknown node raises.
mismatches : ProvenanceGraph → List (String × String) → Result (List String)
mismatches g [] = ok []
mismatches g ((node_id, expected) ∷ rest) = do
  n ← node g node_id
  others ← mismatches g rest
  ok (if n.identity =ₛ expected then others else node_id ∷ others)

pub verify_identities : ProvenanceGraph → List (String × String) → Check
unfolding mismatches
verify_identities g identities = do
  found ← mismatches g identities
  raise_if (not (is_nil found)) (value_error "provenance identity mismatches: ")

pub record IntegrityProof : Type 0 where
  pub graph_digest : String
  pub required_edges_verified : Bool
  pub required_identities_verified : Bool
  pub reachable_pairs : List (String × String × Bool)
  pub verified : Bool

-- IntegrityProof.__post_init__
pub check_proof : IntegrityProof → Check
check_proof p =
    raise_if (not (is_sha256 p.graph_digest))
      (value_error "graph_digest must be lowercase SHA-256 hex.")

-- `try: ...; True except ValueError: False`
catch_value_error : Check → Result Bool
catch_value_error (ok _) = ok true
catch_value_error (err (value_error _)) = ok false
catch_value_error (err e) = err e

-- `except KeyError: result = False`
catch_key_error : Result Bool → Result Bool
catch_key_error (ok b) = ok b
catch_key_error (err (key_error _)) = ok false
catch_key_error (err e) = err e

-- the loop over `reachable_pairs`
pair_results : ProvenanceGraph → List (String × String) → Result (List (String × String × Bool))
unfolding catch_key_error
pair_results g [] = ok []
pair_results g ((child, parent) ∷ rest) = do
  result ← catch_key_error (reachable g child parent)
  results ← pair_results g rest
  ok ((child, parent, result) ∷ results)

-- `if identities is None`
identities_ok : ProvenanceGraph → Option (List (String × String)) → Result Bool
unfolding catch_value_error verify_identities
identities_ok g none = ok true
identities_ok g (some identities) = catch_value_error (verify_identities g identities)

-- `digest` is the canonical SHA-256 of a graph; `limit` is the recursion limit.
unfoldable pub build_integrity_proof :
    (ProvenanceGraph → String)
    → ℕ
    → ProvenanceGraph
    → Option (List (String × String))
    → List (String × String)
    → Result IntegrityProof
unfolding catch_value_error identities_ok pair_results check_proof
build_integrity_proof digest limit g identities pairs = do
  edges_ok ← catch_value_error (validate_required_edges limit g)
  identity_ok ← identities_ok g identities
  results ← pair_results g pairs
  let reachable_ok = all (λ r. r.2) results
  let proof : IntegrityProof = record {
    graph_digest = digest g;
    required_edges_verified = edges_ok;
    required_identities_verified = identity_ok;
    reachable_pairs = results;
    verified = edges_ok && identity_ok && reachable_ok;
  }
  check_proof proof
  ok proof
