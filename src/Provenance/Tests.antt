-- ===== src/Provenance/Tests.antt =====
-- The provenance theorems at a concrete graph: a report derived from a summary of a log.
use state_wake.Base.{
  String, ◌≡◌, ◌⊎◌, refl, true, false, some, List, [], ◌∷◌, ok, err, value_error, arith,
  text_functions, sorted,
}
use state_wake.Provenance.{
  ProvenanceNode, ProvenanceGraph, check_node, check_graph, node, validate_acyclic,
  validate_required_edges, reachable, roots, children,
}
use state_wake.Provenance.Walk.{Walk, Reach}
use state_wake.Provenance.Acyclic.{validate_acyclic_sound, validate_acyclic_decides, cycle_error}
use state_wake.Provenance.Reachable.{reachable_decides}
use state_wake.Provenance.Proof.{IntegrityProof, build_integrity_proof}
use state_wake.Provenance.Proof.Sound.{
  AllDerive, AllIdentified, AllReach, build_integrity_proof_sound,
}

abbrev hex : String
hex = "0123456789abcdef0123456789abcdef0123456789abcdef0123456789abcdef"

abbrev artifact : String → List String → ProvenanceNode
artifact name sources = record {
  node_id = name;
  kind = "file";
  digest = hex;
  identity = "id";
  derived_from = sources;
  path = some "out/a.json";
}

abbrev chain : ProvenanceGraph
chain = record {
  nodes =
      artifact "report" ("summary" ∷ []) ∷ artifact "summary" ("log" ∷ []) ∷ artifact "log" [] ∷ [];
  required_edges = ("report", "summary") ∷ [];
}

abbrev loop : ProvenanceGraph
loop = record {
  nodes = artifact "a" ("b" ∷ []) ∷ artifact "b" ("a" ∷ []) ∷ [];
  required_edges = [];
}

chain-check :
    (check_graph chain ≡ ok tt) × (check_node (artifact "report" ("summary" ∷ [])) ≡ ok tt)
unfolding check_graph check_node text_functions
chain-check = (refl, refl)

escaping_path :
    check_node (record (artifact "a" []) { path = some "out\\..\\x" })
    ≡ err (value_error "path must be relative and must not contain '..'.")
unfolding check_node text_functions
escaping_path = refl

chain-accepted : validate_acyclic 1000 chain ≡ ok tt
unfolding validate_acyclic node
chain-accepted = refl

loop-rejected : validate_acyclic 1000 loop ≡ err cycle_error
unfolding validate_acyclic node
loop-rejected = refl

chain-searches :
    (reachable chain "report" "log" ≡ ok true)
    × (reachable chain "log" "report" ≡ ok false)
    × (roots chain ≡ "report" ∷ [])
    × (children chain "log" ≡ "summary" ∷ [])
unfolding reachable node roots children sorted
chain-searches = (refl, refl, refl, refl)

abbrev digest : ProvenanceGraph → String
digest _ = hex

abbrev proof : IntegrityProof
proof = record {
  graph_digest = hex;
  required_edges_verified = true;
  required_identities_verified = true;
  reachable_pairs = ("report", "log", true) ∷ [];
  verified = true;
}

chain-proof :
    build_integrity_proof digest 1000 chain (some (("log", "id") ∷ [])) (("report", "log") ∷ [])
    ≡ ok proof
unfolding build_integrity_proof validate_required_edges validate_acyclic node reachable
    text_functions
chain-proof = refl

validate_acyclic_sound_example : ¬ Walk chain "report" "report"
validate_acyclic_sound_example = validate_acyclic_sound 1000 chain chain-accepted "report"

validate_acyclic_decides_example :
    ((validate_acyclic 10 chain ≡ ok tt) × ((u : String) → ¬ Walk chain u u))
    ⊎ ((validate_acyclic 10 chain ≡ err cycle_error) × ((u : String) × Walk chain u u))
validate_acyclic_decides_example = validate_acyclic_decides 10 chain chain-check.0 (omega arith)

reachable_decides_example :
    ((reachable chain "log" "report" ≡ ok true) × Reach chain "log" "report")
    ⊎ ((reachable chain "log" "report" ≡ ok false) × ¬ Reach chain "log" "report")
reachable_decides_example = reachable_decides chain "log" "report" chain-check.0 refl refl

build_integrity_proof_sound_example :
    ((u : String) → ¬ Walk chain u u)
    × AllDerive chain chain.required_edges
    × AllIdentified chain (("log", "id") ∷ [])
    × AllReach chain (("report", "log") ∷ [])
build_integrity_proof_sound_example =
    build_integrity_proof_sound digest 1000 chain (some (("log", "id") ∷ []))
      (("report", "log") ∷ []) proof chain-check.0 chain-proof refl
