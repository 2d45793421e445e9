-- ===== src/Provenance/Proof/Sound.antt =====
-- What a verified integrity proof guarantees.
use state_wake.Base.{
  ℕ, String, ◌≡◌, refl, Bool, true, false, not, ◌&&◌, Option, none, some, List, [], ◌∷◌, ◌=ₛ◌,
  eq_iff, elem, any, all, value_error, Check, ok, err, ◌>>◌, >>=-eq-ok, >>-eq-ok, raise_if-eq-ok,
  arith, Bool-cases, inl, inr,
}
use state_wake.Provenance.{
  ProvenanceNode, ProvenanceGraph, node, check_graph, has_edge, validate_acyclic,
  validate_required_edges, reachable,
}
use state_wake.Provenance.Walk.{Walk, Reach}
use state_wake.Provenance.Acyclic.{validate_acyclic_sound}
use state_wake.Provenance.Reachable.{reachable-Reach}
use state_wake.Provenance.Proof.{
  IntegrityProof, check_proof, mismatches, verify_identities, catch_value_error, catch_key_error,
  pair_results, identities_ok, build_integrity_proof,
}

-- `parent` is listed by a node named `child`
pub data Derives (child parent : String) : List ProvenanceNode → Type 0 where
  here :
      {n : ProvenanceNode} {ns : List ProvenanceNode}
      → n.node_id ≡ child
      → elem parent n.derived_from ≡ true
      → Derives child parent (n ∷ ns)
  there :
      {n : ProvenanceNode} {ns : List ProvenanceNode}
      → Derives child parent ns
      → Derives child parent (n ∷ ns)

abbrev pub AllDerive : ProvenanceGraph → List (String × String) → Type 0
AllDerive g [] = Unit
AllDerive g ((child, parent) ∷ rest) = Derives child parent g.nodes × AllDerive g rest

abbrev pub AllIdentified : ProvenanceGraph → List (String × String) → Type 0
AllIdentified g [] = Unit
AllIdentified g ((node_id, expected) ∷ rest) =
    ((n : ProvenanceNode) × (node g node_id ≡ ok n) × (n.identity ≡ expected))
    × AllIdentified g rest

abbrev pub AllReach : ProvenanceGraph → List (String × String) → Type 0
AllReach g [] = Unit
AllReach g ((child, parent) ∷ rest) = Reach g child parent × AllReach g rest

abbrev pub IsIdentified : ProvenanceGraph → Option (List (String × String)) → Type 0
IsIdentified g none = Unit
IsIdentified g (some identities) = AllIdentified g identities

Derives-of_any :
    (child parent : String) (ns : List ProvenanceNode)
    → any (λ (n : ProvenanceNode). (n.node_id =ₛ child) && elem parent n.derived_from) ns ≡ true
    → Derives child parent ns
Derives-of_any child parent [] h = cc
Derives-of_any child parent (n ∷ ns) h =
    elim (Bool-cases ((n.node_id =ₛ child) && elem parent n.derived_from)) [
      | inl this ↦ here (ground (arith, eq_iff n.node_id child)) (ground arith)
      | inr other ↦ there (Derives-of_any child parent ns (rw other at h))
    ]

module _ (g : ProvenanceGraph) where
  AllDerive-of_any :
      (edges : List (String × String))
      → any (λ e. not (has_edge g e.0 e.1)) edges ≡ false
      → AllDerive g edges
  unfolding has_edge
  AllDerive-of_any [] h = tt
  AllDerive-of_any ((child, parent) ∷ rest) h =
      (Derives-of_any child parent g.nodes (ground arith), AllDerive-of_any rest (ground arith))

  validate_required_edges_sound :
      (limit : ℕ)
      → validate_required_edges limit g ≡ ok tt
      → ((u : String) → ¬ Walk g u u) × AllDerive g g.required_edges
  unfolding validate_required_edges
  validate_required_edges_sound limit h =
      let (acyclic, edges) = >>-eq-ok (validate_acyclic limit g) _ h in
      (
        validate_acyclic_sound limit g acyclic,
        AllDerive-of_any g.required_edges (raise_if-eq-ok _ _ edges),
      )

  catch-true : (c : Check) → catch_value_error c ≡ ok true → c ≡ ok tt
  unfolding catch_value_error
  catch-true (ok _) h = refl
  catch-true (err (value_error _)) h = cc
  catch-true (err e) h = cc

  mismatches-nil : (ids : List (String × String)) → mismatches g ids ≡ ok [] → AllIdentified g ids
  unfolding mismatches
  mismatches-nil [] h = tt
  mismatches-nil ((node_id, expected) ∷ rest) h =
      let (n, found, after) = >>=-eq-ok (node g node_id) _ h in
      let (others, tail, last) = >>=-eq-ok (mismatches g rest) _ after in
      let same : n.identity ≡ expected = ground (arith, eq_iff n.identity expected) in
      let clean : others ≡ [] = ground arith in
      ((n, found, same), mismatches-nil rest (rw (← clean) tail))

  identities_ok_sound :
      (identities : Option (List (String × String)))
      → identities_ok g identities ≡ ok true
      → IsIdentified g identities
  unfolding identities_ok verify_identities
  identities_ok_sound none h = tt
  identities_ok_sound (some ids) h =
      let done = catch-true (verify_identities g ids) h in
      let (found, all_found, empty) = >>=-eq-ok (mismatches g ids) _ done in
      mismatches-nil ids (ground arith)

  pair_results_sound :
      check_graph g ≡ ok tt
      → (pairs : List (String × String)) (results : List (String × String × Bool))
      → pair_results g pairs ≡ ok results
      → all (λ r. r.2) results ≡ true
      → AllReach g pairs
  unfolding pair_results catch_key_error
  pair_results_sound valid [] results h good = tt
  pair_results_sound valid ((child, parent) ∷ rest) results h good =
      let (r, first, after) = >>=-eq-ok (catch_key_error (reachable g child parent)) _ h in
      let (rs, tail, last) = >>=-eq-ok (pair_results g rest) _ after in
      (
        reachable-Reach g child parent valid (ground arith),
        pair_results_sound valid rest rs tail (ground arith),
      )

-- The last step of `build_integrity_proof`: `verified` is the conjunction of the three results.
verified-and :
    (digest : ProvenanceGraph → String) (g : ProvenanceGraph) (e i : Bool)
    (rs : List (String × String × Bool)) (p : IntegrityProof)
    → (let proof : IntegrityProof = record {
      graph_digest = digest g;
      required_edges_verified = e;
      required_identities_verified = i;
      reachable_pairs = rs;
      verified = e && i && all (λ r. r.2) rs;
    } in
        check_proof proof >> ok proof)
      ≡ ok p
    → p.verified ≡ true
    → (e && i && all (λ r. r.2) rs) ≡ true
unfolding check_proof
verified-and digest g e i rs p h good = ground arith

-- A verified integrity proof over a graph that was constructed means that the graph has no cycle,
-- that every required edge is in it, that every named identity is that of its node, and that every
-- pair asked for is joined by a walk.
pub build_integrity_proof_sound :
    (digest : ProvenanceGraph → String) (limit : ℕ) (g : ProvenanceGraph)
    (identities : Option (List (String × String))) (pairs : List (String × String))
    (p : IntegrityProof)
    → check_graph g ≡ ok tt
    → build_integrity_proof digest limit g identities pairs ≡ ok p
    → p.verified ≡ true
    → ((u : String) → ¬ Walk g u u)
      × AllDerive g g.required_edges
      × IsIdentified g identities
      × AllReach g pairs
unfolding build_integrity_proof
build_integrity_proof_sound digest limit g identities pairs p valid h good =
    let (e, edges, h₁) = >>=-eq-ok (catch_value_error (validate_required_edges limit g)) _ h in
    let (i, named, h₂) = >>=-eq-ok (identities_ok g identities) _ h₁ in
    let (rs, joined, h₃) = >>=-eq-ok (pair_results g pairs) _ h₂ in
    let all_good = verified-and digest g e i rs p h₃ good in
    let (acyclic, derive) =
      validate_required_edges_sound g limit
        (catch-true g (validate_required_edges limit g) (ground arith)) in
    (
      acyclic,
      derive,
      identities_ok_sound g identities (ground arith),
      pair_results_sound g valid pairs rs joined (ground arith),
    )
