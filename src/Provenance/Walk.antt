-- ===== src/Provenance/Walk.antt =====
-- What the searches of `ProvenanceGraph` are about: the edges of a graph and its walks.
use state_wake.Base.{
  refl, String, ◌≡◌, true, false, not, List, [], ◌∷◌, ◌=ₛ◌, eq_iff, elem, any, ok, err, key_error,
  Result, arith, Bool-cases, inl, inr,
}
use state_wake.Provenance.{
  ProvenanceNode, ProvenanceGraph, find_node, node, node_ids, check_sources, check_graph,
}

-- what a lookup of a name yields, as a list of the sources of the node
abbrev sources : Result ProvenanceNode → List String
sources (ok n) = n.derived_from
sources (err _) = []

pub parents : ProvenanceGraph → String → List String
parents g u = sources (node g u)

-- `v` is a source of the node `u`
abbrev pub Edge : ProvenanceGraph → String → String → Type 0
Edge g u v = elem v (parents g u) ≡ true

-- a walk of one or more edges, from an artifact back to what it derives from
pub data Walk (g : ProvenanceGraph) (u : String) : String → Type 0 where
  edge : {v : String} → Edge g u v → Walk g u v
  then_edge : {v w : String} → Walk g u v → Edge g v w → Walk g u w

-- a walk of no or more edges
pub data Reach (g : ProvenanceGraph) (u : String) : String → Type 0 where
  here : Reach g u u
  step : {v w : String} → Reach g u v → Edge g v w → Reach g u w

-- every source that a node names is a node
abbrev pub IsClosed : ProvenanceGraph → Type 0
IsClosed g = (u v : String) → Edge g u v → elem v (node_ids g.nodes) ≡ true

-- A lookup of a name among the identifiers finds a node.
find_node-elem :
    (ns : List ProvenanceNode) (u : String)
    → elem u (node_ids ns) ≡ true
    → (n : ProvenanceNode) × (find_node ns u ≡ ok n)
unfolding find_node
find_node-elem [] u h = cc
find_node-elem (n ∷ ns) u h = elim (Bool-cases (n.node_id =ₛ u)) [
  | inl found ↦ (n, rw found)
  | inr other ↦ let (m, e) = find_node-elem ns u (rw other at h) in (m, rw other e)
]

pub node-elem :
    (g : ProvenanceGraph) (u : String)
    → elem u (node_ids g.nodes) ≡ true
    → (n : ProvenanceNode) × (node g u ≡ ok n) × (parents g u ≡ n.derived_from)
unfolding node parents
node-elem g u h = let (n, e) = find_node-elem g.nodes u h in (n, e, rw e)

module _ (known : List String) (v : String) where
  any-elem :
      (xs : List String)
      → any (λ source. not (elem source known)) xs ≡ false
      → elem v xs ≡ true
      → elem v known ≡ true
  any-elem [] h m = cc
  any-elem (x ∷ xs) h m = ground (arith, eq_iff x v, any-elem xs)

  check_sources-elem :
      (ns : List ProvenanceNode) (u : String)
      → check_sources known ns ≡ ok tt
      → elem v (sources (find_node ns u)) ≡ true
      → elem v known ≡ true
  unfolding check_sources find_node
  check_sources-elem [] u h m = cc
  check_sources-elem (n ∷ ns) u h m =
      ground (arith, any-elem n.derived_from, check_sources-elem ns u)

-- A graph that was constructed is closed.
pub check_graph-IsClosed : (g : ProvenanceGraph) → check_graph g ≡ ok tt → IsClosed g
unfolding check_graph parents node
check_graph-IsClosed g h u v e = check_sources-elem (node_ids g.nodes) v g.nodes u (ground arith) e

pub parents-node :
    (g : ProvenanceGraph) (u : String) {n : ProvenanceNode}
    → node g u ≡ ok n
    → parents g u ≡ n.derived_from
unfolding parents
parents-node g u h = rw h

elem-find_node :
    (ns : List ProvenanceNode) (u v : String)
    → elem v (sources (find_node ns u)) ≡ true
    → elem u (node_ids ns) ≡ true
unfolding find_node
elem-find_node [] u v h = cc
elem-find_node (n ∷ ns) u v h = ground (arith, elem-find_node ns u v)

-- An edge leaves a node of the graph.
pub Edge-elem : (g : ProvenanceGraph) (u v : String) → Edge g u v → elem u (node_ids g.nodes) ≡ true
unfolding parents node
Edge-elem g u v h = elem-find_node g.nodes u v h

-- So does a walk.
pub Walk-elem : {g : ProvenanceGraph} {u v : String} → Walk g u v → elem u (node_ids g.nodes) ≡ true
Walk-elem {g} {u} (edge {v} e) = Edge-elem g u v e
Walk-elem (then_edge p e) = Walk-elem p

pub Walk-front : {g : ProvenanceGraph} {u v w : String} → Edge g u v → Walk g v w → Walk g u w
Walk-front e (edge f) = then_edge (edge e) f
Walk-front e (then_edge p f) = then_edge (Walk-front e p) f

find_node_unknown :
    (ns : List ProvenanceNode) (u : String)
    → elem u (node_ids ns) ≡ false
    → find_node ns u ≡ err (key_error u)
unfolding find_node
find_node_unknown [] u h = refl
find_node_unknown (n ∷ ns) u h = ground (arith, find_node_unknown ns u)

-- A lookup of a name that is no node raises.
pub node_unknown :
    (g : ProvenanceGraph) (u : String)
    → elem u (node_ids g.nodes) ≡ false
    → node g u ≡ err (key_error u)
unfolding node
node_unknown g u h = find_node_unknown g.nodes u h
