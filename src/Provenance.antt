-- ===== src/Provenance.antt =====
-- src/statewake/domain/provenance.py: the provenance graph, its checks and its searches.
pub mod Walk
pub mod Acyclic
pub mod Reachable
pub mod Proof
mod Tests
use mathlib.Core.List.{reverse}
use state_wake.Base.{
  ℕ, zero, suc, ◌+◌, String, ◌<>◌, Bool, true, false, not, ◌&&◌, ◌||◌, Option, none, some, List, [],
  ◌∷◌, ◌++◌, map, ◌=ₛ◌, is_blank, is_sha256, starts_with, forward_slashes, split_slash, elem,
  is_distinct, any, all, filter, is_nil, sorted, length, Error, value_error, key_error,
  recursion_error, out_of_fuel, Result, Check, ok, err, ◌>>=◌, ◌>>◌, raise_if, if◌then◌else◌,
}

pub record ProvenanceNode : Type 0 where
  pub node_id : String
  pub kind : String
  pub digest : String
  pub identity : String
  pub derived_from : List String
  pub path : Option String

-- the test on `self.path` in `__post_init__`
is_unsafe_path : Option String → Bool
is_unsafe_path none = false
is_unsafe_path (some path) =
    is_blank path || starts_with path "/" || elem ".." (split_slash (forward_slashes path))

-- ProvenanceNode.__post_init__
pub check_node : ProvenanceNode → Check
unfolding is_unsafe_path
check_node n = do
  raise_if (is_blank n.node_id || is_blank n.kind || is_blank n.identity)
      (value_error "node_id, kind, and identity must not be empty.")
  raise_if (not (is_sha256 n.digest)) (value_error "digest must be lowercase SHA-256 hex.")
  raise_if (is_unsafe_path n.path) (value_error "path must be relative and must not contain '..'.")
  raise_if (any is_blank n.derived_from) (value_error "derived_from must not contain blank values.")
  raise_if (elem n.node_id n.derived_from)
      (value_error "a provenance node cannot derive from itself.")

pub record ProvenanceGraph : Type 0 where
  pub nodes : List ProvenanceNode
  pub required_edges : List (String × String)

abbrev pub node_ids : List ProvenanceNode → List String
node_ids = map (λ (n : ProvenanceNode). n.node_id)

-- the first node that names an unknown source
check_sources : List String → List ProvenanceNode → Check
check_sources known [] = ok tt
check_sources known (n ∷ rest) =
    if any (λ source. not (elem source known)) n.derived_from
    then err (value_error ("node " <> n.node_id <> " references unknown provenance"))
    else check_sources known rest

-- ProvenanceGraph.__post_init__
pub check_graph : ProvenanceGraph → Check
unfolding check_sources
check_graph g = do
  let ids = node_ids g.nodes
  raise_if (not (is_distinct ids)) (value_error "provenance node IDs must be unique.")
  check_sources ids g.nodes
  raise_if (any (λ e. not (elem e.0 ids) || not (elem e.1 ids)) g.required_edges)
      (value_error "required provenance edges must reference known node IDs.")

-- the loop of `node`
find_node : List ProvenanceNode → String → Result ProvenanceNode
find_node [] node_id = err (key_error node_id)
find_node (n ∷ rest) node_id = if n.node_id =ₛ node_id then ok n else find_node rest node_id

pub node : ProvenanceGraph → String → Result ProvenanceNode
unfolding find_node
node g = find_node g.nodes

-- `roots`: the nodes that no node derives from
pub roots : ProvenanceGraph → List String
roots g = sorted (
    node_ids (
      filter (λ n. not (any (λ (m : ProvenanceNode). elem n.node_id m.derived_from) g.nodes))
        g.nodes))

pub children : ProvenanceGraph → String → List String
children g node_id = sorted (node_ids (filter (λ n. elem node_id n.derived_from) g.nodes))

-- The loop `for parent in ...: visit(parent)`, over the set `visited`.
visit_all :
    (List String → String → Result (List String)) → List String → List String → Result (List String)
visit_all visit visited [] = ok visited
visit_all visit visited (parent ∷ rest) = do
  visited' ← visit visited parent
  visit_all visit visited' rest

-- The inner function `visit` of `validate_acyclic`. `limit` is what is left of the interpreter's
-- recursion limit. `visiting` holds the calls that are running: the source adds a node on entry
-- and removes it on exit.
visit : ProvenanceGraph → ℕ → List String → List String → String → Result (List String)
unfolding visit_all
visit g zero visiting visited node_id = err recursion_error
visit g (suc limit) visiting visited node_id =
    let parents = (do
      n ← node g node_id
      visited' ← visit_all (visit g limit (node_id ∷ visiting)) visited n.derived_from
      ok (node_id ∷ visited')) in
    if elem node_id visiting
    then err (value_error "provenance graph cycle detected.")
    else if elem node_id visited
    then ok visited
    else parents

pub validate_acyclic : ℕ → ProvenanceGraph → Check
unfolding visit visit_all
validate_acyclic limit g = do visited ← visit_all (visit g limit []) [] (node_ids g.nodes); ok tt

-- `(child, parent) in edges`
has_edge : ProvenanceGraph → String → String → Bool
has_edge g child parent =
    any (λ (n : ProvenanceNode). (n.node_id =ₛ child) && elem parent n.derived_from) g.nodes

pub validate_required_edges : ℕ → ProvenanceGraph → Check
unfolding has_edge
validate_required_edges limit g = do
  validate_acyclic limit g
  raise_if (any (λ e. not (has_edge g e.0 e.1)) g.required_edges)
      (value_error "required provenance edges are missing")

-- The `while stack` loop of `reachable`; the top of the stack is the head of the list, so
-- `stack.extend(parents)` puts the parents in front, the last one first.
reach_loop : ProvenanceGraph → String → ℕ → List String → List String → Result Bool
reach_loop g target zero seen stack = err out_of_fuel
reach_loop g target (suc fuel) seen [] = ok false
reach_loop g target (suc fuel) seen (current ∷ stack) =
    let skip = reach_loop g target fuel seen stack in
    let descend = (do
      n ← node g current
      reach_loop g target fuel (current ∷ seen) (reverse n.derived_from ++ stack)) in
    if current =ₛ target then ok true else if elem current seen then skip else descend

-- how often the loop can push: once for each entry of `derived_from`
abbrev pub total_degree : List ProvenanceNode → ℕ
total_degree [] = 0
total_degree (n ∷ ns) = length n.derived_from + total_degree ns

pub reachable : ProvenanceGraph → String → String → Result Bool
unfolding reach_loop
reachable g start_id target_id = do
  start ← node g start_id
  target ← node g target_id
  reach_loop g target_id (total_degree g.nodes + 2) [] (start_id ∷ [])
