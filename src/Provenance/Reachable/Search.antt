-- ===== src/Provenance/Reachable/Search.antt =====
-- The loop of `reachable`: it has rounds enough, what it finds is reachable, and what it has seen
-- is closed under edges.
use mathlib.Core.List.{reverse, reverse-cons}
use state_wake.Base.{
  ℕ, zero, suc, ◌<◌, ◌≤◌, ◌+◌, String, ◌≡◌, ◌⊎◌, refl, Bool, true, false, List, [], ◌∷◌, ◌++◌,
  eq_iff, ◌=ₛ◌, elem, elem-cons, elem_head, subst, ◌≢◌, elem-append, length, length-append, Result,
  ok, err, arith, Bool-cases, if◌then◌else◌, inl, inr,
}
use state_wake.Provenance.{
  ProvenanceGraph, ProvenanceNode, node, node_ids, check_graph, total_degree, find_node, reach_loop,
  reachable,
}
use state_wake.Provenance.Walk.{
  node_unknown, parents-node, node-elem, Edge, Reach, here, step, IsClosed, check_graph-IsClosed,
}

elem-reverse : (x : String) (xs : List String) → elem x (reverse xs) ≡ elem x xs
elem-reverse x [] = refl
elem-reverse x (y ∷ ys) =
    rw (reverse-cons y ys) (ground (arith, elem-append x (reverse ys) (y ∷ []), elem-reverse x ys))

length-reverse : (xs : List String) → length (reverse xs) ≡ length xs
length-reverse [] = refl
length-reverse (y ∷ ys) =
    rw (reverse-cons y ys) (omega (arith, length-append (reverse ys) (y ∷ []), length-reverse ys))

-- what the loop can still push: the sources of the nodes that it has not seen
pending : List String → List ProvenanceNode → ℕ
pending seen [] = 0
pending seen (n ∷ ns) =
    let rest = pending seen ns in if elem n.node_id seen then rest else length n.derived_from + rest

pending-nil : (ns : List ProvenanceNode) → pending [] ns ≡ total_degree ns
unfolding pending
pending-nil [] = refl
pending-nil (n ∷ ns) = omega (arith, pending-nil ns)

pending-le-cons :
    (u : String) (seen : List String) (ns : List ProvenanceNode)
    → pending (u ∷ seen) ns ≤ pending seen ns
unfolding pending
pending-le-cons u seen [] = omega arith
pending-le-cons u seen (n ∷ ns) = ground (arith, pending-le-cons u seen ns)

-- A node that becomes seen pays for what it pushes.
pending-cons :
    (u : String) (seen : List String) (ns : List ProvenanceNode) (n : ProvenanceNode)
    → find_node ns u ≡ ok n
    → elem u seen ≡ false
    → pending (u ∷ seen) ns + length n.derived_from ≤ pending seen ns
unfolding pending find_node
pending-cons u seen [] n h f = cc
pending-cons u seen (m ∷ ns) n h f = ground (
  arith,
  eq_iff m.node_id u,
  eq_iff u m.node_id,
  pending-le-cons u seen ns,
  pending-cons u seen ns n,
)

pending-node :
    (g : ProvenanceGraph) (u : String) (seen : List String) (n : ProvenanceNode)
    → node g u ≡ ok n
    → elem u seen ≡ false
    → pending (u ∷ seen) g.nodes + length n.derived_from ≤ pending seen g.nodes
unfolding node
pending-node g u seen n found new = pending-cons u seen g.nodes n found new

module _ (g : ProvenanceGraph) (source target : String) where
  -- what the answer of the search says
  abbrev Decides : Result Bool → Type 0
  Decides (ok true) = Reach g source target
  Decides (ok false) = ¬ Reach g source target
  Decides (err _) = ⊥

  record Inv (seen stack : List String) : Type 0 where
    sound : (x : String) → elem x stack ≡ true → Reach g source x
    known : (x : String) → elem x stack ≡ true → elem x (node_ids g.nodes) ≡ true
    closed :
        (x v : String)
        → elem x seen ≡ true
        → Edge g x v
        → (elem v seen ≡ true) ⊎ (elem v stack ≡ true)
    start : (elem source seen ≡ true) ⊎ (elem source stack ≡ true)
    missed : elem target seen ≡ false

  -- With nothing left to do, all that can be reached has been seen.
  seen_all :
      (seen : List String) → Inv seen [] → {x : String} → Reach g source x → elem x seen ≡ true
  seen_all seen i here = ground (arith, i.start)
  seen_all seen i (step {v} {w} p e) = ground (arith, i.closed v w (seen_all seen i p) e)

  Inv-skip :
      (u : String) (seen stack : List String)
      → elem u seen ≡ true
      → Inv seen (u ∷ stack)
      → Inv seen stack
  Inv-skip u seen stack old i = record {
    sound = λ x m. i.sound x (ground arith);
    known = λ x m. i.known x (ground arith);
    closed = λ x v m e. ground (arith, i.closed x v m e, eq_iff u v);
    start = ground (arith, i.start, eq_iff u source);
    missed = i.missed;
  }

  Inv-descend :
      (u : String) (n : ProvenanceNode) (seen stack : List String)
      → node g u ≡ ok n
      → u ≢ target
      → IsClosed g
      → Inv seen (u ∷ stack)
      → Inv (u ∷ seen) (reverse n.derived_from ++ stack)
  Inv-descend u n seen stack found other closed i = record {
    sound = λ x m. elim (on_stack x m) [
      | inl new ↦ step (i.sound u (elem_head u stack)) (as_edge x new)
      | inr old ↦ i.sound x (ground arith)
    ];
    known = λ x m. elim (on_stack x m) [
      | inl new ↦ closed u x (as_edge x new)
      | inr old ↦ i.known x (ground arith)
    ];
    closed = λ x v m e. elim (elem-cons x u seen m) [
      | inl same ↦ inr (stacked v (rw (← parents-node g u found, same) e))
      | inr older ↦
          ground
            (arith, i.closed x v older e, elem-append v (reverse n.derived_from) stack, eq_iff u v)
    ];
    start =
        ground (arith, i.start, elem-append source (reverse n.derived_from) stack, eq_iff u source);
    missed = ground (arith, eq_iff u target, i.missed);
  }
    where
      as_edge : (x : String) → elem x n.derived_from ≡ true → Edge g u x
      as_edge x m = rw (parents-node g u found) m

      on_stack :
          (x : String)
          → elem x (reverse n.derived_from ++ stack) ≡ true
          → (elem x n.derived_from ≡ true) ⊎ (elem x stack ≡ true)
      on_stack x m =
          ground
            (arith, elem-append x (reverse n.derived_from) stack, elem-reverse x n.derived_from)

      stacked :
          (v : String)
          → elem v n.derived_from ≡ true
          → elem v (reverse n.derived_from ++ stack) ≡ true
      stacked v m =
          ground
            (arith, elem-append v (reverse n.derived_from) stack, elem-reverse v n.derived_from)

  reach_loop-Decides :
      IsClosed g
      → (fuel : ℕ) (seen stack : List String) → Inv seen stack
      → length stack + pending seen g.nodes < fuel
      → Decides (reach_loop g target fuel seen stack)
  unfolding reach_loop
  reach_loop-Decides closed zero seen stack i room = absurd (omega arith)
  reach_loop-Decides closed (suc fuel) seen [] i room = λ p. cc (seen_all seen i p, i.missed)
  reach_loop-Decides closed (suc fuel) seen (u ∷ stack) i room = elim (Bool-cases (u =ₛ target)) [
    | inl hit ↦
        let same : u ≡ target = (eq_iff u target).0 hit in
        rw hit (subst (Reach g source) same (i.sound u (elem_head u stack)))
    | inr miss ↦ elim (Bool-cases (elem u seen)) [
      | inl old ↦
          rw (miss, old)
            (reach_loop-Decides closed fuel seen stack (Inv-skip u seen stack old i) (omega arith))
      | inr new ↦
          let (n, found, _) = node-elem g u (i.known u (elem_head u stack)) in
          rw (miss, new, found)
            (reach_loop-Decides closed fuel (u ∷ seen) (reverse n.derived_from ++ stack)
              (Inv-descend u n seen stack found (λ same. cc (miss, (eq_iff u target).1 same)) closed
                i)
              (omega (
                arith,
                pending-node g u seen n found new,
                length-append {0} (reverse n.derived_from) stack,
                length-reverse n.derived_from,
              )))
    ]
  ]

-- Over a graph that was constructed, a search between two of its nodes returns, and the answer
-- says whether the target can be reached from the source.
pub reachable_decides :
    (g : ProvenanceGraph) (source target : String)
    → check_graph g ≡ ok tt
    → elem source (node_ids g.nodes) ≡ true
    → elem target (node_ids g.nodes) ≡ true
    → ((reachable g source target ≡ ok true) × Reach g source target)
      ⊎ ((reachable g source target ≡ ok false) × ¬ Reach g source target)
unfolding reachable
reachable_decides g source target h ms mt =
    let (_, fs, _) = node-elem g source ms in
    let (_, ft, _) = node-elem g target mt in
    let fuel = total_degree g.nodes + 2 in
    rw (fs, ft)
      (answer (reach_loop g target fuel [] (source ∷ [])) refl (
        reach_loop-Decides g source target (check_graph-IsClosed g h) fuel [] (source ∷ []) begin
          (omega (arith, pending-nil g.nodes))))
  where
    begin : Inv g source target [] (source ∷ [])
    begin = record {
      sound = λ x m.
          let same : source ≡ x = ground (arith, eq_iff source x) in
          subst (Reach g source) same here;
      known = λ x m. let same : source ≡ x = ground (arith, eq_iff source x) in rw (← same) ms;
      closed = λ x v m e. absurd (cc m);
      start = inr (elem_head source []);
      missed = refl;
    }

    answer :
        (r : Result Bool)
        → reach_loop g target (total_degree g.nodes + 2) [] (source ∷ []) ≡ r
        → Decides g source target r
        → ((reach_loop g target (total_degree g.nodes + 2) [] (source ∷ []) ≡ ok true)
            × Reach g source target)
          ⊎ ((reach_loop g target (total_degree g.nodes + 2) [] (source ∷ []) ≡ ok false)
              × ¬ Reach g source target)
    answer (ok true) e d = inl (e, d)
    answer (ok false) e d = inr (e, d)
    answer (err x) e d = absurd d

-- What `reachable` finds is there.
pub reachable-Reach :
    (g : ProvenanceGraph) (source target : String)
    → check_graph g ≡ ok tt
    → reachable g source target ≡ ok true
    → Reach g source target
unfolding reachable
reachable-Reach g source target h found = elim (Bool-cases (elem source (node_ids g.nodes))) [
  | inl ms ↦ elim (Bool-cases (elem target (node_ids g.nodes))) [
    | inl mt ↦ elim (reachable_decides g source target h ms mt) [
      | inl (_, p) ↦ p
      | inr (no_walk, _) ↦ absurd (cc (no_walk, found))
    ]
    | inr nt ↦
        let (_, fs, _) = node-elem g source ms in
        absurd (cc (rw (fs, node_unknown g target nt) at found))
  ]
  | inr ns ↦ absurd (cc (rw (node_unknown g source ns) at found))
]
