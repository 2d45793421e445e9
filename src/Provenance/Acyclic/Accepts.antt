-- ===== src/Provenance/Acyclic/Accepts.antt =====
-- A graph that `validate_acyclic` accepts has no cycle: the visited list is a topological order.
use state_wake.Base.{
  ℕ, zero, suc, ◌<◌, String, zero, suc, ◌≡◌, ◌>>=◌, true, List, [], ◌∷◌, eq_iff, elem, length,
  Result, ok, ◌>>=◌, >>=-eq-ok, arith, Bool-cases, if◌then◌else◌, inl, inr,
}
use state_wake.Provenance.{ProvenanceGraph, node, node_ids, visit, visit_all, validate_acyclic}
use state_wake.Provenance.{node, node_ids, visit, validate_acyclic}
use state_wake.Provenance.Walk.{parents-node, Walk-elem, Edge, Walk, edge, then_edge}

-- the number of entries below the last occurrence
rank : String → List String → ℕ
rank u [] = 0
rank u (x ∷ r) = if elem u r then rank u r else length r

rank-lt-length : (u : String) (r : List String) → elem u r ≡ true → rank u r < length r
unfolding rank
rank-lt-length u [] h = cc
rank-lt-length u (x ∷ r) h = ground (arith, rank-lt-length u r)

module _ (g : ProvenanceGraph) where
  -- Every entry has its sources below it.
  abbrev IsOrdered : List String → Type 0
  IsOrdered [] = Unit
  IsOrdered (x ∷ r) = ((v : String) → Edge g x v → elem v r ≡ true) × IsOrdered r

  rank-Edge :
      (u v : String) (xs : List String)
      → IsOrdered xs
      → elem u xs ≡ true
      → Edge g u v
      → (elem v xs ≡ true) × (rank v xs < rank u xs)
  unfolding rank
  rank-Edge u v [] o h e = cc
  rank-Edge u v (x ∷ r) o h e = elim (Bool-cases (elem u r)) [
    | inl deeper ↦ ground (arith, rank-Edge u v r o.1 deeper e)
    | inr last ↦
        let same : x ≡ u = ground (arith, eq_iff x u) in
        let below = o.0 v (rw same e) in ground (arith, rank-lt-length v r below)
  ]

  rank-Walk :
      {u v : String} (xs : List String)
      → IsOrdered xs
      → elem u xs ≡ true
      → Walk g u v
      → (elem v xs ≡ true) × (rank v xs < rank u xs)
  rank-Walk xs o h (edge e) = rank-Edge _ _ xs o h e
  rank-Walk xs o h (then_edge {v} {w} p e) =
      let (m, lt) = rank-Walk xs o h p in
      let (m', lt') = rank-Edge v w xs o m e in (m', omega arith)

  -- what a call that returns has done with the set
  record Extends (targets old new : List String) : Type 0 where
    kept : (x : String) → elem x old ≡ true → elem x new ≡ true
    added : (x : String) → elem x targets ≡ true → elem x new ≡ true
    ordered : IsOrdered new

  module _ (call : List String → String → Result (List String))
      (sound : (old new : List String) (u : String)
        → IsOrdered old
        → call old u ≡ ok new
        → Extends (u ∷ []) old new) where
    visit_all-Extends :
        (us old new : List String)
        → IsOrdered old
        → visit_all call old us ≡ ok new
        → Extends us old new
    unfolding visit_all
    visit_all-Extends [] old new o h =
        let same : old ≡ new = cc in
        record { kept = λ x m. rw (← same) m; added = λ x m. cc; ordered = rw same at o }
    visit_all-Extends (u ∷ us) old new o h =
        let (mid, first, rest) = >>=-eq-ok (call old u) (λ v. visit_all call v us) h in
        let e = sound old mid u o first in
        let f = visit_all-Extends us mid new e.ordered rest in
        record {
          kept = λ x m. f.kept x (e.kept x m);
          added = λ x m. ground (arith, f.added x, e.added x, f.kept x);
          ordered = f.ordered;
        }

  -- A visit keeps the set ordered and adds its node.
  visit-Extends :
      (limit : ℕ) (visiting old new : List String) (u : String)
      → IsOrdered old
      → visit g limit visiting old u ≡ ok new
      → Extends (u ∷ []) old new
  unfolding visit
  visit-Extends zero visiting old new u o h = cc
  visit-Extends (suc limit) visiting old new u o h = elim (Bool-cases (elem u visiting)) [
    | inl running ↦ absurd (cc (rw running at h))
    | inr fresh ↦ elim (Bool-cases (elem u old)) [
      | inl done ↦
          let same : old ≡ new = ground arith in
          record {
            kept = λ x m. rw (← same) m;
            added = λ x m. ground (arith, eq_iff u x);
            ordered = rw same at o;
          }
      | inr undone ↦
          let body = rw (fresh, undone) at h in
          let (n, found, rest) =
            >>=-eq-ok (node g u)
              (λ n. visit_all (visit g limit (u ∷ visiting)) old n.derived_from >>= λ v. ok (u ∷ v))
              body in
          let (mid, all_done, last) =
            >>=-eq-ok (visit_all (visit g limit (u ∷ visiting)) old n.derived_from)
              (λ v. ok (u ∷ v)) rest in
          let e =
            visit_all-Extends (visit g limit (u ∷ visiting))
              (λ o' n' w. visit-Extends limit (u ∷ visiting) o' n' w) n.derived_from old mid o
              all_done in
          let same : u ∷ mid ≡ new = cc in
          rw (← same) (record {
            kept = λ x m. ground (arith, e.kept x m);
            added = λ x m. ground arith;
            ordered = (λ v m. e.added v (rw (parents-node g u found) at m), e.ordered);
          })
    ]
  ]

-- A graph that `validate_acyclic` accepts has no walk from a node back to itself, whatever the
-- recursion limit.
pub validate_acyclic_sound :
    (limit : ℕ) (g : ProvenanceGraph)
    → validate_acyclic limit g ≡ ok tt
    → (u : String) → ¬ Walk g u u
unfolding validate_acyclic
validate_acyclic_sound limit g h u p =
    let (new, all_done, _) =
      >>=-eq-ok (visit_all (visit g limit []) [] (node_ids g.nodes)) (λ _. ok tt) h in
    let e =
      visit_all-Extends g (visit g limit []) (λ o n w. visit-Extends g limit [] o n w)
        (node_ids g.nodes) [] new tt all_done in
    omega (arith, (rank-Walk g new e.ordered (e.added u (Walk-elem p)) p).1)
