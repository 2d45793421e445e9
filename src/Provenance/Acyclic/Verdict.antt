-- ===== src/Provenance/Acyclic/Verdict.antt =====
-- With a recursion limit above the number of nodes, `validate_acyclic` accepts, or it raises the
-- cycle error and there is a cycle.
use state_wake.Base.{
  ℕ, zero, suc, ◌<◌, ◌≤◌, String, ◌≡◌, ◌⊎◌, refl, true, false, List, [], ◌∷◌, eq_iff, elem,
  elem-cons, elem_head, length, Result, Check, ap, ◌∙◌, ok, err, Error, value_error, ◌>>=◌, arith,
  Bool-cases, if◌then◌else◌, inl, inr,
}
use state_wake.Provenance.{
  ProvenanceGraph, ProvenanceNode, node_ids, check_graph, visit, visit_all, validate_acyclic,
}
use state_wake.Provenance.Walk.{
  node-elem, Walk, Edge, edge, then_edge, IsClosed, check_graph-IsClosed,
}
use state_wake.Provenance.Acyclic.Accepts.{validate_acyclic_sound}

-- how many of the names `ids` are not in `visiting`
unseen : List String → List String → ℕ
unseen visiting [] = 0
unseen visiting (x ∷ ids) =
    let rest = unseen visiting ids in if elem x visiting then rest else suc rest

unseen-le-cons :
    (u : String) (visiting ids : List String) → unseen (u ∷ visiting) ids ≤ unseen visiting ids
unfolding unseen
unseen-le-cons u visiting [] = omega arith
unseen-le-cons u visiting (x ∷ ids) = ground (arith, unseen-le-cons u visiting ids)

-- A node that starts to be visited is one of those.
unseen-cons-lt :
    (u : String) (visiting ids : List String)
    → elem u ids ≡ true
    → elem u visiting ≡ false
    → unseen (u ∷ visiting) ids < unseen visiting ids
unfolding unseen
unseen-cons-lt u visiting [] h f = cc
unseen-cons-lt u visiting (x ∷ ids) h f =
    ground
      (arith, eq_iff x u, eq_iff u x, unseen-le-cons u visiting ids, unseen-cons-lt u visiting ids)

unseen-nil : (ns : List ProvenanceNode) → unseen [] (node_ids ns) ≡ length ns
unfolding unseen
unseen-nil [] = refl
unseen-nil (n ∷ ns) = omega (arith, unseen-nil ns)

abbrev pub cycle_error : Error
cycle_error = value_error "provenance graph cycle detected."

module _ (g : ProvenanceGraph) where
  -- what a search may answer: it goes on, or it raises over a cycle that is there
  abbrev Verdict {ℓ} : {A : Type ℓ} → Result A → Type 0
  Verdict (ok _) = Unit
  Verdict (err e) = (e ≡ cycle_error) × (u : String) × Walk g u u

  Verdict-bind {ℓ κ} :
      {A : Type ℓ} {B : Type κ} (m : Result A) (f : A → Result B)
      → Verdict m
      → ((a : A) → m ≡ ok a → Verdict (f a))
      → Verdict (m >>= f)
  Verdict-bind (ok a) f v k = k a refl
  Verdict-bind (err e) f v k = v

  visit_all-Verdict :
      (call : List String → String → Result (List String)) (us old : List String)
      → ((v : String) (o : List String) → elem v us ≡ true → Verdict (call o v))
      → Verdict (visit_all call old us)
  unfolding visit_all
  visit_all-Verdict call [] old h = tt
  visit_all-Verdict call (u ∷ us) old h =
      Verdict-bind (call old u) (λ v. visit_all call v us) (h u old (elem_head u us))
        λ mid _. visit_all-Verdict call us mid λ v o m. h v o (ground arith)

  visit-Verdict :
      IsClosed g
      → (limit : ℕ) (visiting old : List String) (u : String) → elem u (node_ids g.nodes) ≡ true
      → ((x : String) → elem x visiting ≡ true → Walk g x u)
      → unseen visiting (node_ids g.nodes) < limit
      → Verdict (visit g limit visiting old u)
  unfolding visit
  visit-Verdict closed zero visiting old u known chain room = absurd (omega arith)
  visit-Verdict closed (suc limit) visiting old u known chain room =
      elim (Bool-cases (elem u visiting)) [
        | inl running ↦ rw running (refl, u, chain u running)
        | inr fresh ↦ elim (Bool-cases (elem u old)) [
          | inl done ↦ rw (fresh, done) tt
          | inr undone ↦
              let (n, found, same) = node-elem g u known in
              rw (fresh, undone, found)
                (Verdict-bind (visit_all (visit g limit (u ∷ visiting)) old n.derived_from)
                  (λ v. ok (u ∷ v))
                  (visit_all-Verdict (visit g limit (u ∷ visiting)) n.derived_from old λ v o m.
                    let e : Edge g u v = rw same m in
                    visit-Verdict closed limit (u ∷ visiting) o v (closed u v e)
                      (λ x c. elim (elem-cons x u visiting c) [
                        | inl same ↦ rw (← same) (edge e)
                        | inr older ↦ then_edge (chain x older) e
                      ])
                      (omega (arith, unseen-cons-lt u visiting (node_ids g.nodes) known fresh)))
                  λ _ _. tt)
        ]
      ]

validate_acyclic-Verdict :
    (limit : ℕ) (g : ProvenanceGraph)
    → check_graph g ≡ ok tt
    → length g.nodes < limit
    → Verdict g (validate_acyclic limit g)
unfolding validate_acyclic
validate_acyclic-Verdict limit g h room =
    Verdict-bind g (visit_all (visit g limit []) [] (node_ids g.nodes)) (λ _. ok tt)
      (visit_all-Verdict g (visit g limit []) (node_ids g.nodes) [] λ v o m.
        visit-Verdict g (check_graph-IsClosed g h) limit [] o v m (λ x c. absurd (cc c))
          (omega (arith, unseen-nil g.nodes)))
      λ _ _. tt

-- Over a graph that was constructed, with a recursion limit above the number of its nodes,
-- `validate_acyclic` returns and the graph has no cycle, or it raises the cycle error and some node
-- has a walk back to itself. No other exception is raised.
pub validate_acyclic_decides :
    (limit : ℕ) (g : ProvenanceGraph)
    → check_graph g ≡ ok tt
    → length g.nodes < limit
    → ((validate_acyclic limit g ≡ ok tt) × ((u : String) → ¬ Walk g u u))
      ⊎ ((validate_acyclic limit g ≡ err cycle_error) × ((u : String) × Walk g u u))
validate_acyclic_decides limit g h room =
    answer (validate_acyclic limit g) refl (validate_acyclic-Verdict limit g h room)
  where
    answer :
        (r : Check)
        → validate_acyclic limit g ≡ r
        → Verdict g r
        → ((validate_acyclic limit g ≡ ok tt) × ((u : String) → ¬ Walk g u u))
          ⊎ ((validate_acyclic limit g ≡ err cycle_error) × ((u : String) × Walk g u u))
    answer (ok _) e v = inl (e, validate_acyclic_sound limit g e)
    answer (err x) e v = inr (e ∙ ap err v.0, (v.1, v.2))
