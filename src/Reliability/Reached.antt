-- ===== src/Reliability/Reached.antt =====
-- The files that the service reaches, and what every one of them is.
use state_wake.Base.{
  ℕ, String, ◌≡◌, ◌≢◌, inl, inr, refl, sym, ◌∙◌, subst, true, not, ◌&&◌, Option, none, some, List,
  [], ◌∷◌, ◌++◌, ◌=ₛ◌, eq_iff, elem, instant, last, Check, ok, >>=-eq-ok, >>-eq-ok, raise_if, arith,
  Bool-cases, Option-cases, Datetime,
}
use state_wake.Reliability.{
  ReliabilityStateTransition, Line, allowed_transitions, check_transition, check_states, of_subject,
  read_all, parse_from, read, check_predecessor, find_existing, append_to, append,
}
use state_wake.Reliability.Parse.{digest_or, read_all-append}
use state_wake.Reliability.Histories.{Follows, Continues, Follows-other}
use state_wake.Reliability.Service.{
  check_request, last_of, ReliabilityEvidenceChain, ReliabilityStateSnapshot, Prepared, repeated,
  fresh, or_empty, snapshot, build_transition, check_chain_decision, check_recovery, prepare_fresh,
  prepare_from, prepare, finish,
}

check_states-allowed :
    (t : ReliabilityStateTransition)
    → check_states t ≡ ok tt
    → elem t.to_state (allowed_transitions t.from_state) ≡ true
unfolding check_states
check_states-allowed t h = ground arith

check_transition-allowed :
    (t : ReliabilityStateTransition)
    → check_transition t ≡ ok tt
    → elem t.to_state (allowed_transitions t.from_state) ≡ true
unfolding check_transition
check_transition-allowed t h =
    let (states, h1) = >>-eq-ok (check_states t) _ h in check_states-allowed t states

module _ (computed_digest : ReliabilityStateTransition → String)
    (verify_chain : Option (ReliabilityEvidenceChain → Check))
    (derive_id : String → String → ReliabilityEvidenceChain → ℕ → String) where
  -- what a prepared transition is
  record IsPrepared (t : ReliabilityStateTransition) (chain : ReliabilityEvidenceChain)
      : Type 0 where
    valid : check_transition t ≡ ok tt
    target : t.to_state ≡ chain.reliability_state
    first : t.previous_transition_digest ≡ "" → t.from_state ≡ "unknown"

  prepare_fresh-valid :
      (subject_id : String) (current : ReliabilityStateSnapshot) (chain : ReliabilityEvidenceChain)
      (actor : String) (when : Datetime) (rationale : List String) (p : Prepared)
      → prepare_fresh computed_digest derive_id subject_id current chain actor when rationale ≡ ok p
      → (t : ReliabilityStateTransition) × (p ≡ fresh t)
        × (check_transition t ≡ ok tt)
        × (t.to_state ≡ chain.reliability_state)
        × (t.from_state ≡ current.state)
        × (t.previous_transition_digest ≡ or_empty current.transition_digest)
  unfolding prepare_fresh build_transition
  prepare_fresh-valid subject_id current chain actor when rationale p h =
      let (a, h1) =
        >>-eq-ok
          (raise_if (not (elem chain.reliability_state (allowed_transitions current.state))) _) _
          h in
      let (b, h2) = >>-eq-ok (check_chain_decision chain.decision chain.reliability_state) _ h1 in
      let (c, h3) = >>-eq-ok (check_recovery current.state chain.reliability_state chain) _ h2 in
      let t =
        build_transition computed_digest
          (derive_id subject_id (or_empty current.transition_digest) chain (instant when))
          subject_id current chain actor when rationale in
      let (d, h4) = >>-eq-ok (check_transition t) _ h3 in (t, cc, d, refl, refl, refl)

  prepare_from-IsPrepared :
      (digest_nonempty : (t : ReliabilityStateTransition) → computed_digest t ≢ "")
      (subject_id : String) (latest : Option ReliabilityStateTransition)
      (chain : ReliabilityEvidenceChain) (actor : String) (when : Datetime)
      (rationale : List String) (t : ReliabilityStateTransition)
      → prepare_from computed_digest derive_id subject_id latest chain actor when rationale
        ≡ ok (fresh t)
      → IsPrepared t chain
  unfolding prepare_from snapshot
  prepare_from-IsPrepared digest_nonempty subject_id none chain actor when rationale t h =
      let (u, e, v, target, from, prev) =
        prepare_fresh-valid subject_id (snapshot computed_digest subject_id none) chain actor when
          rationale (fresh t) h in
      let same : u ≡ t = ground arith in
      subst (λ z. IsPrepared z chain) same
        (record { valid = v; target = target; first = λ _. from })
  prepare_from-IsPrepared digest_nonempty subject_id (some l) chain actor when rationale t h =
      elim (Bool-cases
        (l.to_state =ₛ chain.reliability_state && l.evidence_chain_id =ₛ chain.chain_id)) [
          | inl again ↦ ground arith
          | inr new ↦
              let made : prepare_fresh computed_digest derive_id subject_id
                    (snapshot computed_digest subject_id (some l)) chain actor when rationale
                  ≡ ok (fresh t) =
                ground arith in
              let (u, e, v, target, from, prev) =
                prepare_fresh-valid subject_id (snapshot computed_digest subject_id (some l)) chain
                  actor when rationale (fresh t) made in
              let same : u ≡ t = ground arith in
              subst (λ z. IsPrepared z chain) same
                (record {
                  valid = v;
                  target = target;
                  first = λ none_before. absurd (digest_nonempty l (sym prev ∙ none_before));
                })
        ]

  prepare-from :
      (file : List Line) (subject_id : String) (chain : ReliabilityEvidenceChain) (actor : String)
      (when : Datetime) (rationale : List String) (p : Prepared)
      → prepare computed_digest verify_chain derive_id file subject_id chain actor when rationale
        ≡ ok p
      → (latest : Option ReliabilityStateTransition) × (prepare_from computed_digest derive_id
            subject_id latest chain actor when rationale
          ≡ ok p)
  unfolding prepare
  prepare-from file subject_id chain actor when rationale p h =
      let (a, h3) = >>-eq-ok (check_request verify_chain subject_id chain when) _ h in
      let (history, e, h4) = >>=-eq-ok (read computed_digest file subject_id) _ h3 in
      (last history, h4)

  -- A call of the service on a file, with the snapshot it read. The snapshot may be of any file, such
  -- as an earlier state of this one.
  pub data Reached : List Line → Type 0 where
    nothing : Reached []
    called :
        (file seen file' : List Line) (subject_id : String) (chain : ReliabilityEvidenceChain)
        (actor : String) (when : Datetime) (rationale : List String) (p : Prepared)
        (returned : ReliabilityStateTransition)
        → Reached file
        → prepare computed_digest verify_chain derive_id seen subject_id chain actor when rationale
          ≡ ok p
        → finish computed_digest file p ≡ ok (file', returned)
        → Reached file'

  -- what holds of every file reached
  pub record IsHistory (file : List Line) : Type 0 where
    pub transitions : List ReliabilityStateTransition
    pub reads : read_all computed_digest file ≡ ok transitions
    pub follows : (s : String) → Follows computed_digest "unknown" "" (of_subject s transitions)

  -- the tests of `append` against the last transition of the subject
  check_predecessor-Continues :
      (latest : Option ReliabilityStateTransition) (t : ReliabilityStateTransition)
      → check_predecessor computed_digest latest t ≡ ok tt
      → (t.previous_transition_digest ≡ "" → t.from_state ≡ "unknown")
      → Continues computed_digest latest "unknown" "" t
        × (t.previous_transition_digest ≡ digest_or computed_digest "" latest)
  unfolding check_predecessor
  check_predecessor-Continues none t h first =
      let linked : t.previous_transition_digest ≡ "" =
        ground (arith, eq_iff t.previous_transition_digest "") in
      ((first linked, linked), linked)
  check_predecessor-Continues (some p) t h first =
      let linked : t.previous_transition_digest ≡ computed_digest p =
        ground (arith, eq_iff t.previous_transition_digest (computed_digest p)) in
      let next : t.from_state ≡ p.to_state = ground (arith, eq_iff t.from_state p.to_state) in
      ((next, linked), linked)

  append-IsHistory :
      (file file' : List Line) (t r : ReliabilityStateTransition)
      → IsHistory file
      → check_transition t ≡ ok tt
      → (t.previous_transition_digest ≡ "" → t.from_state ≡ "unknown")
      → append computed_digest file t ≡ ok (file', r)
      → IsHistory file'
  unfolding append append_to
  append-IsHistory file file' t r i v first h =
      let (ts, e, h1) = >>=-eq-ok (read_all computed_digest file) _ h in
      let read_ts : i.transitions ≡ ts = cc (i.reads, e) in
      elim (Option-cases (find_existing ts t.transition_id)) [
        | inl missing ↦
            let run : append_to computed_digest file ts t none ≡ ok (file', r) =
              subst (λ o. append_to computed_digest file ts t o ≡ ok (file', r)) missing h1 in
            let (c, h2) =
              >>-eq-ok (check_predecessor computed_digest (last (of_subject t.subject_id ts)) t) _
                run in
            let (continues, linked) =
              check_predecessor-Continues (last (of_subject t.subject_id ts)) t c first in
            let grown : file ++ (record { transition = t; digest = computed_digest t }) ∷ []
                ≡ file' =
              ground arith in
            subst IsHistory grown (record {
              transitions = ts ++ t ∷ [];
              reads = read_all-append computed_digest file ts t e v linked;
              follows =
                  Follows-other computed_digest ts t
                    (subst
                      (λ l. (s : String) → Follows computed_digest "unknown" "" (of_subject s l))
                      read_ts i.follows)
                    continues (check_transition-allowed t v);
            })
        | inr (existing, found) ↦
            let run : append_to computed_digest file ts t (some existing) ≡ ok (file', r) =
              subst (λ o. append_to computed_digest file ts t o ≡ ok (file', r)) found h1 in
            let same : file ≡ file' = ground arith in subst IsHistory same i
      ]

  last_of-file :
      (file file' : List Line) (o : Option ReliabilityStateTransition)
      (r : ReliabilityStateTransition)
      → last_of file o ≡ ok (file', r)
      → file ≡ file'
  last_of-file file file' none r h = cc
  last_of-file file file' (some t) r h = ground arith

  finish-IsHistory :
      (digest_nonempty : (t : ReliabilityStateTransition) → computed_digest t ≢ "")
      (file file' : List Line) (subject_id : String) (latest : Option ReliabilityStateTransition)
      (chain : ReliabilityEvidenceChain) (actor : String) (when : Datetime)
      (rationale : List String) (p : Prepared) (r : ReliabilityStateTransition)
      → IsHistory file
      → prepare_from computed_digest derive_id subject_id latest chain actor when rationale ≡ ok p
      → finish computed_digest file p ≡ ok (file', r)
      → IsHistory file'
  unfolding finish
  finish-IsHistory digest_nonempty file file' subject_id latest chain actor when rationale
        (repeated s) r i h f =
      let (history, e, f1) = >>=-eq-ok (read computed_digest file s) _ f in
      subst IsHistory (last_of-file file file' (last history) r f1) i
  finish-IsHistory digest_nonempty file file' subject_id latest chain actor when rationale (fresh t)
        r i h f =
      let made =
        prepare_from-IsPrepared digest_nonempty subject_id latest chain actor when rationale t h in
      append-IsHistory file file' t r i made.valid made.first f

  -- Where a digest is never the empty text, every file reached from the empty one by calls of the
  -- service, each with a snapshot of any file, reads without an error, and the transitions of each
  -- subject go through allowed states from unknown, each naming the digest of the one before it.
  pub Reached-IsHistory :
      (digest_nonempty : (t : ReliabilityStateTransition) → computed_digest t ≢ "")
      (file : List Line)
      → Reached file
      → IsHistory file
  unfolding read_all parse_from
  Reached-IsHistory digest_nonempty _ nothing = record {
    transitions = [];
    reads = refl;
    follows = λ s. tt;
  }
  Reached-IsHistory digest_nonempty _
        (called file seen file' subject_id chain actor when rationale p r earlier h f) =
      let (latest, e) = prepare-from seen subject_id chain actor when rationale p h in
      finish-IsHistory digest_nonempty file file' subject_id latest chain actor when rationale p r
        (Reached-IsHistory digest_nonempty file earlier) e f
