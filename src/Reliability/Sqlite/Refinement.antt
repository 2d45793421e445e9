-- ===== src/Reliability/Sqlite/Refinement.antt =====
-- The two stores of reliability histories answer alike.
use state_wake.Base.{
  ◌⊎◌, String, ◌≡◌, refl, ap, ◌∙◌, inl, inr, Option, none, some, List, [], ◌∷◌, ◌++◌, last, Error,
  Result, Check, ok, err, Bool-cases,
}
use state_wake.Reliability
use state_wake.Reliability.{
  ReliabilityStateTransition, Line, check_transition, same_payload, of_subject, find_existing,
  check_predecessor, append_to, parse_from, read_all,
}
use state_wake.Reliability.Parse.{read_all-append}
use state_wake.Reliability.Retry.{check_predecessor-linked}
use state_wake.Reliability.Sqlite
use state_wake.Reliability.Sqlite.{
  Row, rows_of, find_row, row_of, insert, check_latest, append_row, read_rows,
}
use state_wake.Reliability.Sqlite.Agrees.{
  table, stored, AreLinked, decode-row_of, read_rows-table, rows_of-table, of_subject-AreLinked,
  parse_from-AreLinked, find_row-table, last-table, AreLinked-found, AreLinked-last, unused-insert,
  check_latest-predecessor,
}

Check-cases : (c : Check) → (c ≡ ok tt) ⊎ ((e : Error) × (c ≡ err e))
Check-cases (ok tt) = inl refl
Check-cases (err e) = inr (e, refl)

module _ (computed_digest : ReliabilityStateTransition → String) where
  table-append :
      (ts : List ReliabilityStateTransition) (t : ReliabilityStateTransition)
      → table computed_digest ts ++ row_of computed_digest t ∷ []
        ≡ table computed_digest (ts ++ t ∷ [])
  table-append [] t = refl
  table-append (u ∷ ts) t = ap (λ l. row_of computed_digest u ∷ l) (table-append ts t)

  -- the file and the table hold the same transitions
  abbrev pub Holds : List Row → List Line → Type 0
  Holds rows file =
      (ts : List ReliabilityStateTransition) × (read_all computed_digest file ≡ ok ts)
      × (rows ≡ table computed_digest ts)

  -- both raised the same, or both returned the same and hold the same
  abbrev pub SameOutcome :
      Result (List Row × ReliabilityStateTransition)
      → Result (List Line × ReliabilityStateTransition)
      → Type 0
  SameOutcome (err e) (err f) = e ≡ f
  SameOutcome (ok (rows, r)) (ok (file, r')) = (r ≡ r') × Holds rows file
  SameOutcome (err e) (ok _) = ⊥
  SameOutcome (ok _) (err f) = ⊥

  append_row-SameOutcome :
      (file : List Line) (ts : List ReliabilityStateTransition) (t : ReliabilityStateTransition)
      → read_all computed_digest file ≡ ok ts
      → AreLinked computed_digest [] ts
      → check_transition t ≡ ok tt
      → (found : Option ReliabilityStateTransition) → find_existing ts t.transition_id ≡ found
      → SameOutcome
          (append_row computed_digest (table computed_digest ts) t (stored computed_digest found))
          (append_to computed_digest file ts t found)
  unfolding append_row append_to insert
  append_row-SameOutcome file ts t h l v (some existing) e =
      let valid = AreLinked-found computed_digest [] ts t.transition_id existing l e in
      elim (Bool-cases (same_payload existing t)) [
        | inl same ↦ rw (decode-row_of computed_digest existing valid, same) (refl, (ts, h, refl))
        | inr other ↦ rw (decode-row_of computed_digest existing valid, other) refl
      ]
  append_row-SameOutcome file ts t h l v none e =
      let own = of_subject t.subject_id ts in
      let linked = of_subject-AreLinked computed_digest t.subject_id [] [] ts refl l in
      let latest : last (rows_of t.subject_id (table computed_digest ts))
          ≡ stored computed_digest (last own) =
        ap last (rows_of-table computed_digest t.subject_id ts) ∙ last-table computed_digest own in
      let same : check_latest computed_digest
            (last (rows_of t.subject_id (table computed_digest ts))) t
          ≡ check_predecessor computed_digest (last own) t =
        ap (λ r. check_latest computed_digest r t) latest
        ∙ check_latest-predecessor computed_digest (last own) t
            (λ p at_end. AreLinked-last computed_digest [] own p linked at_end) in
      elim (Check-cases (check_predecessor computed_digest (last own) t)) [
        | inr (raised, c) ↦ rw (same, c) refl
        | inl c ↦
            let reads =
              read_all-append computed_digest file ts t h v
                (check_predecessor-linked computed_digest (last own) t c) in
            rw (same, c, unused-insert computed_digest ts t e)
              (refl, (ts ++ t ∷ [], reads, table-append ts t))
      ]

  pub read_all-AreLinked :
      (file : List Line) (ts : List ReliabilityStateTransition)
      → read_all computed_digest file ≡ ok ts
      → AreLinked computed_digest [] ts
  unfolding read_all
  read_all-AreLinked file ts h = parse_from-AreLinked computed_digest [] file ts h

  append-agrees :
      (rows : List Row) (file : List Line) (t : ReliabilityStateTransition)
      → Holds rows file
      → check_transition t ≡ ok tt
      → SameOutcome
          (Sqlite.append computed_digest rows t)
          (Reliability.append computed_digest file t)
  unfolding Reliability.append Sqlite.append
  append-agrees rows file t (ts, h, e) v =
      let l = read_all-AreLinked file ts h in
      let same = append_row-SameOutcome file ts t h l v (find_existing ts t.transition_id) refl in
      rw (e, h, find_row-table computed_digest ts t.transition_id) same

  reads_agree :
      (rows : List Row) (file : List Line)
      → Holds rows file
      → (Sqlite.read computed_digest rows none ≡ read_all computed_digest file)
        × ((s : String)
            → Sqlite.read computed_digest rows (some s) ≡ Reliability.read computed_digest file s)
  unfolding Reliability.read Sqlite.read
  reads_agree rows file (ts, h, e) =
      let l = read_all-AreLinked file ts h in
      (
        rw (e, h) (read_rows-table computed_digest [] ts l),
        λ s.
            rw (e, h)
              (ap (read_rows computed_digest []) (rows_of-table computed_digest s ts)
                ∙ read_rows-table computed_digest [] (of_subject s ts)
                    (of_subject-AreLinked computed_digest s [] [] ts refl l)),
      )

-- the store after a call, which an exception leaves as it was
abbrev pub kept {ℓ} : {S : Type ℓ} → S → Result (S × ReliabilityStateTransition) → S
kept store (err e) = store
kept store (ok (next, t)) = next

-- what the caller sees of it
abbrev pub answer {ℓ} :
    {S : Type ℓ} → Result (S × ReliabilityStateTransition) → Result ReliabilityStateTransition
answer (err e) = err e
answer (ok (next, t)) = ok t

module _ {ℓ} {S : Type ℓ}
    (append : S → ReliabilityStateTransition → Result (S × ReliabilityStateTransition)) where
  -- the store after a sequence of calls, and their answers
  abbrev pub run : S → List ReliabilityStateTransition → S
  run store [] = store
  run store (t ∷ ts) = run (kept store (append store t)) ts

  abbrev pub answers :
      S → List ReliabilityStateTransition → List (Result ReliabilityStateTransition)
  answers store [] = []
  answers store (t ∷ ts) = answer (append store t) ∷ answers (kept store (append store t)) ts

abbrev pub AreValid : List ReliabilityStateTransition → Type 0
AreValid [] = Unit
AreValid (t ∷ ts) = (check_transition t ≡ ok tt) × AreValid ts

module _ (computed_digest : ReliabilityStateTransition → String) where
  SameOutcome-answer :
      (rows : List Row) (file : List Line) (a : Result (List Row × ReliabilityStateTransition))
      (b : Result (List Line × ReliabilityStateTransition))
      → Holds computed_digest rows file
      → SameOutcome computed_digest a b
      → (answer a ≡ answer b) × Holds computed_digest (kept rows a) (kept file b)
  SameOutcome-answer rows file (err e) (err f) h same = (ap err same, h)
  SameOutcome-answer rows file (ok (rows', r)) (ok (file', r')) h (same, h') = (ap ok same, h')
  SameOutcome-answer rows file (err e) (ok b) h same = absurd same
  SameOutcome-answer rows file (ok a) (err f) h same = absurd same

  answers_agree :
      (rows : List Row) (file : List Line) (ts : List ReliabilityStateTransition)
      → AreValid ts
      → Holds computed_digest rows file
      → (answers (Sqlite.append computed_digest) rows ts
          ≡ answers (Reliability.append computed_digest) file ts)
        × Holds computed_digest
            (run (Sqlite.append computed_digest) rows ts)
            (run (Reliability.append computed_digest) file ts)
  answers_agree rows file [] v h = (refl, h)
  answers_agree rows file (t ∷ ts) (v, vs) h =
      let a = Sqlite.append computed_digest rows t in
      let b = Reliability.append computed_digest file t in
      let (same, h') =
        SameOutcome-answer rows file a b h (append-agrees computed_digest rows file t h v) in
      let (rest, last_h) = answers_agree (kept rows a) (kept file b) ts vs h' in
      (λ i. same i ∷ rest i, last_h)

  empty_reads : read_all computed_digest [] ≡ ok []
  unfolding read_all parse_from
  empty_reads = refl

  -- From an empty table and an empty file, each sequence of valid transitions gets the same answers
  -- from both stores, exceptions included; and afterwards both read the same, of all subjects and of
  -- each one.
  pub stores_agree :
      (ts : List ReliabilityStateTransition)
      → AreValid ts
      → (answers (Sqlite.append computed_digest) [] ts
          ≡ answers (Reliability.append computed_digest) [] ts)
        × (Sqlite.read computed_digest (run (Sqlite.append computed_digest) [] ts) none
            ≡ read_all computed_digest (run (Reliability.append computed_digest) [] ts))
        × ((s : String)
            → Sqlite.read computed_digest (run (Sqlite.append computed_digest) [] ts) (some s)
              ≡ Reliability.read computed_digest (run (Reliability.append computed_digest) [] ts) s)
  stores_agree ts v =
      let empty : Holds computed_digest [] [] = ([], empty_reads, refl) in
      let (same, h) = answers_agree [] [] ts v empty in
      let (all, each) = reads_agree computed_digest _ _ h in (same, all, each)
