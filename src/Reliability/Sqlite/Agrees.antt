-- ===== src/Reliability/Sqlite/Agrees.antt =====
-- The table of the SQLite store that holds the transitions of a file.
use state_wake.Base.{
  is_empty, raise_if, Check, String, ◌≡◌, refl, sym, ap, ◌∙◌, subst, inl, inr, true, false, not,
  Option, none, some, List, [], ◌∷◌, map, any, last, ◌=ₛ◌, eq_iff, ok, err, >>=-eq-ok, >>-eq-ok,
  raise_if-eq-ok, ◌&&◌, if◌then◌else◌, arith, Bool-cases,
}
use state_wake.Reliability.{
  in_line, check_line_parts, ReliabilityStateTransition, Line, tip, check_transition, check_line,
  parse_from, of_subject, find_existing, check_predecessor,
}
use state_wake.Reliability.Sqlite.{
  Row, find_row, rows_of, decode, row_of, check_latest, check_row_parts, read_rows,
}

tip-cons :
    (s d x : String) (a b : List (String × String))
    → tip a s ≡ tip b s
    → tip ((x, d) ∷ a) s ≡ tip ((x, d) ∷ b) s
unfolding tip
tip-cons s d x a b h = ap (λ z. if x =ₛ s then d else z) h

tip-other :
    (s d x : String) (a : List (String × String)) → x =ₛ s ≡ false → tip ((x, d) ∷ a) s ≡ tip a s
unfolding tip
tip-other s d x a h = rw h refl

in_line-ok : (c : Check) → in_line c ≡ ok tt → c ≡ ok tt
in_line-ok (ok tt) h = refl
in_line-ok (err e) h = cc

-- the table that holds the transitions
module _ (computed_digest : ReliabilityStateTransition → String) where
  abbrev pub table : List ReliabilityStateTransition → List Row
  table = map (row_of computed_digest)

  -- each transition is valid, and names the tip of its subject
  abbrev pub AreLinked : List (String × String) → List ReliabilityStateTransition → Type 0
  AreLinked tips [] = Unit
  AreLinked tips (t ∷ rest) =
      (check_transition t ≡ ok tt)
      × (t.previous_transition_digest ≡ tip tips t.subject_id)
      × AreLinked ((t.subject_id, computed_digest t) ∷ tips) rest

  check_line-linked :
      (tips : List (String × String)) (line : Line)
      → check_line computed_digest tips line ≡ ok tt
      → (check_transition line.transition ≡ ok tt)
        × (line.transition.previous_transition_digest ≡ tip tips line.transition.subject_id)
  unfolding check_line check_line_parts
  check_line-linked tips line h =
      let parts = in_line-ok (check_line_parts computed_digest tips line) h in
      let (d, h1) =
        >>-eq-ok
          (raise_if
            (not (is_empty line.digest) && not (line.digest =ₛ computed_digest line.transition)) _)
          _ parts in
      let (v, h2) = >>-eq-ok (check_transition line.transition) _ h1 in
      let link =
        line.transition.previous_transition_digest =ₛ tip tips line.transition.subject_id in
      let (p, h3) = >>-eq-ok (raise_if (not link) _) _ h2 in
      let unequal = raise_if-eq-ok _ _ p in
      let equal : link ≡ true = ground arith in
      (
        v,
        (eq_iff line.transition.previous_transition_digest (tip tips line.transition.subject_id)).0
            equal,
      )

  pub parse_from-AreLinked :
      (tips : List (String × String)) (file : List Line) (ts : List ReliabilityStateTransition)
      → parse_from computed_digest tips file ≡ ok ts
      → AreLinked tips ts
  unfolding parse_from
  parse_from-AreLinked tips [] ts h = let same : [] ≡ ts = cc in subst (AreLinked tips) same tt
  parse_from-AreLinked tips (line ∷ file) ts h =
      let (own, h1) = >>-eq-ok (check_line computed_digest tips line) _ h in
      let (rest, e, h2) =
        >>=-eq-ok
          (parse_from computed_digest
            ((line.transition.subject_id, computed_digest line.transition) ∷ tips) file)
          _ h1 in
      let same : line.transition ∷ rest ≡ ts = cc in
      let (v, p) = check_line-linked tips line own in
      subst (AreLinked tips) same (
        v,
        p,
        parse_from-AreLinked ((line.transition.subject_id, computed_digest line.transition) ∷ tips)
            file rest e,
      )

  pub decode-row_of :
      (t : ReliabilityStateTransition)
      → check_transition t ≡ ok tt
      → decode computed_digest (record { transition = t; digest = computed_digest t }) ≡ ok t
  unfolding decode
  decode-row_of t v = ground (arith, eq_iff (computed_digest t) (computed_digest t))

  check_row-row_of :
      (tips : List (String × String)) (t : ReliabilityStateTransition)
      → check_transition t ≡ ok tt
      → t.previous_transition_digest ≡ tip tips t.subject_id
      → check_row_parts computed_digest tips (row_of computed_digest t) ≡ ok tt
  unfolding check_row_parts
  check_row-row_of tips t v p =
      let same = (eq_iff t.subject_id t.subject_id).1 refl in
      let digest = (eq_iff (computed_digest t) (computed_digest t)).1 refl in
      let link = (eq_iff t.previous_transition_digest (tip tips t.subject_id)).1 p in
      rw (decode-row_of t v, same, digest, link) refl

  -- a table of linked transitions reads
  pub read_rows-table :
      (tips : List (String × String)) (ts : List ReliabilityStateTransition)
      → AreLinked tips ts
      → read_rows computed_digest tips (table ts) ≡ ok ts
  unfolding read_rows
  read_rows-table tips [] l = refl
  read_rows-table tips (t ∷ ts) (v, p, l) =
      let later = read_rows-table ((t.subject_id, computed_digest t) ∷ tips) ts l in
      rw (check_row-row_of tips t v p, later) refl

  pub rows_of-table :
      (s : String) (ts : List ReliabilityStateTransition)
      → rows_of s (table ts) ≡ table (of_subject s ts)
  rows_of-table s [] = refl
  rows_of-table s (t ∷ ts) =
      let later = rows_of-table s ts in
      elim (Bool-cases (t.subject_id =ₛ s)) [
        | inl here ↦ rw here (ap (λ l. row_of computed_digest t ∷ l) later)
        | inr other ↦ rw other later
      ]

  -- the transitions of one subject are linked among themselves
  pub of_subject-AreLinked :
      (s : String) (tips own : List (String × String)) (ts : List ReliabilityStateTransition)
      → tip tips s ≡ tip own s
      → AreLinked tips ts
      → AreLinked own (of_subject s ts)
  of_subject-AreLinked s tips own [] e l = tt
  of_subject-AreLinked s tips own (t ∷ ts) e (v, p, l) = elim (Bool-cases (t.subject_id =ₛ s)) [
    | inl here ↦
        let same = (eq_iff t.subject_id s).0 here in
        let link =
          subst (λ z. t.previous_transition_digest ≡ tip own z) (sym same)
            (subst (λ z. t.previous_transition_digest ≡ tip tips z) same p ∙ e) in
        let tips' = tip-cons s (computed_digest t) t.subject_id tips own e in
        rw here (
          v,
          link,
          of_subject-AreLinked s ((t.subject_id, computed_digest t) ∷ tips)
              ((t.subject_id, computed_digest t) ∷ own) ts tips' l,
        )
    | inr other ↦
        let tips' : tip ((t.subject_id, computed_digest t) ∷ tips) s ≡ tip own s =
          tip-other s (computed_digest t) t.subject_id tips other ∙ e in
        rw other (of_subject-AreLinked s ((t.subject_id, computed_digest t) ∷ tips) own ts tips' l)
  ]

  abbrev pub stored : Option ReliabilityStateTransition → Option Row
  stored none = none
  stored (some t) = some (row_of computed_digest t)

  -- the row of an identity is that of its transition
  pub find_row-table :
      (ts : List ReliabilityStateTransition) (id : String)
      → find_row (table ts) id ≡ stored (find_existing ts id)
  unfolding find_row find_existing
  find_row-table [] id = refl
  find_row-table (t ∷ ts) id =
      let later = find_row-table ts id in
      elim (Bool-cases (t.transition_id =ₛ id)) [
        | inl here ↦ rw here refl
        | inr other ↦ rw other later
      ]

  pub last-table : (ts : List ReliabilityStateTransition) → last (table ts) ≡ stored (last ts)
  last-table [] = refl
  last-table (t ∷ []) = refl
  last-table (t ∷ u ∷ ts) = last-table (u ∷ ts)

  -- a valid transition is found
  pub AreLinked-found :
      (tips : List (String × String)) (ts : List ReliabilityStateTransition) (id : String)
      (t : ReliabilityStateTransition)
      → AreLinked tips ts
      → find_existing ts id ≡ some t
      → check_transition t ≡ ok tt
  unfolding find_existing
  AreLinked-found tips [] id t l h = cc
  AreLinked-found tips (u ∷ ts) id t (v, p, l) h = elim (Bool-cases (u.transition_id =ₛ id)) [
    | inl here ↦ let same : u ≡ t = ground arith in subst (λ z. check_transition z ≡ ok tt) same v
    | inr other ↦
        AreLinked-found ((u.subject_id, computed_digest u) ∷ tips) ts id t l (ground arith)
  ]

  pub AreLinked-last :
      (tips : List (String × String)) (ts : List ReliabilityStateTransition)
      (t : ReliabilityStateTransition)
      → AreLinked tips ts
      → last ts ≡ some t
      → check_transition t ≡ ok tt
  AreLinked-last tips [] t l h = cc
  AreLinked-last tips (u ∷ []) t (v, p, l) h =
      let same : u ≡ t = cc in subst (λ z. check_transition z ≡ ok tt) same v
  AreLinked-last tips (u ∷ w ∷ ts) t (v, p, l) h =
      AreLinked-last ((u.subject_id, computed_digest u) ∷ tips) (w ∷ ts) t l h

  pub unused-insert :
      (ts : List ReliabilityStateTransition) (t : ReliabilityStateTransition)
      → find_existing ts t.transition_id ≡ none
      → any (λ row. row.transition_id =ₛ t.transition_id) (table ts) ≡ false
  unfolding find_existing
  unused-insert [] t h = refl
  unused-insert (u ∷ ts) t h = elim (Bool-cases (u.transition_id =ₛ t.transition_id)) [
    | inl here ↦ absurd (ground arith)
    | inr other ↦ let later = unused-insert ts t (ground arith) in rw other later
  ]

  pub check_latest-predecessor :
      (latest : Option ReliabilityStateTransition) (t : ReliabilityStateTransition)
      → ((p : ReliabilityStateTransition) → latest ≡ some p → check_transition p ≡ ok tt)
      → check_latest computed_digest (stored latest) t ≡ check_predecessor computed_digest latest t
  unfolding check_latest check_predecessor
  check_latest-predecessor none t h = refl
  check_latest-predecessor (some p) t h = rw (decode-row_of p (h p refl)) refl
