-- ===== src/Reliability/Parse.antt =====
-- Reading a history after a line has been appended to it.
use state_wake.Base.{
  String, ◌≡◌, inl, inr, refl, sym, ◌∙◌, subst, Option, none, some, List, [], ◌∷◌, ◌++◌, ◌=ₛ◌,
  eq_iff, last, ok, >>=-ok, >>=-eq-ok, >>-eq-ok, arith, Bool-cases,
}
use state_wake.Reliability.{
  ReliabilityStateTransition, Line, tip, check_transition, check_line, parse_from, of_subject,
  read_all,
}

module _ (computed_digest : ReliabilityStateTransition → String) where
  -- the tips after the transitions
  tips_after : List (String × String) → List ReliabilityStateTransition → List (String × String)
  tips_after tips [] = tips
  tips_after tips (t ∷ rest) = tips_after ((t.subject_id, computed_digest t) ∷ tips) rest

  -- the digest of the last one, or else another text
  abbrev pub digest_or : String → Option ReliabilityStateTransition → String
  digest_or d none = d
  digest_or d (some t) = computed_digest t

  digest_or-cons :
      (d : String) (t : ReliabilityStateTransition) (ts : List ReliabilityStateTransition)
      → digest_or d (last (t ∷ ts)) ≡ digest_or (computed_digest t) (last ts)
  digest_or-cons d t [] = refl
  digest_or-cons d t (u ∷ ts) =
      digest_or-cons d u ts ∙ sym (digest_or-cons (computed_digest t) u ts)

  tip-tips_after :
      (subject_id : String) (tips : List (String × String)) (ts : List ReliabilityStateTransition)
      → tip (tips_after tips ts) subject_id
        ≡ digest_or (tip tips subject_id) (last (of_subject subject_id ts))
  unfolding tips_after tip
  tip-tips_after subject_id tips [] = refl
  tip-tips_after subject_id tips (t ∷ ts) =
      let later = tip-tips_after subject_id ((t.subject_id, computed_digest t) ∷ tips) ts in
      elim (Bool-cases (t.subject_id =ₛ subject_id)) [
        | inl here ↦
            later
            ∙ rw here (sym (digest_or-cons (tip tips subject_id) t (of_subject subject_id ts)))
        | inr other ↦ later ∙ rw other refl
      ]

  -- A line that passes at the tips of a history that reads is read after it.
  parse_from-append :
      (tips : List (String × String)) (file : List Line) (line : Line)
      (ts : List ReliabilityStateTransition)
      → parse_from computed_digest tips file ≡ ok ts
      → check_line computed_digest (tips_after tips ts) line ≡ ok tt
      → parse_from computed_digest tips (file ++ line ∷ []) ≡ ok (ts ++ line.transition ∷ [])
  unfolding parse_from tips_after
  parse_from-append tips [] line ts h c =
      let same : ts ≡ [] = cc in
      subst (λ x. parse_from computed_digest tips (line ∷ []) ≡ ok (x ++ line.transition ∷ []))
        (sym same)
        (>>=-ok (check_line computed_digest tips line) _ tt
          (subst (λ x. check_line computed_digest (tips_after tips x) line ≡ ok tt) same c))
  parse_from-append tips (l ∷ file) line ts h c =
      let (first, h1) = >>-eq-ok (check_line computed_digest tips l) _ h in
      let (rest, e, h2) =
        >>=-eq-ok
          (parse_from computed_digest
            ((l.transition.subject_id, computed_digest l.transition) ∷ tips) file)
          _ h1 in
      let same : ts ≡ l.transition ∷ rest = cc in
      let later =
        parse_from-append ((l.transition.subject_id, computed_digest l.transition) ∷ tips) file line
          rest e
          (subst (λ x. check_line computed_digest (tips_after tips x) line ≡ ok tt) same c) in
      subst
        (λ x.
          parse_from computed_digest tips (l ∷ (file ++ line ∷ []))
          ≡ ok (x ++ line.transition ∷ []))
        (sym same)
        (>>=-ok (check_line computed_digest tips l) _ tt first
          ∙ >>=-ok
              (parse_from computed_digest
                ((l.transition.subject_id, computed_digest l.transition) ∷ tips)
                (file ++ line ∷ []))
              _ (rest ++ line.transition ∷ []) later)

  -- such a transition's line passes at the tips of the history
  line_passes :
      (ts : List ReliabilityStateTransition) (t : ReliabilityStateTransition)
      → check_transition t ≡ ok tt
      → t.previous_transition_digest ≡ digest_or "" (last (of_subject t.subject_id ts))
      → check_line computed_digest
          (tips_after [] ts)
          (record { transition = t; digest = computed_digest t })
        ≡ ok tt
  unfolding check_line tip
  line_passes ts t v p =
      let link : t.previous_transition_digest ≡ tip (tips_after [] ts) t.subject_id =
        p ∙ sym (tip-tips_after t.subject_id [] ts) in
      ground (
        arith,
        eq_iff (computed_digest t) (computed_digest t),
        eq_iff t.previous_transition_digest (tip (tips_after [] ts) t.subject_id),
      )

  -- A validated transition linked to the last one of its subject gives a line that reads.
  pub read_all-append :
      (file : List Line) (ts : List ReliabilityStateTransition) (t : ReliabilityStateTransition)
      → read_all computed_digest file ≡ ok ts
      → check_transition t ≡ ok tt
      → t.previous_transition_digest ≡ digest_or "" (last (of_subject t.subject_id ts))
      → read_all computed_digest
          (file ++ (record { transition = t; digest = computed_digest t }) ∷ [])
        ≡ ok (ts ++ t ∷ [])
  unfolding read_all
  read_all-append file ts t h v p =
      parse_from-append [] file (record { transition = t; digest = computed_digest t }) ts h
        (line_passes ts t v p)
