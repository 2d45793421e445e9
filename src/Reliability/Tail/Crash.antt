-- ===== src/Reliability/Tail/Crash.antt =====
-- What an append finds after a crash: a tail that is cut is repaired, a tail that lacks only its newline
-- is not.
use state_wake.Base.{
  ◌⊎◌, String, ◌≡◌, ◌≢◌, refl, sym, ap, ◌∙◌, subst, inl, inr, Option, none, some, List, [], ◌∷◌,
  ◌++◌, map, last, Error, Result, ok, err, >>=-eq-ok, >>-eq-ok, Bool-cases,
}
use state_wake.Reliability.{
  ReliabilityStateTransition, Line, check_line, check_predecessor, of_subject, same_payload,
  find_existing, parse_from, read_all, append_to, append,
}
use state_wake.Reliability.Sqlite.{decode}
use state_wake.Reliability.Tail.{
  Content, record_of, undecodable, File, kept_tail, parse_contents, recover_partial_tail, read_file,
  settle, append_found, append_checked, append_file,
}

-- the file whose lines are whole
abbrev pub whole : List Line → File
whole lines = record { lines = map record_of lines; tail = none }

-- the file with a tail
abbrev pub with_tail : List Line → Content → File
with_tail lines c = record { lines = map record_of lines; tail = some c }

pub Result-cases {ℓ} :
    {A : Type ℓ} (r : Result A) → ((a : A) × (r ≡ ok a)) ⊎ ((e : Error) × (r ≡ err e))
Result-cases (ok a) = inl (a, refl)
Result-cases (err e) = inr (e, refl)

map-append :
    (xs : List Line) (x : Line)
    → map record_of xs ++ record_of x ∷ [] ≡ map record_of (xs ++ x ∷ [])
map-append [] x = refl
map-append (y ∷ xs) x = ap (λ l. record_of y ∷ l) (map-append xs x)

module _ (computed_digest : ReliabilityStateTransition → String) where
  -- whole lines are parsed as before
  pub parse_contents-whole :
      (tips : List (String × String)) (lines : List Line)
      → parse_contents computed_digest tips (map record_of lines)
        ≡ parse_from computed_digest tips lines
  unfolding parse_contents parse_from
  parse_contents-whole tips [] = refl
  parse_contents-whole tips (line ∷ lines) =
      let rest =
        parse_contents-whole ((line.transition.subject_id, computed_digest line.transition) ∷ tips)
          lines in
      rw rest refl

  -- a file with a line that does not decode never reads
  parse_contents-undecodable :
      (tips : List (String × String)) (cs : List Content) (ts : List ReliabilityStateTransition)
      → parse_contents computed_digest tips (cs ++ undecodable ∷ []) ≢ ok ts
  unfolding parse_contents
  parse_contents-undecodable tips [] ts h = cc
  parse_contents-undecodable tips (undecodable ∷ cs) ts h = cc
  parse_contents-undecodable tips (record_of line ∷ cs) ts h =
      let (own, h1) = >>-eq-ok (check_line computed_digest tips line) _ h in
      let (rest, e, h2) =
        >>=-eq-ok
          (parse_contents computed_digest
            ((line.transition.subject_id, computed_digest line.transition) ∷ tips)
            (cs ++ undecodable ∷ []))
          _ h1 in
      parse_contents-undecodable
        ((line.transition.subject_id, computed_digest line.transition) ∷ tips) cs rest e

  -- the outcome of an append to whole lines
  abbrev pub on_whole :
      List Line
      → Result (List Line × ReliabilityStateTransition)
      → File × Result ReliabilityStateTransition
  on_whole lines (ok (lines', r)) = (whole lines', ok r)
  on_whole lines (err e) = (whole lines, err e)

  pub read_from :
      (lines : List Line) → parse_from computed_digest [] lines ≡ read_all computed_digest lines
  unfolding read_all
  read_from lines = refl

  pub settle-whole :
      (lines : List Line) (ts : List ReliabilityStateTransition) (t : ReliabilityStateTransition)
      (found : Option ReliabilityStateTransition)
      → settle (whole lines) (append_found computed_digest (whole lines) ts t found)
        ≡ on_whole lines (append_to computed_digest lines ts t found)
  unfolding append_found append_to
  settle-whole lines ts t (some existing) = elim (Bool-cases (same_payload existing t)) [
    | inl same ↦ rw same refl
    | inr other ↦ rw other refl
  ]
  settle-whole lines ts t none =
      elim (Result-cases
        (check_predecessor computed_digest (last (of_subject t.subject_id ts)) t)) [
          | inl (tt, c) ↦ rw c (
              ap (λ l. (record { lines = l; tail = none }, ok t))
                (map-append lines (record { transition = t; digest = computed_digest t })))
          | inr (raised, c) ↦ rw c refl
        ]

  -- An append to a file whose tail was cut leaves and answers what the same append leaves and answers
  -- on the whole lines before the tail.
  append_file-undecodable :
      (lines : List Line) (t : ReliabilityStateTransition)
      → append_file computed_digest (with_tail lines undecodable) t
        ≡ on_whole lines (append computed_digest lines t)
  unfolding append_file append recover_partial_tail
  append_file-undecodable lines t = elim (Result-cases (read_all computed_digest lines)) [
    | inl (ts, h) ↦
        let parsed = parse_contents-whole [] lines ∙ read_from lines ∙ h in
        rw (parsed, h) (settle-whole lines ts t (find_existing ts t.transition_id))
    | inr (e, h) ↦
        let parsed = parse_contents-whole [] lines ∙ read_from lines ∙ h in rw (parsed, h) refl
  ]

  recover-kept :
      (lines : List Line) (line : Line)
      → decode computed_digest line ≡ ok line.transition
      → recover_partial_tail computed_digest (with_tail lines (record_of line))
        ≡ with_tail lines (record_of line)
  unfolding recover_partial_tail
  recover-kept lines line d = ap (kept_tail (with_tail lines (record_of line))) d

  append_file-kept :
      (lines : List Line) (line : Line) (ts : List ReliabilityStateTransition)
      (t : ReliabilityStateTransition)
      → parse_contents computed_digest [] (map record_of lines ++ record_of line ∷ []) ≡ ok ts
      → decode computed_digest line ≡ ok line.transition
      → append_file computed_digest (with_tail lines (record_of line)) t
        ≡ settle
            (with_tail lines (record_of line))
            (append_checked computed_digest (with_tail lines (record_of line)) ts t)
  unfolding append_file
  append_file-kept lines line ts t parsed d =
      let kept = recover-kept lines line d in rw (kept, parsed) refl

  -- the record is written behind the tail
  append_checked-spoils :
      (lines : List Line) (line : Line) (ts : List ReliabilityStateTransition)
      (t : ReliabilityStateTransition) (f : File)
      → find_existing ts t.transition_id ≡ none
      → settle
          (with_tail lines (record_of line))
          (append_checked computed_digest (with_tail lines (record_of line)) ts t)
        ≡ (f, ok t)
      → record { lines = map record_of lines ++ undecodable ∷ []; tail = none } ≡ f
  unfolding append_found
  append_checked-spoils lines line ts t f new h =
      elim (Result-cases
        (check_predecessor computed_digest (last (of_subject t.subject_id ts)) t)) [
          | inl (tt, c) ↦
              let own : (
                record { lines = map record_of lines ++ undecodable ∷ []; tail = none },
                ok t,
              )
                  ≡ (f, ok t) =
                sym (rw (new, c) refl) ∙ h in
              ap (λ z. z.0) own
          | inr (raised, c) ↦
              let own : (with_tail lines (record_of line), err raised) ≡ (f, ok t) =
                sym (rw (new, c) refl) ∙ h in
              cc
        ]

  append_file-never :
      (cs : List Content) (x r : ReliabilityStateTransition)
      → (append_file computed_digest (record { lines = cs ++ undecodable ∷ []; tail = none }) x).1
        ≢ ok r
  unfolding append_file recover_partial_tail
  append_file-never cs x r =
      elim (Result-cases (parse_contents computed_digest [] (cs ++ undecodable ∷ []))) [
        | inl (us, e) ↦ absurd (parse_contents-undecodable [] cs us e)
        | inr (raised, e) ↦ rw e (λ h. cc)
      ]

  -- A file whose last record lacks only its newline, and which reads, is not repaired: an append of a
  -- transition of a new identity that returns it leaves a file that no read and no append accepts.
  pub append_file_poisons :
      (lines : List Line) (line : Line) (ts : List ReliabilityStateTransition)
      (t : ReliabilityStateTransition) (f : File)
      → read_all computed_digest (lines ++ line ∷ []) ≡ ok ts
      → decode computed_digest line ≡ ok line.transition
      → find_existing ts t.transition_id ≡ none
      → append_file computed_digest (with_tail lines (record_of line)) t ≡ (f, ok t)
      → ((us : List ReliabilityStateTransition) → (read_file computed_digest f).1 ≢ ok us)
        × ((x r : ReliabilityStateTransition) → (append_file computed_digest f x).1 ≢ ok r)
  unfolding append_file read_file recover_partial_tail
  append_file_poisons lines line ts t f reads d new h =
      let g = with_tail lines (record_of line) in
      let parsed : parse_contents computed_digest [] (map record_of lines ++ record_of line ∷ [])
          ≡ ok ts =
        ap (parse_contents computed_digest []) (map-append lines line)
        ∙ parse_contents-whole [] (lines ++ line ∷ [])
        ∙ read_from (lines ++ line ∷ [])
        ∙ reads in
      let h1 : settle g (append_checked computed_digest g ts t) ≡ (f, ok t) =
        sym (append_file-kept lines line ts t parsed d) ∙ h in
      let spoilt = append_checked-spoils lines line ts t f new h1 in
      (
        λ us e.
            parse_contents-undecodable [] (map record_of lines) us
              (subst (λ z. (read_file computed_digest z).1 ≡ ok us) (sym spoilt) e),
        λ x r e.
            append_file-never (map record_of lines) x r
              (subst (λ z. (append_file computed_digest z x).1 ≡ ok r) (sym spoilt) e),
      )
