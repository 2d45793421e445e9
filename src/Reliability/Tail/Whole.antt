-- ===== src/Reliability/Tail/Whole.antt =====
-- Calls on a file whose last line ends with its newline are the calls on its lines.
use state_wake.Base.{
  subst, sym, String, ◌≡◌, refl, ap, ◌∙◌, inl, inr, none, List, [], ◌∷◌, map, Result, ok, err,
  ◌>>=◌, >>=-eq-ok, >>-eq-ok,
}
use state_wake.Reliability.Retry.{append_again}
use state_wake.Reliability.{
  check_transition, ReliabilityStateTransition, Line, check_line, find_existing, read_all, append,
}
use state_wake.Reliability.Tail.{
  all_lines, Content, record_of, undecodable, File, parse_contents, recover_partial_tail, read_file,
  settle, append_file,
}
use state_wake.Reliability.Tail.Crash.{
  whole, on_whole, Result-cases, parse_contents-whole, read_from, settle-whole,
}

module _ (computed_digest : ReliabilityStateTransition → String) where
  -- lines that are parsed are records
  parse_contents-inv :
      (tips : List (String × String)) (cs : List Content) (ts : List ReliabilityStateTransition)
      → parse_contents computed_digest tips cs ≡ ok ts
      → (lines : List Line) × (cs ≡ map record_of lines)
  unfolding parse_contents
  parse_contents-inv tips [] ts h = ([], refl)
  parse_contents-inv tips (undecodable ∷ cs) ts h = cc
  parse_contents-inv tips (record_of line ∷ cs) ts h =
      let (own, h1) = >>-eq-ok (check_line computed_digest tips line) _ h in
      let (rest, e, h2) =
        >>=-eq-ok
          (parse_contents computed_digest
            ((line.transition.subject_id, computed_digest line.transition) ∷ tips) cs)
          _ h1 in
      let (lines, same) =
        parse_contents-inv ((line.transition.subject_id, computed_digest line.transition) ∷ tips) cs
          rest e in
      (line ∷ lines, ap (λ l. record_of line ∷ l) same)

  pub read_file-whole :
      (lines : List Line)
      → read_file computed_digest (whole lines) ≡ (whole lines, read_all computed_digest lines)
  unfolding read_file recover_partial_tail
  read_file-whole lines =
      ap (λ r. (whole lines, r))
        (parse_contents-whole computed_digest [] lines ∙ read_from computed_digest lines)

  pub append_file-whole :
      (lines : List Line) (t : ReliabilityStateTransition)
      → append_file computed_digest (whole lines) t
        ≡ on_whole computed_digest lines (append computed_digest lines t)
  unfolding append_file append recover_partial_tail
  append_file-whole lines t = elim (Result-cases (read_all computed_digest lines)) [
    | inl (ts, h) ↦
        let parsed =
          parse_contents-whole computed_digest [] lines ∙ read_from computed_digest lines ∙ h in
        rw (parsed, h) (settle-whole computed_digest lines ts t (find_existing ts t.transition_id))
    | inr (e, h) ↦
        let parsed =
          parse_contents-whole computed_digest [] lines ∙ read_from computed_digest lines ∙ h in
        rw (parsed, h) refl
  ]

  -- a file without a tail that reads is whole
  without_tail :
      (g : File) (ts : List ReliabilityStateTransition)
      → g.tail ≡ none
      → parse_contents computed_digest [] (g.lines) ≡ ok ts
      → (lines : List Line) × (g ≡ whole lines)
  without_tail g ts e h =
      let (lines, same) = parse_contents-inv [] (g.lines) ts h in
      (lines, λ i. record { lines = same i; tail = e i })

  all_lines-none : (g : File) → g.tail ≡ none → all_lines g ≡ g.lines
  all_lines-none g e = rw e refl

  -- A file that is left without a tail and reads is repaired to whole lines.
  pub recovered-whole :
      (f : File) (ts : List ReliabilityStateTransition)
      → (recover_partial_tail computed_digest f).tail ≡ none
      → (read_file computed_digest f).1 ≡ ok ts
      → (lines : List Line) × (recover_partial_tail computed_digest f ≡ whole lines)
  unfolding read_file
  recovered-whole f ts e h =
      let g = recover_partial_tail computed_digest f in
      without_tail g ts e (ap (parse_contents computed_digest []) (sym (all_lines-none g e)) ∙ h)

  recover-whole :
      (lines : List Line) → recover_partial_tail computed_digest (whole lines) ≡ whole lines
  unfolding recover_partial_tail
  recover-whole lines = refl

  -- reads and appends look at the repaired file only
  pub read_file-recovered :
      (f : File) (lines : List Line)
      → recover_partial_tail computed_digest f ≡ whole lines
      → read_file computed_digest f ≡ read_file computed_digest (whole lines)
  unfolding read_file
  read_file-recovered f lines e = rw (e, recover-whole lines) refl

  pub append_file-recovered :
      (f : File) (lines : List Line) (t : ReliabilityStateTransition)
      → recover_partial_tail computed_digest f ≡ whole lines
      → append_file computed_digest f t ≡ append_file computed_digest (whole lines) t
  unfolding append_file
  append_file-recovered f lines t e = rw (e, recover-whole lines) refl

  settle-read :
      (g f' : File) (r : ReliabilityStateTransition)
      (first : Result (List ReliabilityStateTransition))
      (next : List ReliabilityStateTransition → Result (File × ReliabilityStateTransition))
      → settle g (first >>= next) ≡ (f', ok r)
      → (ts : List ReliabilityStateTransition) × (first ≡ ok ts)
  settle-read g f' r (ok ts) next h = (ts, refl)
  settle-read g f' r (err e) next h = let z : err e ≡ ok r = ap (λ q. q.1) h in cc

  -- an append that returns has read the file
  append_file-read :
      (f f' : File) (t r : ReliabilityStateTransition)
      → append_file computed_digest f t ≡ (f', ok r)
      → (ts : List ReliabilityStateTransition) × ((read_file computed_digest f).1 ≡ ok ts)
  unfolding append_file read_file
  append_file-read f f' t r h =
      settle-read (recover_partial_tail computed_digest f) f' r
        (parse_contents computed_digest [] (all_lines (recover_partial_tail computed_digest f))) _ h

  on_whole-inv :
      (lines : List Line) (o : Result (List Line × ReliabilityStateTransition)) (f' : File)
      (r : ReliabilityStateTransition)
      → on_whole computed_digest lines o ≡ (f', ok r)
      → (lines' : List Line) × (o ≡ ok (lines', r)) × (whole lines' ≡ f')
  on_whole-inv lines (ok (lines', q)) f' r h =
      let z : ok q ≡ ok r = ap (λ p. p.1) h in
      let same : q ≡ r = cc in (lines', ap (λ p. ok (lines', p)) same, ap (λ p. p.0) h)
  on_whole-inv lines (err e) f' r h = let z : err e ≡ ok r = ap (λ p. p.1) h in cc

  -- An append of a validated transition may be tried again: to a file whose last record, once a
  -- tail that does not decode is cut, ends with its newline, an append that returned leaves a file
  -- to which the same append returns the same transition and which it leaves as it is.
  pub append_file_again :
      (f f' : File) (t r : ReliabilityStateTransition)
      → check_transition t ≡ ok tt
      → (recover_partial_tail computed_digest f).tail ≡ none
      → append_file computed_digest f t ≡ (f', ok r)
      → append_file computed_digest f' t ≡ (f', ok r)
  append_file_again f f' t r v e h =
      let (ts, read_ts) = append_file-read f f' t r h in
      let (lines, same) = recovered-whole f ts e read_ts in
      let run : on_whole computed_digest lines (append computed_digest lines t) ≡ (f', ok r) =
        sym (append_file-whole lines t) ∙ sym (append_file-recovered f lines t same) ∙ h in
      let (lines', first, now) = on_whole-inv lines (append computed_digest lines t) f' r run in
      let again = append_again computed_digest lines lines' t r v first in
      subst (λ g. append_file computed_digest g t ≡ (g, ok r)) now
        (append_file-whole lines' t ∙ ap (on_whole computed_digest lines') again)
