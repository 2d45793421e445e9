-- ===== src/Anchor/Store/Latest.antt =====
-- A published checkpoint is the latest one.
use state_wake.Base.{
  ◌≢◌, value_error, String, ◌≡◌, refl, sym, ap, ◌∙◌, subst, inl, inr, Bool, true, false, not, ◌&&◌,
  Option, none, some, List, [], ◌∷◌, ◌++◌, length, filter, last, all, ltb, ◌=ₛ◌, eq_iff, Result,
  Check, ok, ◌>>=◌, ◌>>◌, >>=-eq-ok, >>-eq-ok, raise_if, arith, Bool-cases, Option-cases,
}
use state_wake.Anchor.{TrustCheckpoint, check_checkpoint, ensure_checkpoint_sequence}
use state_wake.Anchor.Store.{
  Directory, check_name, find_file, key_le, same_key, insert_by_key, sort_by_key, of_subject,
  open_file, retrieve, open_all, check_chain, latest_of, latest, publish,
}

-- the first is before the second: fewer records, or as many and issued earlier, by the texts
abbrev pub is_before : TrustCheckpoint → TrustCheckpoint → Bool
is_before a b = key_le a b && not (same_key a b)

insert-append :
    (x z : TrustCheckpoint) (l : List TrustCheckpoint)
    → key_le x z ≡ true
    → insert_by_key x (l ++ z ∷ []) ≡ insert_by_key x l ++ z ∷ []
unfolding insert_by_key
insert-append x z [] h = rw h refl
insert-append x z (y ∷ l) h =
    let later = insert-append x z l h in
    elim (Bool-cases (key_le x y)) [
      | inl here ↦ rw here refl
      | inr other ↦ rw other (ap (λ t. y ∷ t) later)
    ]

sort-append :
    (xs : List TrustCheckpoint) (z : TrustCheckpoint)
    → all (λ x. is_before x z) xs ≡ true
    → sort_by_key (xs ++ z ∷ []) ≡ sort_by_key xs ++ z ∷ []
unfolding sort_by_key insert_by_key
sort-append [] z h = refl
sort-append (x ∷ xs) z h =
    let le : key_le x z ≡ true = ground arith in
    let later = sort-append xs z (ground arith) in
    ap (insert_by_key x) later ∙ insert-append x z (sort_by_key xs) le

all-insert :
    (p : TrustCheckpoint → Bool) (x : TrustCheckpoint) (l : List TrustCheckpoint)
    → p x ≡ true
    → all p l ≡ true
    → all p (insert_by_key x l) ≡ true
unfolding insert_by_key
all-insert p x [] h k = rw h refl
all-insert p x (y ∷ l) h k =
    let later = all-insert p x l h (ground arith) in
    elim (Bool-cases (key_le x y)) [
      | inl here ↦ rw (here, h) k
      | inr other ↦ rw other (ground arith)
    ]

all-sort :
    (p : TrustCheckpoint → Bool) (xs : List TrustCheckpoint)
    → all p xs ≡ true
    → all p (sort_by_key xs) ≡ true
unfolding sort_by_key
all-sort p [] h = refl
all-sort p (x ∷ xs) h =
    all-insert p x (sort_by_key xs) (ground arith) (all-sort p xs (ground arith))

last-append : (l : List TrustCheckpoint) (z : TrustCheckpoint) → last (l ++ z ∷ []) ≡ some z
last-append [] z = refl
last-append (x ∷ []) z = refl
last-append (x ∷ y ∷ l) z = last-append (y ∷ l) z

-- nothing before it has its key
ties :
    (l : List TrustCheckpoint) (z : TrustCheckpoint)
    → all (λ x. is_before x z) l ≡ true
    → filter (λ c. same_key c z) (l ++ z ∷ []) ≡ z ∷ []
ties [] z h =
    let same : same_key z z ≡ true = ground (arith, eq_iff z.issued_at z.issued_at) in rw same refl
ties (x ∷ l) z h =
    let other : same_key x z ≡ false = ground arith in
    let later = ties l z (ground arith) in rw other later

module _ (digest : TrustCheckpoint → String) (verify : TrustCheckpoint → Check) where
  check_chain-append :
      (l : List TrustCheckpoint) (z : TrustCheckpoint)
      → check_chain digest verify l ≡ ok tt
      → ensure_checkpoint_sequence digest (last l) z ≡ ok tt
      → check_chain digest verify (l ++ z ∷ []) ≡ ok tt
  unfolding check_chain
  check_chain-append [] z h e = refl
  check_chain-append (x ∷ []) z h e = rw e refl
  check_chain-append (x ∷ y ∷ l) z h e =
      let (own, rest) = >>-eq-ok (ensure_checkpoint_sequence digest (some x) y) _ h in
      let later = check_chain-append (y ∷ l) z rest e in rw own later

  -- the tests, with the newest one
  abbrev latest_from :
      List TrustCheckpoint → Option TrustCheckpoint → Result (Option TrustCheckpoint)
  latest_from checkpoints o = elim o [
    | none ↦ ok none
    | some newest ↦ do
      raise_if (ltb 1 (length (filter (λ c. same_key c newest) checkpoints)))
          (value_error "independent trust anchor contains ambiguous latest checkpoints.")
      check_chain digest verify checkpoints
      ok (some newest)
  ]

  last_some : (x : TrustCheckpoint) (l : List TrustCheckpoint) → last (x ∷ l) ≢ none
  last_some x [] h = cc
  last_some x (y ∷ l) h = last_some y l h

  -- what the tests on the sorted checkpoints leave
  latest_of-last :
      (l : List TrustCheckpoint) (p : Option TrustCheckpoint)
      → latest_of digest verify l ≡ ok p
      → (check_chain digest verify l ≡ ok tt) × (last l ≡ p)
  unfolding latest_of check_chain
  latest_of-last [] p h = (refl, cc)
  latest_of-last (x ∷ l) p h = elim (Option-cases (last (x ∷ l))) [
    | inl missing ↦ absurd (last_some x l missing)
    | inr (newest, e) ↦
        let h1 = subst (λ o. latest_from (x ∷ l) o ≡ ok p) e h in
        let (t, h2) =
          >>-eq-ok (raise_if (ltb 1 (length (filter (λ c. same_key c newest) (x ∷ l)))) _) _ h1 in
        let (chain, same) = >>-eq-ok (check_chain digest verify (x ∷ l)) _ h2 in
        let found : some newest ≡ p = cc in (chain, e ∙ found)
  ]

  latest_of-append :
      (l : List TrustCheckpoint) (z : TrustCheckpoint)
      → all (λ x. is_before x z) l ≡ true
      → check_chain digest verify (l ++ z ∷ []) ≡ ok tt
      → latest_of digest verify (l ++ z ∷ []) ≡ ok (some z)
  unfolding latest_of
  latest_of-append l z h k =
      let run : latest_from (l ++ z ∷ []) (some z) ≡ ok (some z) = rw (ties l z h, k) refl in
      subst (λ o. latest_from (l ++ z ∷ []) o ≡ ok (some z)) (sym (last-append l z)) run

  pub open_all-append :
      (dir : Directory) (cs : List TrustCheckpoint) (c : TrustCheckpoint)
      → open_all digest verify dir ≡ ok cs
      → check_name c.checkpoint_id ≡ ok tt
      → open_file digest verify c.checkpoint_id c ≡ ok c
      → open_all digest verify (dir ++ (c.checkpoint_id, c) ∷ []) ≡ ok (cs ++ c ∷ [])
  unfolding open_all
  open_all-append [] cs c h n o = let none_open : cs ≡ [] = cc in rw (n, o, none_open) refl
  open_all-append ((name, d) ∷ dir) cs c h n o =
      let (own, h1) = >>-eq-ok (check_name name) _ h in
      let (first, f, h2) = >>=-eq-ok (open_file digest verify name d) _ h1 in
      let (others, g, h3) = >>=-eq-ok (open_all digest verify dir) _ h2 in
      let later = open_all-append dir others c g n o in
      let same : cs ≡ first ∷ others = cc in rw (own, f, later, same) refl

  pub of_subject-append :
      (s : String) (cs : List TrustCheckpoint) (c : TrustCheckpoint)
      → of_subject (some s) (cs ++ c ∷ []) ≡ of_subject (some s) cs ++ of_subject (some s) (c ∷ [])
  of_subject-append s [] c = refl
  of_subject-append s (d ∷ cs) c =
      let later = of_subject-append s cs c in
      elim (Bool-cases (d.subject_id =ₛ s)) [
        | inl here ↦ rw here (ap (λ l. d ∷ l) later)
        | inr other ↦ rw other later
      ]

  append-nil : (cs : List TrustCheckpoint) → cs ++ [] ≡ cs
  append-nil [] = refl
  append-nil (d ∷ cs) = ap (λ l. d ∷ l) (append-nil cs)

  find_file-append :
      (dir : Directory) (name : String) (c : TrustCheckpoint)
      → find_file dir name ≡ none
      → find_file (dir ++ (name, c) ∷ []) name ≡ some c
  unfolding find_file
  find_file-append [] name c h = ground (arith, eq_iff name name)
  find_file-append ((n, d) ∷ dir) name c h = elim (Bool-cases (n =ₛ name)) [
    | inl here ↦ absurd (ground arith)
    | inr other ↦ let later = find_file-append dir name c (ground arith) in rw other later
  ]

  pub open_file-valid :
      (c : TrustCheckpoint)
      → check_checkpoint c ≡ ok tt
      → verify c ≡ ok tt
      → open_file digest verify c.checkpoint_id c ≡ ok c
  unfolding open_file
  open_file-valid c v w = rw (v, (eq_iff c.checkpoint_id c.checkpoint_id).1 refl, w) refl

  -- the rest of `publish`, with the file of the identity
  abbrev pub publish_found : Directory → TrustCheckpoint → Option TrustCheckpoint → Result Directory
  publish_found dir c o = elim o [
    | some stored ↦ do
      existing ← retrieve digest verify dir c.checkpoint_id
      raise_if (not (digest existing =ₛ digest c && existing.signature =ₛ c.signature))
          (value_error "checkpoint ID already exists with different content.")
      ok dir
    | none ↦ do
      previous ← latest digest verify dir (some c.subject_id)
      ensure_checkpoint_sequence digest previous c
      ok (dir ++ (c.checkpoint_id, c) ∷ [])
  ]

  pub latest-reads :
      (dir : Directory) (cs : List TrustCheckpoint) (s : String)
      → open_all digest verify dir ≡ ok cs
      → latest digest verify dir (some s)
        ≡ latest_of digest verify (sort_by_key (of_subject (some s) cs))
  unfolding latest
  latest-reads dir cs s h = rw h refl

  latest_of-published :
      (cs : List TrustCheckpoint) (c : TrustCheckpoint) (previous : Option TrustCheckpoint)
      → all (λ d. is_before d c) (of_subject (some c.subject_id) cs) ≡ true
      → latest_of digest verify (sort_by_key (of_subject (some c.subject_id) cs)) ≡ ok previous
      → ensure_checkpoint_sequence digest previous c ≡ ok tt
      → latest_of digest verify (sort_by_key (of_subject (some c.subject_id) (cs ++ c ∷ [])))
        ≡ ok (some c)
  latest_of-published cs c previous before l e =
      let own = of_subject (some c.subject_id) cs in
      let (chain, newest) = latest_of-last (sort_by_key own) previous l in
      let next = subst (λ o. ensure_checkpoint_sequence digest o c ≡ ok tt) (sym newest) e in
      let mine = (eq_iff c.subject_id c.subject_id).1 refl in
      let chosen : of_subject (some c.subject_id) (cs ++ c ∷ []) ≡ own ++ c ∷ [] =
        of_subject-append c.subject_id cs c ∙ rw mine refl in
      let ordered = ap sort_by_key chosen ∙ sort-append own c before in
      ap (latest_of digest verify) ordered
      ∙ latest_of-append (sort_by_key own) c (all-sort (λ d. is_before d c) own before)
          (check_chain-append (sort_by_key own) c chain next)

  of_subject-other :
      (s : String) (cs : List TrustCheckpoint) (c : TrustCheckpoint)
      → s ≢ c.subject_id
      → of_subject (some s) (cs ++ c ∷ []) ≡ of_subject (some s) cs
  of_subject-other s cs c other = elim (Bool-cases (c.subject_id =ₛ s)) [
    | inl same ↦ absurd (other (sym ((eq_iff c.subject_id s).0 same)))
    | inr differs ↦ of_subject-append s cs c ∙ rw differs (append-nil (of_subject (some s) cs))
  ]

  -- in the second directory the checkpoint is retrieved by its identity and is the latest of its
  -- subject; the other subjects have the latest that they have in the first
  abbrev pub IsLatest : Directory → TrustCheckpoint → Directory → Type 0
  IsLatest dir c dir' =
      (retrieve digest verify dir' c.checkpoint_id ≡ ok c)
      × (latest digest verify dir' (some c.subject_id) ≡ ok (some c))
      × ((s : String)
          → s ≢ c.subject_id
          → latest digest verify dir' (some s) ≡ latest digest verify dir (some s))

  -- A valid checkpoint of a new identity that publish accepts, in a directory that reads, and after
  -- which no checkpoint of its subject stands in the order of record count and time, can be retrieved
  -- by its identity, is the latest of its subject, and changes the latest of no other subject.
  pub publish-IsLatest :
      (dir dir' : Directory) (cs : List TrustCheckpoint) (c : TrustCheckpoint)
      → open_all digest verify dir ≡ ok cs
      → check_checkpoint c ≡ ok tt
      → find_file dir c.checkpoint_id ≡ none
      → all (λ d. is_before d c) (of_subject (some c.subject_id) cs) ≡ true
      → publish digest verify dir c ≡ ok dir'
      → IsLatest dir c dir'
  unfolding publish retrieve
  publish-IsLatest dir dir' cs c reads v new before h =
      let (w, h1) = >>-eq-ok (verify c) _ h in
      let (n, h2) = >>-eq-ok (check_name c.checkpoint_id) _ h1 in
      let h3 = subst (λ o. publish_found dir c o ≡ ok dir') new h2 in
      let (previous, l, h4) = >>=-eq-ok (latest digest verify dir (some c.subject_id)) _ h3 in
      let (e, same) =
        >>-eq-ok (ensure_checkpoint_sequence digest previous c)
          (ok (dir ++ (c.checkpoint_id, c) ∷ [])) h4 in
      let grown : dir ++ (c.checkpoint_id, c) ∷ [] ≡ dir' = cc in
      let opened = open_all-append dir cs c reads n (open_file-valid c v w) in
      let l' = sym (latest-reads dir cs c.subject_id reads) ∙ l in
      subst (IsLatest dir c) grown (
        rw (n, find_file-append dir c.checkpoint_id c new) (open_file-valid c v w),
        latest-reads (dir ++ (c.checkpoint_id, c) ∷ []) (cs ++ c ∷ []) c.subject_id opened
            ∙ latest_of-published cs c previous before l' e,
        λ s other.
            latest-reads (dir ++ (c.checkpoint_id, c) ∷ []) (cs ++ c ∷ []) s opened
            ∙ ap (λ x. latest_of digest verify (sort_by_key x)) (of_subject-other s cs c other)
            ∙ sym (latest-reads dir cs s reads),
      )
