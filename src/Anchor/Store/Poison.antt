-- ===== src/Anchor/Store/Poison.antt =====
-- A checkpoint that publish accepts may leave a directory whose latest checkpoint can no longer be read.
use state_wake.Base.{
  String, ◌≡◌, ◌≢◌, refl, sym, ap, ◌∙◌, subst, inl, inr, true, false, Option, none, some, List, [],
  ◌∷◌, ◌++◌, eq_iff, Check, ok, >>=-eq-ok, >>-eq-ok, arith, Bool-cases,
}
use state_wake.Anchor.{TrustCheckpoint, check_checkpoint, ensure_checkpoint_sequence}
use state_wake.Anchor.Store.{
  Directory, check_name, find_file, key_le, same_key, insert_by_key, sort_by_key, of_subject,
  open_all, check_chain, latest_of, latest, publish,
}
use state_wake.Anchor.Store.Latest.{
  is_before, open_all-append, open_file-valid, latest-reads, of_subject-append, publish_found,
}

module _ (digest : TrustCheckpoint → String) (verify : TrustCheckpoint → Check) where
  -- the two in the order of the sort
  latest_of-pair :
      (d c : TrustCheckpoint) (p : Option TrustCheckpoint)
      → is_before d c ≡ false
      → d.previous_checkpoint_digest ≡ none
      → latest_of digest verify (sort_by_key (d ∷ c ∷ [])) ≢ ok p
  unfolding latest_of sort_by_key insert_by_key check_chain ensure_checkpoint_sequence
  latest_of-pair d c p h first = elim (Bool-cases (key_le d c)) [
    | inl le ↦
        let same : same_key d c ≡ true = ground arith in
        let own : same_key c c ≡ true = ground (arith, eq_iff c.issued_at c.issued_at) in
        rw (le, same, own) (λ e. cc)
    | inr gt ↦ elim (Bool-cases (same_key c d)) [
      | inl same ↦
          let own : same_key d d ≡ true = ground (arith, eq_iff d.issued_at d.issued_at) in
          rw (gt, same, own) (λ e. cc)
      | inr other ↦
          let own : same_key d d ≡ true = ground (arith, eq_iff d.issued_at d.issued_at) in
          rw (gt, other, own, first) (λ e. cc)
    ]
  ]

  publish-accepted :
      (dir dir' : Directory) (c : TrustCheckpoint)
      → find_file dir c.checkpoint_id ≡ none
      → publish digest verify dir c ≡ ok dir'
      → (verify c ≡ ok tt)
        × (check_name c.checkpoint_id ≡ ok tt)
        × ((previous : Option TrustCheckpoint) × (latest digest verify dir (some c.subject_id)
              ≡ ok previous))
        × (dir ++ (c.checkpoint_id, c) ∷ [] ≡ dir')
  unfolding publish
  publish-accepted dir dir' c new h =
      let (w, h1) = >>-eq-ok (verify c) _ h in
      let (n, h2) = >>-eq-ok (check_name c.checkpoint_id) _ h1 in
      let h3 = subst (λ o. publish_found digest verify dir c o ≡ ok dir') new h2 in
      let (previous, l, h4) = >>=-eq-ok (latest digest verify dir (some c.subject_id)) _ h3 in
      let (e, same) =
        >>-eq-ok (ensure_checkpoint_sequence digest previous c)
          (ok (dir ++ (c.checkpoint_id, c) ∷ [])) h4 in
      (w, n, (previous, l), cc)

  -- A valid checkpoint of a new identity that publish accepts after the first and only one of its
  -- subject, but that does not stand after it in the order of record count and time, leaves a
  -- directory from which the latest checkpoint of that subject is never read, and to which no new
  -- checkpoint of that subject is ever published.
  pub publish_poisons :
      (dir dir' : Directory) (cs : List TrustCheckpoint) (d c : TrustCheckpoint)
      → open_all digest verify dir ≡ ok cs
      → of_subject (some c.subject_id) cs ≡ d ∷ []
      → d.previous_checkpoint_digest ≡ none
      → check_checkpoint c ≡ ok tt
      → find_file dir c.checkpoint_id ≡ none
      → is_before d c ≡ false
      → publish digest verify dir c ≡ ok dir'
      → ((p : Option TrustCheckpoint) → latest digest verify dir' (some c.subject_id) ≢ ok p)
        × ((x : TrustCheckpoint) (dir'' : Directory)
            → x.subject_id ≡ c.subject_id
            → find_file dir' x.checkpoint_id ≡ none
            → publish digest verify dir' x ≢ ok dir'')
  publish_poisons dir dir' cs d c reads only first v new after h =
      let (w, n, (previous, l), grown) = publish-accepted dir dir' c new h in
      let opened =
        open_all-append digest verify dir cs c reads n (open_file-valid digest verify c v w) in
      let mine = (eq_iff c.subject_id c.subject_id).1 refl in
      let both : of_subject (some c.subject_id) (cs ++ c ∷ []) ≡ d ∷ c ∷ [] =
        of_subject-append digest verify c.subject_id cs c ∙ rw (only, mine) refl in
      let run =
        latest-reads digest verify (dir ++ (c.checkpoint_id, c) ∷ []) (cs ++ c ∷ []) c.subject_id
          opened
        ∙ ap (λ l. latest_of digest verify (sort_by_key l)) both in
      let never : (p : Option TrustCheckpoint)
          → latest digest verify dir' (some c.subject_id) ≢ ok p =
        λ p e. latest_of-pair d c p after first (
          sym (
            subst
              (λ z.
                latest digest verify z (some c.subject_id)
                ≡ latest_of digest verify (sort_by_key (d ∷ c ∷ [])))
              grown run)
          ∙ e) in
      (
        never,
        λ x dir'' subject unused e.
            let (w', n', (previous', l'), grown') = publish-accepted dir' dir'' x unused e in
            never previous'
              (subst (λ s. latest digest verify dir' (some s) ≡ ok previous') subject l'),
      )
