-- ===== src/Attestation/History/Keeps.antt =====
-- In a history that is read without an error no key comes back to life.
use state_wake.Base.{
  subst, ◌∙◌, ap, ℕ, suc, String, ◌≡◌, inl, inr, refl, true, false, Option, none, some, List, [],
  ◌∷◌, ◌++◌, ◌=ₛ◌, eq_iff, elem, elem-append, Result, ok, err, >>=-eq-ok, >>-eq-ok, raise_if-eq-ok,
  arith, Bool-cases,
}
use state_wake.Attestation.{
  value_error, raise_if, revoked, superseded, AttestationTrustAnchor, SignedAttestationTrustState,
  Externals, by_id, anchor_ids, bytes_eq, option_eq, check_kept, check_all_kept,
  validate_attestation_trust_transition,
}
use state_wake.Attestation.History.{
  overflow_error, is_zero, over_limit, Line, blank, decoded, check_record, parse_from,
  parse_history_records, reappears, wrap,
}

-- what must stay of an anchor when its key is listed again
pub record Keeps (old new : AttestationTrustAnchor) : Type 0 where
  pub material : new.public_key ≡ old.public_key
  pub revoked_stays : old.status ≡ revoked → new.status ≡ revoked
  pub superseded_stays :
      old.status ≡ superseded → (new.status ≡ superseded) × (new.superseded_by ≡ old.superseded_by)

bytes_eq_iff : (a b : List ℕ) → bytes_eq a b ≡ true → a ≡ b
bytes_eq_iff [] [] h = refl
bytes_eq_iff (a ∷ xs) (b ∷ ys) h = ground (arith, bytes_eq_iff xs ys)
bytes_eq_iff [] (b ∷ ys) h = cc
bytes_eq_iff (a ∷ xs) [] h = cc

option_eq_iff : (a b : Option String) → option_eq a b ≡ true → a ≡ b
option_eq_iff none none h = refl
option_eq_iff (some a) (some b) h = ground (arith, eq_iff a b)
option_eq_iff none (some b) h = cc
option_eq_iff (some a) none h = cc

Keeps-refl : (a : AttestationTrustAnchor) → Keeps a a
Keeps-refl a = record { material = refl; revoked_stays = λ h. h; superseded_stays = λ h. (h, refl) }

Keeps-trans : {a b c : AttestationTrustAnchor} → Keeps a b → Keeps b c → Keeps a c
Keeps-trans p q = record {
  material = cc (p.material, q.material);
  revoked_stays = λ h. q.revoked_stays (p.revoked_stays h);
  superseded_stays = λ h.
      let (s, t) = p.superseded_stays h in let (s', t') = q.superseded_stays s in (s', cc (t, t'));
}

-- A round of the loop over the previous anchors that does not raise.
check_kept-Keeps :
    (old new : AttestationTrustAnchor) → check_kept old (some new) ≡ ok tt → Keeps old new
unfolding check_kept
check_kept-Keeps old new h = record {
  material = bytes_eq_iff new.public_key old.public_key (ground arith);
  revoked_stays = λ e. ground arith;
  superseded_stays =
      λ e. (ground arith, option_eq_iff new.superseded_by old.superseded_by (ground arith));
}

check_all_kept-Keeps :
    (current previous : List AttestationTrustAnchor) (id : String)
    (old new : AttestationTrustAnchor)
    → check_all_kept current previous ≡ ok tt
    → by_id previous id ≡ some old
    → by_id current id ≡ some new
    → Keeps old new
unfolding check_all_kept by_id
check_all_kept-Keeps current [] id old new h p q = cc
check_all_kept-Keeps current (a ∷ rest) id old new h p q =
    let (this, others) =
      >>-eq-ok (check_kept a (by_id current a.key_id)) (check_all_kept current rest) h in
    elim (Bool-cases (a.key_id =ₛ id)) [
      | inl found ↦
          let same : a ≡ old = ground arith in
          let name : a.key_id ≡ id = (eq_iff a.key_id id).0 found in
          let listed = ap (by_id current) name ∙ q in
          subst (λ z. Keeps z new) same
            (check_kept-Keeps a new (subst (λ o. check_kept a o ≡ ok tt) listed this))
      | inr other ↦ check_all_kept-Keeps current rest id old new others (ground arith) q
    ]

module _ (x : Externals) where
  -- Between two states in a row.
  transition-Keeps :
      (s t : SignedAttestationTrustState) (id : String) (old new : AttestationTrustAnchor)
      → validate_attestation_trust_transition x (some s) t ≡ ok tt
      → by_id s.anchors id ≡ some old
      → by_id t.anchors id ≡ some new
      → Keeps old new
  unfolding validate_attestation_trust_transition
  transition-Keeps s t id old new h p q =
      check_all_kept-Keeps t.anchors s.anchors id old new (ground arith) p q

by_id-elem :
    (list : List AttestationTrustAnchor) (id : String) (a : AttestationTrustAnchor)
    → by_id list id ≡ some a
    → elem id (anchor_ids list) ≡ true
unfolding by_id
by_id-elem [] id a h = cc
by_id-elem (b ∷ rest) id a h = ground (arith, by_id-elem rest id a)

elem-by_id :
    (list : List AttestationTrustAnchor) (id : String)
    → elem id (anchor_ids list) ≡ true
    → (a : AttestationTrustAnchor) × (by_id list id ≡ some a)
unfolding by_id
elem-by_id [] id h = cc
elem-by_id (b ∷ rest) id h = elim (Bool-cases (b.key_id =ₛ id)) [
  | inl this ↦ (b, rw this)
  | inr other ↦ let (a, e) = elem-by_id rest id (ground arith) in (a, rw other e)
]

-- A key that is listed again was listed by the state before.
reappears-elem :
    (seen previous current : List String) (id : String)
    → reappears seen previous current ≡ false
    → elem id current ≡ true
    → elem id seen ≡ true
    → elem id previous ≡ true
unfolding reappears
reappears-elem seen previous [] id h m s = cc
reappears-elem seen previous (c ∷ rest) id h m s =
    ground (arith, eq_iff c id, reappears-elem seen previous rest id)

-- Every state of the list keeps the anchor `old`, where it lists its key.
abbrev pub AllKeep : String → AttestationTrustAnchor → List SignedAttestationTrustState → Type 0
AllKeep id old [] = Unit
AllKeep id old (t ∷ rest) =
    ((new : AttestationTrustAnchor) → by_id t.anchors id ≡ some new → Keeps old new)
    × AllKeep id old rest

-- Every state is kept by all that come after it.
abbrev pub NeverBack : List SignedAttestationTrustState → Type 0
NeverBack [] = Unit
NeverBack (s ∷ rest) =
    ((id : String) (old : AttestationTrustAnchor)
      → by_id s.anchors id ≡ some old
      → AllKeep id old rest)
    × NeverBack rest

module _ (x : Externals) (max_records : Option ℕ) where
  -- one record that is read
  record Read (count : ℕ) (previous : Option SignedAttestationTrustState) (seen : List String)
      (r : Result SignedAttestationTrustState) (lines : List Line)
      (all : List SignedAttestationTrustState) : Type 0 where
    state : SignedAttestationTrustState
    others : List SignedAttestationTrustState
    accepted : check_record x previous seen state ≡ ok tt
    rest :
        parse_from x max_records (suc count) (some state) (anchor_ids state.anchors ++ seen) lines
        ≡ ok others
    shape : all ≡ state ∷ others

  wrap-ok {ℓ} : {A : Type ℓ} (r : Result A) (a : A) → wrap r ≡ ok a → r ≡ ok a
  wrap-ok (ok b) a h = h
  wrap-ok (err e) a h = cc

  parse_from-Read :
      (count : ℕ) (previous : Option SignedAttestationTrustState) (seen : List String)
      (r : Result SignedAttestationTrustState) (lines : List Line)
      (all : List SignedAttestationTrustState)
      → parse_from x max_records count previous seen (decoded r ∷ lines) ≡ ok all
      → Read count previous seen r lines all
  unfolding parse_from
  parse_from-Read count previous seen r lines all h =
      let (_, h₁) =
        >>-eq-ok
          (raise_if (over_limit max_records count)
            (overflow_error "attestation trust history record count exceeds read limit"))
          _ h in
      let (s, _, h₂) = >>=-eq-ok (wrap r) _ h₁ in
      let (checked, h₃) = >>-eq-ok (wrap (check_record x previous seen s)) _ h₂ in
      let (others, tail, last) =
        >>=-eq-ok
          (parse_from x max_records (suc count) (some s) (anchor_ids s.anchors ++ seen) lines) _
          h₃ in
      record {
        state = s;
        others = others;
        accepted = wrap-ok (check_record x previous seen s) tt checked;
        rest = tail;
        shape = cc;
      }

  check_record-transition :
      (previous : Option SignedAttestationTrustState) (seen : List String)
      (t : SignedAttestationTrustState)
      → check_record x previous seen t ≡ ok tt
      → validate_attestation_trust_transition x previous t ≡ ok tt
  unfolding check_record
  check_record-transition previous seen t h =
      (>>-eq-ok (validate_attestation_trust_transition x previous t) _ h).0

  check_record-reappears :
      (s : SignedAttestationTrustState) (seen : List String) (t : SignedAttestationTrustState)
      → check_record x (some s) seen t ≡ ok tt
      → reappears seen (anchor_ids s.anchors) (anchor_ids t.anchors) ≡ false
  unfolding check_record
  check_record-reappears s seen t h =
      raise_if-eq-ok _ _ (>>-eq-ok (validate_attestation_trust_transition x (some s) t) _ h).1

  parse_from-AllKeep :
      (id : String) (old : AttestationTrustAnchor) (count : ℕ) (s : SignedAttestationTrustState)
      (seen : List String) (lines : List Line) (all : List SignedAttestationTrustState)
      → elem id seen ≡ true
      → ((b : AttestationTrustAnchor) → by_id s.anchors id ≡ some b → Keeps old b)
      → parse_from x max_records count (some s) seen lines ≡ ok all
      → AllKeep id old all
  unfolding parse_from
  parse_from-AllKeep id old count s seen [] all known kept h =
      let empty : all ≡ [] = cc in rw empty tt
  parse_from-AllKeep id old count s seen (blank ∷ lines) all known kept h =
      parse_from-AllKeep id old count s seen lines all known kept h
  parse_from-AllKeep id old count s seen (decoded r ∷ lines) all known kept h =
      let e = parse_from-Read count (some s) seen r lines all h in
      let t = e.state in
      let keeps : (new : AttestationTrustAnchor) → by_id t.anchors id ≡ some new → Keeps old new =
        λ new listed.
          let was =
            reappears-elem seen (anchor_ids s.anchors) (anchor_ids t.anchors) id
              (check_record-reappears s seen t e.accepted) (by_id-elem t.anchors id new listed)
              known in
          let (b, found) = elem-by_id s.anchors id was in
          Keeps-trans (kept b found) (
            transition-Keeps x s t id b new (check_record-transition (some s) seen t e.accepted)
              found listed) in
      rw e.shape (
        keeps,
        parse_from-AllKeep id old (suc count) t (anchor_ids t.anchors ++ seen) lines e.others
            (ground (arith, elem-append id (anchor_ids t.anchors) seen)) keeps e.rest,
      )

  parse_from-NeverBack :
      (count : ℕ) (previous : Option SignedAttestationTrustState) (seen : List String)
      (lines : List Line) (all : List SignedAttestationTrustState)
      → parse_from x max_records count previous seen lines ≡ ok all
      → NeverBack all
  unfolding parse_from
  parse_from-NeverBack count previous seen [] all h = let empty : all ≡ [] = cc in rw empty tt
  parse_from-NeverBack count previous seen (blank ∷ lines) all h =
      parse_from-NeverBack count previous seen lines all h
  parse_from-NeverBack count previous seen (decoded r ∷ lines) all h =
      let e = parse_from-Read count previous seen r lines all h in
      let t = e.state in
      rw e.shape (
        λ id old listed.
            parse_from-AllKeep id old (suc count) t (anchor_ids t.anchors ++ seen) lines e.others
              (ground (
                arith,
                elem-append id (anchor_ids t.anchors) seen,
                by_id-elem t.anchors id old listed,
              ))
              (λ b found.
                let same : old ≡ b = cc (listed, found) in subst (Keeps old) same (Keeps-refl old))
              e.rest,
        parse_from-NeverBack (suc count) (some t) (anchor_ids t.anchors ++ seen) lines e.others
            e.rest,
      )

  -- In a history that is read without an error a key that is listed again, at once or after any
  -- number of states, has its old key material; if it was revoked it is revoked, and if it was
  -- superseded it is superseded by the same key.
  pub parse_history-NeverBack :
      (lines : List Line) (all : List SignedAttestationTrustState)
      → parse_history_records x max_records lines ≡ ok all
      → NeverBack all
  unfolding parse_history_records
  parse_history-NeverBack lines all h =
      parse_from-NeverBack 0 none [] lines all
        (>>-eq-ok
          (raise_if (is_zero max_records)
            (value_error "max_records must be positive when provided"))
          _ h).1
