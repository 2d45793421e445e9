-- ===== src/Attestation/History/Append.antt =====
-- What the reading of a history answers when one more record stands at its end.
use state_wake.Base.{
  sym, subst, ◌∙◌, ap, elem-append, ℕ, suc, ◌+◌, String, ◌≡◌, ◌||◌, last, refl, Bool, true, false,
  Option, none, some, List, [], ◌∷◌, ◌++◌, elem, eq_iff, length, Error, Result, ok, err, ◌>>=◌,
  >>=-eq-ok, >>-eq-ok, raise_if, arith, overflow_error, value_error,
}
use state_wake.Attestation.{
  SignedAttestationTrustState, Externals, anchor_ids, validate_attestation_trust_transition,
}
use state_wake.Attestation.History.{
  Line, blank, decoded, check_record, parse_from, parse_history_records, reappears, ids_of, wrap,
  over_limit, is_zero,
}

-- the previous state and the seen keys after a list of records
pub final :
    Option SignedAttestationTrustState
    → List String
    → List SignedAttestationTrustState
    → Option SignedAttestationTrustState × List String
final previous seen [] = (previous, seen)
final previous seen (t ∷ rest) = final (some t) (anchor_ids t.anchors ++ seen) rest

-- the keys that some state lists
abbrev pub all_ids : List SignedAttestationTrustState → List String
all_ids [] = []
all_ids (t ∷ rest) = anchor_ids t.anchors ++ all_ids rest

abbrev pub Raises {ℓ} : {A : Type ℓ} → Result A → Type 0
Raises (ok _) = ⊥
Raises (err _) = Unit

pub Raises-bind {ℓ κ} :
    {A : Type ℓ} {B : Type κ} (m : Result A) (f : A → Result B)
    → ((a : A) → m ≡ ok a → Raises (f a))
    → Raises (m >>= f)
Raises-bind (ok a) f h = h a refl
Raises-bind (err e) f h = tt

Raises-wrap {ℓ} : {A : Type ℓ} (m : Result A) → Raises m → Raises (wrap m)
Raises-wrap (ok a) h = h
Raises-wrap (err e) h = tt

pub wrap-ok {ℓ} : {A : Type ℓ} (r : Result A) (a : A) → wrap r ≡ ok a → r ≡ ok a
wrap-ok (ok b) a h = h
wrap-ok (err e) a h = cc

pub error_of {ℓ} : {A : Type ℓ} (m : Result A) → Raises m → (e : Error) × (m ≡ err e)
error_of (ok a) h = absurd h
error_of (err e) h = (e, refl)

pub final-last :
    (p : Option SignedAttestationTrustState) (seen : List String) (t : SignedAttestationTrustState)
    (rs : List SignedAttestationTrustState)
    → (final p seen (t ∷ rs)).0 ≡ last (t ∷ rs)
unfolding final
final-last p seen t [] = refl
final-last p seen t (u ∷ rs) = final-last (some t) (anchor_ids t.anchors ++ seen) u rs

final-tip :
    (rs : List SignedAttestationTrustState) (p : SignedAttestationTrustState)
    → last rs ≡ some p
    → (final none [] rs).0 ≡ some p
final-tip [] p h = cc
final-tip (t ∷ rs) p h = final-last none [] t rs ∙ h

pub final-seen :
    (id : String) (p : Option SignedAttestationTrustState) (seen : List String)
    (rs : List SignedAttestationTrustState)
    → elem id (final p seen rs).1 ≡ elem id seen || elem id (all_ids rs)
unfolding final
final-seen id p seen [] = ground arith
final-seen id p seen (t ∷ rs) = ground (
  arith,
  final-seen id (some t) (anchor_ids t.anchors ++ seen) rs,
  elem-append id (anchor_ids t.anchors) seen,
  elem-append id (anchor_ids t.anchors) (all_ids rs),
)

module _ (x : Externals) (max_records : Option ℕ) (s : SignedAttestationTrustState) where
  -- One more record that the check refuses makes the whole history unreadable.
  pub parse_from-refused :
      (count : ℕ) (p : Option SignedAttestationTrustState) (seen : List String) (lines : List Line)
      (rs : List SignedAttestationTrustState)
      → parse_from x max_records count p seen lines ≡ ok rs
      → Raises (check_record x (final p seen rs).0 (final p seen rs).1 s)
      → Raises (parse_from x max_records count p seen (lines ++ decoded (ok s) ∷ []))
  unfolding parse_from
  parse_from-refused count p seen [] rs h bad =
      let empty : rs ≡ [] = cc in
      Raises-bind
        (raise_if (over_limit max_records count)
          (overflow_error "attestation trust history record count exceeds read limit"))
        _
        λ _ _. Raises-bind (wrap (check_record x p seen s)) _ λ u e. absurd (
          cc (
            e,
            (error_of _
                (Raises-wrap (check_record x p seen s) (unfold final in rw empty at bad))).1,
          ))
  parse_from-refused count p seen (blank ∷ lines) rs h bad =
      parse_from-refused count p seen lines rs h bad
  parse_from-refused count p seen (decoded r ∷ lines) rs h bad =
      let limit =
        raise_if (over_limit max_records count)
          (overflow_error "attestation trust history record count exceeds read limit") in
      let (_, h₁) = >>-eq-ok limit _ h in
      let (t, read_t, h₂) = >>=-eq-ok (wrap r) _ h₁ in
      let (checked, h₃) = >>-eq-ok (wrap (check_record x p seen t)) _ h₂ in
      let (others, tail, end) =
        >>=-eq-ok
          (parse_from x max_records (suc count) (some t) (anchor_ids t.anchors ++ seen) lines) _
          h₃ in
      let shape : rs ≡ t ∷ others = cc in
      Raises-bind limit _ λ _ _.
        rw (read_t, checked)
          (Raises-bind
            (parse_from x max_records (suc count) (some t) (anchor_ids t.anchors ++ seen)
              (lines ++ decoded (ok s) ∷ []))
            _
            λ a e. absurd (
              cc (
                e,
                (error_of _ (
                    parse_from-refused (suc count) (some t) (anchor_ids t.anchors ++ seen) lines
                      others tail (unfold final in rw shape at bad))).1,
              )))

  -- One more record that the check accepts is read behind the others, while there is room for it.
  pub parse_from-accepted :
      (count n : ℕ) (p : Option SignedAttestationTrustState) (seen : List String)
      (lines : List Line) (rs : List SignedAttestationTrustState)
      → parse_from x max_records count p seen lines ≡ ok rs
      → check_record x (final p seen rs).0 (final p seen rs).1 s ≡ ok tt
      → n ≡ count + length rs
      → over_limit max_records n ≡ false
      → parse_from x max_records count p seen (lines ++ decoded (ok s) ∷ []) ≡ ok (rs ++ s ∷ [])
  unfolding parse_from
  parse_from-accepted count n p seen [] rs h good size room =
      let empty : rs ≡ [] = cc in
      let here : n ≡ count = omega (arith, ap length empty) in
      let fits : check_record x p seen s ≡ ok tt = unfold final in rw empty at good in
      rw (← here, room, empty, fits) refl
  parse_from-accepted count n p seen (blank ∷ lines) rs h good size room =
      parse_from-accepted count n p seen lines rs h good size room
  parse_from-accepted count n p seen (decoded r ∷ lines) rs h good size room =
      let limit =
        raise_if (over_limit max_records count)
          (overflow_error "attestation trust history record count exceeds read limit") in
      let (free, h₁) = >>-eq-ok limit _ h in
      let (t, read_t, h₂) = >>=-eq-ok (wrap r) _ h₁ in
      let (checked, h₃) = >>-eq-ok (wrap (check_record x p seen t)) _ h₂ in
      let (others, tail, end) =
        >>=-eq-ok
          (parse_from x max_records (suc count) (some t) (anchor_ids t.anchors ++ seen) lines) _
          h₃ in
      let shape : rs ≡ t ∷ others = cc in
      let size' : n ≡ suc count + length others = omega (arith, ap length shape) in
      let fits : check_record x (final (some t) (anchor_ids t.anchors ++ seen) others).0
            (final (some t) (anchor_ids t.anchors ++ seen) others).1 s
          ≡ ok tt =
        unfold final in rw shape at good in
      rw
        (
          free,
          read_t,
          checked,
          parse_from-accepted (suc count) n (some t) (anchor_ids t.anchors ++ seen) lines others
              tail fits size' room,
        )
        (ap (λ z. ok (z ++ s ∷ [])) (sym shape))

-- A key that was seen and is not among the previous ones reappears.
reappears_of :
    (seen previous current : List String) (id : String)
    → elem id current ≡ true
    → elem id seen ≡ true
    → elem id previous ≡ false
    → reappears seen previous current ≡ true
unfolding reappears
reappears_of seen previous [] id m s f = cc
reappears_of seen previous (c ∷ rest) id m s f =
    ground (arith, eq_iff c id, reappears_of seen previous rest id)

module _ (x : Externals) (max_records : Option ℕ) (s p : SignedAttestationTrustState)
    (lines : List Line) (rs : List SignedAttestationTrustState) where
  check_record-refused :
      (seen : List String) (id : String)
      → elem id (anchor_ids s.anchors) ≡ true
      → elem id seen ≡ true
      → elem id (anchor_ids p.anchors) ≡ false
      → Raises (check_record x (some p) seen s)
  unfolding check_record
  check_record-refused seen id m known gone =
      Raises-bind (validate_attestation_trust_transition x (some p) s) _ λ u _.
        rw (reappears_of seen (anchor_ids p.anchors) (anchor_ids s.anchors) id m known gone) tt

  -- A returning key makes a history unreadable that was readable before.
  pub parse_history-refused :
      (id : String)
      → parse_history_records x max_records lines ≡ ok rs
      → last rs ≡ some p
      → elem id (all_ids rs) ≡ true
      → elem id (anchor_ids p.anchors) ≡ false
      → elem id (anchor_ids s.anchors) ≡ true
      → Raises (parse_history_records x max_records (lines ++ decoded (ok s) ∷ []))
  unfolding parse_history_records
  parse_history-refused id h tip seen gone back =
      let zero? =
        raise_if (is_zero max_records) (value_error "max_records must be positive when provided") in
      let (_, h₁) = >>-eq-ok zero? (parse_from x max_records 0 none [] lines) h in
      Raises-bind zero? _ λ _ _. parse_from-refused x max_records s 0 none [] lines rs h₁ (
        subst (λ q. Raises (check_record x q (final none [] rs).1 s)) (sym (final-tip rs p tip))
          (check_record-refused (final none [] rs).1 id back
            (ground (arith, final-seen id none [] rs)) gone))

reappears_congr :
    (a b previous current : List String)
    → ((id : String) → elem id a ≡ elem id b)
    → reappears a previous current ≡ reappears b previous current
unfolding reappears
reappears_congr a b previous [] h = refl
reappears_congr a b previous (c ∷ rest) h = ground (arith, h c, reappears_congr a b previous rest h)

final-tip_eq : (rs : List SignedAttestationTrustState) → (final none [] rs).0 ≡ last rs
unfolding final
final-tip_eq [] = refl
final-tip_eq (t ∷ rs) = final-last none [] t rs

raise_if-false : (b : Bool) (e : Error) → b ≡ false → raise_if b e ≡ ok tt
raise_if-false true e h = cc
raise_if-false false e h = refl

module _ (x : Externals) (max_records : Option ℕ) (s : SignedAttestationTrustState)
    (lines : List Line) (rs : List SignedAttestationTrustState) where
  check_record-accepted :
      (p : Option SignedAttestationTrustState) (seen : List String)
      → validate_attestation_trust_transition x p s ≡ ok tt
      → reappears seen (ids_of p) (anchor_ids s.anchors) ≡ false
      → check_record x p seen s ≡ ok tt
  unfolding check_record
  check_record-accepted p seen valid fresh = rw (valid, fresh) (raise_if-false _ _ (ground arith))

  -- A state that continues the history, and brings no removed key back, is read behind it.
  pub parse_history-accepted :
      parse_history_records x max_records lines ≡ ok rs
      → validate_attestation_trust_transition x (last rs) s ≡ ok tt
      → reappears (all_ids rs) (ids_of (last rs)) (anchor_ids s.anchors) ≡ false
      → over_limit max_records (length rs) ≡ false
      → parse_history_records x max_records (lines ++ decoded (ok s) ∷ []) ≡ ok (rs ++ s ∷ [])
  unfolding parse_history_records
  parse_history-accepted h valid fresh room =
      let (nonzero, h₁) =
        >>-eq-ok
          (raise_if (is_zero max_records)
            (value_error "max_records must be positive when provided"))
          (parse_from x max_records 0 none [] lines) h in
      let same =
        reappears_congr (final none [] rs).1 (all_ids rs) (ids_of (last rs)) (anchor_ids s.anchors)
          (λ id. ground (arith, final-seen id none [] rs)) in
      rw nonzero (
        parse_from-accepted x max_records s 0 (length rs) none [] lines rs h₁
          (subst (λ q. check_record x q (final none [] rs).1 s ≡ ok tt) (sym (final-tip_eq rs))
            (check_record-accepted (last rs) (final none [] rs).1 valid (same ∙ fresh)))
          (omega arith) room)
