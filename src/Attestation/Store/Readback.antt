-- ===== src/Attestation/Store/Readback.antt =====
-- What a read of the store answers after an append that was written. `append` checks one
-- transition; the read also refuses a key that comes back after its removal.
use state_wake.Base.{
  sym, ◌∙◌, subst, inr, inl, length-append, ap, ◌≢◌, ◌<◌, String, ◌≡◌, last, refl, true, false,
  Option, none, some, List, [], ◌∷◌, ◌++◌, elem, length, Check, ok, ◌>>=◌, >>=-eq-ok, >>-eq-ok,
  arith, Bool-cases,
}
use state_wake.Attestation.{
  SignedAttestationTrustState, Externals, anchor_ids, validate_attestation_trust_transition,
}
use state_wake.Attestation.History.{
  Line, decoded, parse_history_records, reappears, ids_of, over_limit,
}
use state_wake.Attestation.History.Append.{
  all_ids, Raises, Raises-bind, error_of, parse_history-refused, parse_history-accepted,
}
use state_wake.Attestation.Store.{
  File, write, verify_all, read, append, append_after, state_eq, same_version,
}
use state_wake.Attestation.Store.Written.{
  write-Written, parse_history-alike, parse_history-undecodable,
}

module _ (x : Externals) (verify : SignedAttestationTrustState → Check) where
  -- A file that cannot be read is not appended to.
  append-Raises :
      (s : SignedAttestationTrustState) (file : File)
      → Raises (read x verify file)
      → Raises (append x verify s file)
  unfolding append
  append-Raises s file bad =
      let (e, fails) = error_of (read x verify file) bad in
      Raises-bind (verify s) _ λ u _. rw fails tt

  verify_all-append :
      (rs : List SignedAttestationTrustState) (s : SignedAttestationTrustState)
      → verify_all x verify rs ≡ ok tt
      → verify s ≡ ok tt
      → verify_all x verify (rs ++ s ∷ []) ≡ ok tt
  unfolding verify_all
  verify_all-append [] s h v = rw v refl
  verify_all-append (t ∷ rs) s h v =
      let (this, others) = >>-eq-ok (verify t) (verify_all x verify rs) h in
      rw this (verify_all-append rs s others v)

  read-inv :
      (file : File) (rs : List SignedAttestationTrustState)
      → read x verify file ≡ ok rs
      → (parse_history_records x (some 1000000) (file.lines) ≡ ok rs)
        × (verify_all x verify rs ≡ ok tt)
  unfolding read
  read-inv file rs h =
      let (qs, parsed, h₁) = >>=-eq-ok (parse_history_records x (some 1000000) (file.lines)) _ h in
      let (verified, same) = >>-eq-ok (verify_all x verify qs) (ok qs) h₁ in
      let e : qs ≡ rs = cc in (rw (← e) parsed, rw (← e) verified)

-- A trust state that was appended to a readable file, whether its last line ends with a newline or
-- not, and that lists a key which an earlier record listed and the last one does not, leaves a file
-- that no read accepts; and no further append is accepted either.
pub append_poisons :
    (x : Externals) (verify : SignedAttestationTrustState → Check)
    (s p : SignedAttestationTrustState) (file : File) (records : List SignedAttestationTrustState)
    (id : String)
    → read x verify file ≡ ok records
    → append x verify s file ≡ ok (s, write file s)
    → last records ≡ some p
    → elem id (all_ids records) ≡ true
    → elem id (anchor_ids p.anchors) ≡ false
    → elem id (anchor_ids s.anchors) ≡ true
    → Raises (read x verify (write file s))
      × ((t : SignedAttestationTrustState) → Raises (append x verify t (write file s)))
unfolding read
append_poisons x verify s p file records id readable written tip seen gone back =
    let (parsed, _) = read-inv x verify file records readable in
    let bad : (rs : List SignedAttestationTrustState)
        → parse_history_records x (some 1000000) ((write file s).lines) ≢ ok rs =
      λ rs h. elim (write-Written x s file) [
        | inl (init, same, alike) ↦
            let refused =
              parse_history-refused x (some 1000000) s p init records id
                (sym (parse_history-alike x (some 1000000) (file.lines) init (alike (some 1000000)))
                  ∙ parsed)
                tip seen gone back in
            absurd (cc (h, same, (error_of _ refused).1))
        | inr (init, e, same) ↦
            parse_history-undecodable x (some 1000000) init e rs
              (subst (λ l. parse_history_records x (some 1000000) l ≡ ok rs) same h)
      ] in
    let unreadable : Raises (read x verify (write file s)) =
      Raises-bind (parse_history_records x (some 1000000) ((write file s).lines)) _
        λ rs e. absurd (bad rs e) in
    (unreadable, λ t. append-Raises x verify t (write file s) unreadable)

longer : (file : List Line) (l : Line) → file ≢ file ++ l ∷ []
longer file l e = omega (arith, ap (length {A = Line}) e, length-append {0} file (l ∷ []))

-- a write to a file with a whole last line
write-ended :
    (f : File) (s : SignedAttestationTrustState)
    → f.ended ≡ true
    → (write f s).lines ≡ f.lines ++ decoded (ok s) ∷ []
unfolding write
write-ended f s h = rw h refl

module _ (x : Externals) (verify : SignedAttestationTrustState → Check)
    (s : SignedAttestationTrustState) (file : File) (records : List SignedAttestationTrustState)
    (whole : file.ended ≡ true) where
  write-differs : file ≢ write file s
  write-differs e =
      longer (file.lines) (decoded (ok s)) (ap (λ f. f.lines) e ∙ write-ended file s whole)

  append_after-inv :
      (o : Option SignedAttestationTrustState)
      → append_after x verify s file records o ≡ ok (s, write file s)
      → validate_attestation_trust_transition x (last records) s ≡ ok tt
  unfolding append_after
  append_after-inv none h =
      (>>-eq-ok (validate_attestation_trust_transition x (last records) s) (ok (s, write file s))
        h).0
  append_after-inv (some existing) h = elim (Bool-cases (state_eq existing s)) [
    | inl same ↦ absurd (write-differs (let g = rw same at h in cc))
    | inr other ↦ absurd (cc (rw other at h))
  ]

  -- what an append that wrote its state has checked
  append-inv :
      read x verify file ≡ ok records
      → append x verify s file ≡ ok (s, write file s)
      → (verify s ≡ ok tt) × (validate_attestation_trust_transition x (last records) s ≡ ok tt)
  unfolding append
  append-inv readable h =
      let (signed, h₁) =
        >>-eq-ok (verify s)
          (read x verify file >>= λ rs. append_after x verify s file rs (same_version s.version rs))
          h in
      (signed, append_after-inv (same_version s.version records) (rw readable at h₁))

-- A state that was appended to a readable file, whose last line ends with its newline and which
-- holds fewer than a million records, and that brings no removed key back, is read back behind the
-- records that were there, from a file whose last line ends with its newline again.
pub append_then_read :
    (x : Externals) (verify : SignedAttestationTrustState → Check) (s : SignedAttestationTrustState)
    (file : File) (records : List SignedAttestationTrustState)
    → read x verify file ≡ ok records
    → file.ended ≡ true
    → append x verify s file ≡ ok (s, write file s)
    → reappears (all_ids records) (ids_of (last records)) (anchor_ids s.anchors) ≡ false
    → length records < 1000000
    → (read x verify (write file s) ≡ ok (records ++ s ∷ [])) × ((write file s).ended ≡ true)
unfolding read write
append_then_read x verify s file records readable whole written fresh room =
    let (parsed, signed) = read-inv x verify file records readable in
    let (this_signed, valid) = append-inv x verify s file records whole readable written in
    (
      rw
          (
            whole,
            parse_history-accepted x (some 1000000) s (file.lines) records parsed valid fresh
                (unfold over_limit in ground arith),
            verify_all-append x verify records s signed this_signed,
          )
          refl,
      refl,
    )
