-- ===== src/Attestation/Store/Written.antt =====
-- What a write leaves of the lines of a file, and how they are read.
use state_wake.Base.{
  >>-eq-ok, >>=-eq-ok, raise_if, ◌≢◌, overflow_error, if◌then◌else◌, ℕ, ◌≡◌, refl, ap, ◌⊎◌, inl,
  inr, Bool, true, false, Option, none, some, List, [], ◌∷◌, ◌++◌, Error, ok, err, value_error, suc,
  String,
}
use state_wake.Attestation.{raise_if, SignedAttestationTrustState, Externals, anchor_ids}
use state_wake.Attestation.History.{
  over_limit, is_zero, Line, blank, decoded, check_record, parse_from, parse_history_records, wrap,
}
use state_wake.Attestation.Store.{File, joined, join_last, write}

abbrev limit_error : Error
limit_error = overflow_error "attestation trust history record count exceeds read limit"

module _ (x : Externals) where
  -- a blank line is not read
  parse_from-blank :
      (max : Option ℕ) (count : ℕ) (p : Option SignedAttestationTrustState) (seen : List String)
      → parse_from x max count p seen (blank ∷ []) ≡ parse_from x max count p seen []
  unfolding parse_from
  parse_from-blank max count p seen = refl

  parse_from-undecodable :
      (max : Option ℕ) (count : ℕ) (p : Option SignedAttestationTrustState) (seen : List String)
      (lines : List Line) (e : Error) (rs : List SignedAttestationTrustState)
      → parse_from x max count p seen (lines ++ decoded (err e) ∷ []) ≢ ok rs
  unfolding parse_from
  parse_from-undecodable max count p seen [] e rs h =
      let (_, h₁) = >>-eq-ok (raise_if (over_limit max count) limit_error) _ h in cc
  parse_from-undecodable max count p seen (blank ∷ lines) e rs h =
      parse_from-undecodable max count p seen lines e rs h
  parse_from-undecodable max count p seen (decoded r ∷ lines) e rs h =
      let (_, h₁) = >>-eq-ok (raise_if (over_limit max count) limit_error) _ h in
      let (t, _, h₂) = >>=-eq-ok (wrap r) _ h₁ in
      let (_, h₃) = >>-eq-ok (wrap (check_record x p seen t)) _ h₂ in
      let (others, bad, _) =
        >>=-eq-ok
          (parse_from x max (suc count) (some t) (anchor_ids t.anchors ++ seen)
            (lines ++ decoded (err e) ∷ []))
          _ h₃ in
      parse_from-undecodable max (suc count) (some t) (anchor_ids t.anchors ++ seen) lines e others
        bad

  parse_from-cons :
      (l : Line) (lines init : List Line)
      → ((max : Option ℕ) (count : ℕ) (p : Option SignedAttestationTrustState) (seen : List String)
          → parse_from x max count p seen lines ≡ parse_from x max count p seen init)
      → (max : Option ℕ) (count : ℕ) (p : Option SignedAttestationTrustState) (seen : List String)
      → parse_from x max count p seen (l ∷ lines) ≡ parse_from x max count p seen (l ∷ init)
  unfolding parse_from
  parse_from-cons blank lines init h max count p seen = h max count p seen
  parse_from-cons (decoded (err e)) lines init h max count p seen = refl
  parse_from-cons (decoded (ok t)) lines init h max count p seen =
      rw (h max (suc count) (some t) (anchor_ids t.anchors ++ seen)) refl

  -- a file that ends in a line that does not decode is not read
  pub parse_history-undecodable :
      (max : Option ℕ) (lines : List Line) (e : Error) (rs : List SignedAttestationTrustState)
      → parse_history_records x max (lines ++ decoded (err e) ∷ []) ≢ ok rs
  unfolding parse_history_records
  parse_history-undecodable max lines e rs h =
      let (_, h₁) =
        >>-eq-ok (raise_if (is_zero max) (value_error "max_records must be positive when provided"))
          _ h in
      parse_from-undecodable max 0 none [] lines e rs h₁

  module _ (s : SignedAttestationTrustState) where
    -- The lines after a write: lines that are read like those before it, and the record; or lines
    -- whose last one does not decode.
    abbrev pub Written : List Line → List Line → Type 0
    Written lines written =
        ((init : List Line) × (written ≡ init ++ decoded (ok s) ∷ [])
          × ((max : Option ℕ) (count : ℕ) (p : Option SignedAttestationTrustState)
                (seen : List String)
              → parse_from x max count p seen lines ≡ parse_from x max count p seen init))
        ⊎ ((init : List Line) × (e : Error) × (written ≡ init ++ decoded (err e) ∷ []))

    join_last-Written : (lines : List Line) → Written lines (join_last lines s)
    unfolding join_last joined
    join_last-Written [] = inl ([], refl, λ max count p seen. refl)
    join_last-Written (blank ∷ []) = inl ([], refl, parse_from-blank)
    join_last-Written (decoded r ∷ []) = inr ([], value_error "Extra data", refl)
    join_last-Written (l ∷ k ∷ rest) = elim (join_last-Written (k ∷ rest)) [
      | inl (init, same, alike) ↦
          inl (l ∷ init, ap (λ z. l ∷ z) same, parse_from-cons l (k ∷ rest) init alike)
      | inr (init, e, same) ↦ inr (l ∷ init, e, ap (λ z. l ∷ z) same)
    ]

    pub write-Written : (f : File) → Written (f.lines) ((write f s).lines)
    unfolding write
    write-Written f = by_end (f.ended)
      where
        by_end :
            (b : Bool)
            → Written
                (f.lines)
                (if b then f.lines ++ decoded (ok s) ∷ [] else join_last (f.lines) s)
        by_end true = inl (f.lines, refl, λ max count p seen. refl)
        by_end false = join_last-Written (f.lines)

  -- lines that are read alike are read alike as histories
  pub parse_history-alike :
      (max : Option ℕ) (lines init : List Line)
      → ((count : ℕ) (p : Option SignedAttestationTrustState) (seen : List String)
          → parse_from x max count p seen lines ≡ parse_from x max count p seen init)
      → parse_history_records x max lines ≡ parse_history_records x max init
  unfolding parse_history_records
  parse_history-alike max lines init h = rw (h 0 none []) refl
