-- ===== src/Attestation/History/Signing.antt =====
-- Which keys may sign at the end of a history.
use state_wake.Base.{
  sym, ◌⊎◌, ℕ, String, ◌≡◌, refl, Option, some, List, [], ◌∷◌, ◌++◌, ◌=ₛ◌, ok, arith, Bool-cases,
  inl, inr,
}
use state_wake.Attestation.{
  AnchorStatus, active, revoked, superseded, AttestationTrustAnchor, SignedAttestationTrustState,
  Externals, by_id, signing_key_status, attestation_signing_key_status,
}
use state_wake.Attestation.History.{Line, parse_history_records}
use state_wake.Attestation.History.Keeps.{Keeps, AllKeep, NeverBack, parse_history-NeverBack}

signing_key_status-by_id :
    (list : List AttestationTrustAnchor) (id : String) (a : AttestationTrustAnchor)
    → signing_key_status list id ≡ ok a
    → (by_id list id ≡ some a) × (a.status ≡ active)
unfolding signing_key_status by_id
signing_key_status-by_id [] id a h = cc
signing_key_status-by_id (b ∷ rest) id a h = elim (Bool-cases (b.key_id =ₛ id)) [
  | inl this ↦ ground arith
  | inr other ↦ let (e, s) = signing_key_status-by_id rest id a (rw other at h) in (rw other e, s)
]

NeverBack-drop :
    (pre all : List SignedAttestationTrustState) → NeverBack (pre ++ all) → NeverBack all
NeverBack-drop [] all h = h
NeverBack-drop (s ∷ pre) all h = NeverBack-drop pre all h.1

AllKeep-at :
    (id : String) (old : AttestationTrustAnchor) (mid : List SignedAttestationTrustState)
    (t : SignedAttestationTrustState) (post : List SignedAttestationTrustState)
    → AllKeep id old (mid ++ (t ∷ post))
    → (new : AttestationTrustAnchor) → by_id t.anchors id ≡ some new
    → Keeps old new
AllKeep-at id old [] t post h new e = h.0 new e
AllKeep-at id old (s ∷ mid) t post h new e = AllKeep-at id old mid t post h.1 new e

not_ended :
    (old new : AttestationTrustAnchor) → Keeps old new → new.status ≡ active → old.status ≡ active
not_ended old new k e = elim (Status-cases old.status) [
  | inl alive ↦ alive
  | inr (inl gone) ↦ absurd (cc (k.revoked_stays gone, e))
  | inr (inr replaced) ↦ absurd (cc ((k.superseded_stays replaced).0, e))
]
  where
    Status-cases : (s : AnchorStatus) → (s ≡ active) ⊎ ((s ≡ revoked) ⊎ (s ≡ superseded))
    Status-cases active = inl refl
    Status-cases revoked = inr (inl refl)
    Status-cases superseded = inr (inr refl)

-- In a history that is read without an error, a key that a state accepts for signing was active,
-- with the same key material, in every earlier state that lists it.
pub signing_key_always_active :
    (x : Externals) (max_records : Option ℕ) (lines : List Line)
    (pre mid post : List SignedAttestationTrustState) (s t : SignedAttestationTrustState)
    (id : String) (a old : AttestationTrustAnchor)
    → parse_history_records x max_records lines ≡ ok (pre ++ (s ∷ (mid ++ (t ∷ post))))
    → attestation_signing_key_status t id ≡ ok a
    → by_id s.anchors id ≡ some old
    → (old.status ≡ active) × (old.public_key ≡ a.public_key)
unfolding attestation_signing_key_status
signing_key_always_active x max_records lines pre mid post s t id a old h signs listed =
    let never =
      NeverBack-drop pre (s ∷ (mid ++ (t ∷ post)))
        (parse_history-NeverBack x max_records lines (pre ++ (s ∷ (mid ++ (t ∷ post)))) h) in
    let (found, alive) = signing_key_status-by_id t.anchors id a signs in
    let k = AllKeep-at id old mid t post (never.0 id old listed) a found in
    (not_ended old a k alive, sym k.material)
