-- ===== src/Evidence/Governance/Laws.antt =====
-- The projection for telemetry never fails, and agrees with the decision.
use state_wake.Base.{
  ◌<◌, ◌⊎◌, ◌≢◌, ◌==◌, Option, none, some, false, is_empty, is_empty_iff, subst, ◌≤◌, String, ◌≡◌,
  inl, inr, ◌↔◌, refl, ap, ◌∙◌, true, List, [], ◌∷◌, filter, elem, is_distinct, is_nil, elem-sorted,
  ok, arith, Bool-cases,
}
use state_wake.Sensitivity.{Sensitivity, public_level, internal, confidential, restricted, rank}
use state_wake.Evidence.{EvidenceItem, EvidenceManifest, evidence_ids, check_manifest}
use state_wake.Evidence.Governance.{
  EvidenceGovernancePolicy, is_listed, lacks_digest, exceeds_storage, needs_digest, is_visible,
  storage_reasons_of, scan, evaluate_evidence_governance, project_manifest_for_telemetry,
}

-- the level is one of the list
abbrev pub IsListed : Sensitivity → List Sensitivity → Type 0
IsListed s [] = ⊥
IsListed s (l ∷ rest) = (l ≡ s) ⊎ IsListed s rest

-- a digest that is not the empty text
abbrev pub HasDigest : EvidenceItem → Type 0
HasDigest i = (d : String) × (i.digest ≡ some d) × (d ≢ "")

-- every item is within the storage ceiling, and has a digest where the policy lists its level
abbrev pub IsStorable : EvidenceGovernancePolicy → List EvidenceItem → Type 0
IsStorable p [] = Unit
IsStorable p (i ∷ rest) =
    (rank i.sensitivity ≤ rank p.storage_max_sensitivity)
    × (IsListed i.sensitivity p.require_digest_for → HasDigest i)
    × IsStorable p rest

-- The second list is the first without the items above the ceiling, in the same order.
pub data IsProjection (ceiling : Sensitivity) : List EvidenceItem → List EvidenceItem → Type 0 where
  nothing : IsProjection ceiling [] []
  kept :
      (i : EvidenceItem) (items projected : List EvidenceItem)
      → rank i.sensitivity ≤ rank ceiling
      → IsProjection ceiling items projected
      → IsProjection ceiling (i ∷ items) (i ∷ projected)
  left_out :
      (i : EvidenceItem) (items projected : List EvidenceItem)
      → rank ceiling < rank i.sensitivity
      → IsProjection ceiling items projected
      → IsProjection ceiling (i ∷ items) projected

rank_inj : (s l : Sensitivity) → rank l ≡ rank s → l ≡ s
rank_inj public_level public_level h = refl
rank_inj public_level internal h = absurd (omega arith)
rank_inj public_level confidential h = absurd (omega arith)
rank_inj public_level restricted h = absurd (omega arith)
rank_inj internal public_level h = absurd (omega arith)
rank_inj internal internal h = refl
rank_inj internal confidential h = absurd (omega arith)
rank_inj internal restricted h = absurd (omega arith)
rank_inj confidential public_level h = absurd (omega arith)
rank_inj confidential internal h = absurd (omega arith)
rank_inj confidential confidential h = refl
rank_inj confidential restricted h = absurd (omega arith)
rank_inj restricted public_level h = absurd (omega arith)
rank_inj restricted internal h = absurd (omega arith)
rank_inj restricted confidential h = absurd (omega arith)
rank_inj restricted restricted h = refl

is_listed_iff :
    (s : Sensitivity) (levels : List Sensitivity) → (is_listed s levels ≡ true) ↔ IsListed s levels
is_listed_iff s [] = (λ h. cc, λ h. absurd h)
is_listed_iff s (l ∷ rest) =
    let later = is_listed_iff s rest in
    elim (Bool-cases (rank l == rank s)) [
      | inl same ↦ rw same (λ h. inl (rank_inj s l (ground arith)), λ h. refl)
      | inr other ↦ rw other (
        λ h. inr (later.0 h),
        λ h. elim h [ inl e ↦ absurd (differ l e other) | inr listed ↦ later.1 listed ],
      )
    ]
  where
    differ : (l : Sensitivity) → l ≡ s → rank l == rank s ≢ false
    differ l e h = let r = ap rank e in ground arith

lacks_digest_iff : (i : EvidenceItem) → (lacks_digest i.digest ≡ false) ↔ HasDigest i
lacks_digest_iff i = by_digest (i.digest)
  where
    by_text : (s : String) → (is_empty s ≡ false) ↔ ((d : String) × (some s ≡ some d) × (d ≢ ""))
    by_text s = elim (Bool-cases (is_empty s)) [
      | inl e ↦ rw e (λ h. cc, λ (d, same, n). absurd (n (empty d (given s d same e))))
      | inr n ↦ rw n (λ h. (s, refl, λ e. absurd (filled s e n)), λ h. refl)
    ]
      where
        empty : (d : String) → is_empty d ≡ true → d ≡ ""
        empty d = (is_empty_iff d).0

        given : (s d : String) → some s ≡ some d → is_empty s ≡ true → is_empty d ≡ true
        given s d same e = let q : s ≡ d = cc in subst (λ z. is_empty z ≡ true) q e

        filled : (s : String) → s ≡ "" → is_empty s ≢ false
        filled s e n = let q : is_empty "" ≡ false = subst (λ z. is_empty z ≡ false) e n in cc

    by_digest :
        (o : Option String) → (lacks_digest o ≡ false) ↔ ((d : String) × (o ≡ some d) × (d ≢ ""))
    by_digest none = (λ h. cc, λ (d, e, n). cc)
    by_digest (some s) = by_text s

needs_digest_iff :
    (p : EvidenceGovernancePolicy) (i : EvidenceItem)
    → (needs_digest p i ≡ false) ↔ (IsListed i.sensitivity p.require_digest_for → HasDigest i)
needs_digest_iff p i =
    let listed = is_listed_iff i.sensitivity p.require_digest_for in
    let given = lacks_digest_iff i in
    elim (Bool-cases (is_listed i.sensitivity p.require_digest_for)) [
      | inl e ↦ rw e (λ h _. given.0 h, λ f. given.1 (f (listed.0 e)))
      | inr e ↦ rw e (λ h l. absurd (cc (listed.1 l, e)), λ f. refl)
    ]

scan-storage :
    (p : EvidenceGovernancePolicy) (items : List EvidenceItem)
    → (is_nil (scan p items).0 ≡ true) ↔ IsStorable p items
unfolding scan storage_reasons_of
scan-storage p [] = (λ h. tt, λ s. refl)
scan-storage p (i ∷ rest) =
    let later = scan-storage p rest in
    let (to, from) = needs_digest_iff p i in
    elim (Bool-cases (exceeds_storage p i)) [
      | inl over ↦ rw over (λ h. cc, λ (le, n, s). ground arith)
      | inr under ↦ elim (Bool-cases (needs_digest p i)) [
        | inl needs ↦ rw (under, needs) (λ h. cc, λ (le, n, s). absurd (cc (from n, needs)))
        | inr free ↦
            rw (under, free) (λ h. (ground arith, to free, later.0 h), λ (le, n, s). later.1 s)
      ]
    ]

scan-visible :
    (p : EvidenceGovernancePolicy) (items : List EvidenceItem)
    → (scan p items).2 ≡ evidence_ids (filter (is_visible p) items)
unfolding scan
scan-visible p [] = refl
scan-visible p (i ∷ rest) =
    let later = scan-visible p rest in
    elim (Bool-cases (is_visible p i)) [
      | inl seen ↦ rw seen (ap (λ l. i.evidence_id ∷ l) later)
      | inr hidden ↦ rw hidden later
    ]

filter-IsProjection :
    (p : EvidenceGovernancePolicy) (items : List EvidenceItem)
    → IsProjection p.telemetry_max_sensitivity items (filter (is_visible p) items)
filter-IsProjection p [] = nothing
filter-IsProjection p (i ∷ rest) =
    let later = filter-IsProjection p rest in
    elim (Bool-cases (is_visible p i)) [
      | inl seen ↦ rw seen (kept i rest (filter (is_visible p) rest) (ground arith) later)
      | inr hidden ↦ rw hidden (left_out i rest (filter (is_visible p) rest) (ground arith) later)
    ]

elem-filter :
    (p : EvidenceGovernancePolicy) (items : List EvidenceItem) (x : String)
    → elem x (evidence_ids items) ≡ false
    → elem x (evidence_ids (filter (is_visible p) items)) ≡ false
elem-filter p [] x h = h
elem-filter p (i ∷ rest) x h =
    let later = elem-filter p rest x (ground arith) in
    elim (Bool-cases (is_visible p i)) [
      | inl seen ↦ rw seen (ground arith)
      | inr hidden ↦ rw hidden later
    ]

filter-distinct :
    (p : EvidenceGovernancePolicy) (items : List EvidenceItem)
    → is_distinct (evidence_ids items) ≡ true
    → is_distinct (evidence_ids (filter (is_visible p) items)) ≡ true
filter-distinct p [] h = h
filter-distinct p (i ∷ rest) h =
    let later = filter-distinct p rest (ground arith) in
    elim (Bool-cases (is_visible p i)) [
      | inl seen ↦
          let new = elem-filter p rest i.evidence_id (ground arith) in rw seen (ground arith)
      | inr hidden ↦ rw hidden later
    ]

-- For a manifest that passes its validation: storage is allowed exactly when every item is within
-- the storage ceiling and, where the policy lists its level, has a digest that is not empty; the
-- projection for telemetry returns a manifest of the same name and run, whose items are those within
-- the telemetry ceiling, all of them and in the same order; and the identifiers of those are exactly
-- the ones that the decision shows.
pub evaluate_evidence_governance-project :
    (m : EvidenceManifest) (p : EvidenceGovernancePolicy)
    → check_manifest m ≡ ok tt
    → (((evaluate_evidence_governance m p).storage_allowed ≡ true) ↔ IsStorable p m.items)
      × ((projected : EvidenceManifest) × (project_manifest_for_telemetry m p ≡ ok projected)
          × (projected.manifest_id ≡ m.manifest_id)
          × (projected.run_id ≡ m.run_id)
          × IsProjection p.telemetry_max_sensitivity m.items projected.items
          × ((x : String)
              → elem x (evaluate_evidence_governance m p).telemetry_visible_evidence_ids
                ≡ elem x (evidence_ids projected.items)))
unfolding evaluate_evidence_governance project_manifest_for_telemetry check_manifest
evaluate_evidence_governance-project m p v =
    let new = filter-distinct p m.items (ground arith) in
    (
      scan-storage p m.items,
      (
        record m { items = filter (is_visible p) m.items },
        ground arith,
        refl,
        refl,
        filter-IsProjection p m.items,
        λ x. elem-sorted x (scan p m.items).2 ∙ ap (elem x) (scan-visible p m.items),
      ),
    )
