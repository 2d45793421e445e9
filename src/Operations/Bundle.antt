-- ===== src/Operations/Bundle.antt =====
-- In an accepted bundle, sensitivity goes down every derivation.
use state_wake.Base.{
  ℕ, ◌≤◌, String, ◌≡◌, ◌⊎◌, inl, inr, refl, subst, true, false, not, none, some, List, [], ◌∷◌,
  ◌=ₛ◌, eq_iff, elem, elem-cons, any, is_blank, is_nil, is_naive, is_distinct, ok, ◌>>=◌, >>=-eq-ok,
  >>-eq-ok, raise_if, raise_if-eq-ok, value_error, arith, ltb, if◌then◌else◌, Bool-cases, ◌<>◌, ap,
}
use state_wake.Sensitivity.{Sensitivity, rank, validate_sensitivity, inherit_sensitivity}
use state_wake.Sensitivity.Inherit.{AllWithin, inherit_sensitivity_covers}
use state_wake.Operations.{
  OperationalArtifact, OperationalBundle, artifact_ids, find_sensitivity, sensitivity_of,
  sensitivities_of, check_inherited, check_provenance, check_all_provenance, check_bundle,
}

abbrev pub HasArtifact : OperationalArtifact → List OperationalArtifact → Type 0
HasArtifact item [] = ⊥
HasArtifact item (a ∷ rest) = (a ≡ item) ⊎ HasArtifact item rest

-- the first artifact is derived from the second, in one step or through others
pub data DerivesFrom (artifacts : List OperationalArtifact) : String → String → Type 0 where
  direct :
      (item : OperationalArtifact) (source : String)
      → HasArtifact item artifacts
      → elem source item.derived_from ≡ true
      → DerivesFrom artifacts item.artifact_id source
  through :
      {x y z : String}
      → DerivesFrom artifacts x y
      → DerivesFrom artifacts y z
      → DerivesFrom artifacts x z

-- the artifact of that name is in the list, at that level
pub record HasLevel (artifacts : List OperationalArtifact) (x : String) (level : Sensitivity)
    : Type 0 where
  pub text : String
  pub found : find_sensitivity artifacts x ≡ some text
  pub reads : validate_sensitivity "sensitivity" text ≡ ok level

HasLevel-unique :
    (artifacts : List OperationalArtifact) (x : String) (l m : Sensitivity)
    → HasLevel artifacts x l
    → HasLevel artifacts x m
    → l ≡ m
HasLevel-unique artifacts x l m p q =
    let same : p.text ≡ q.text = cc (p.found, q.found) in cc (p.reads, q.reads, same)

HasArtifact-elem :
    (item : OperationalArtifact) (artifacts : List OperationalArtifact)
    → HasArtifact item artifacts
    → elem item.artifact_id (artifact_ids artifacts) ≡ true
HasArtifact-elem item [] m = absurd m
HasArtifact-elem item (a ∷ rest) (inl it) =
    let same = ap (λ (o : OperationalArtifact). o.artifact_id) it in
    ground (arith, eq_iff a.artifact_id item.artifact_id)
HasArtifact-elem item (a ∷ rest) (inr there) = ground (arith, HasArtifact-elem item rest there)

-- the identifiers being distinct, a search by identifier finds the artifact
find-HasArtifact :
    (item : OperationalArtifact) (artifacts : List OperationalArtifact)
    → is_distinct (artifact_ids artifacts) ≡ true
    → HasArtifact item artifacts
    → find_sensitivity artifacts item.artifact_id ≡ some item.sensitivity
find-HasArtifact item [] d m = absurd m
find-HasArtifact item (a ∷ rest) d (inl it) =
    let same = ap (λ (o : OperationalArtifact). o.artifact_id) it in
    let level = ap (λ (o : OperationalArtifact). o.sensitivity) it in
    ground (arith, eq_iff a.artifact_id item.artifact_id)
find-HasArtifact item (a ∷ rest) d (inr there) =
    let later = HasArtifact-elem item rest there in
    let found = find-HasArtifact item rest (ground arith) there in
    elim (Bool-cases (a.artifact_id =ₛ item.artifact_id)) [
      | inl equal ↦
          let same = (eq_iff a.artifact_id item.artifact_id).0 equal in
          let again : elem a.artifact_id (artifact_ids rest) ≡ true = rw same later in ground arith
      | inr differ ↦ ground arith
    ]

validate_sensitivity_field :
    (f g value : String) (level : Sensitivity)
    → validate_sensitivity f value ≡ ok level
    → validate_sensitivity g value ≡ ok level
unfolding validate_sensitivity
validate_sensitivity_field f g value level h = ground arith

-- each source's level is in the list of levels
source-HasLevel :
    (artifacts : List OperationalArtifact) (sources texts : List String) (source : String) (n : ℕ)
    → sensitivities_of artifacts sources ≡ ok texts
    → elem source sources ≡ true
    → AllWithin n texts
    → (level : Sensitivity) × HasLevel artifacts source level × (rank level ≤ n)
unfolding sensitivities_of
source-HasLevel artifacts [] texts source n h m w = cc
source-HasLevel artifacts (x ∷ sources) texts source n h m w =
    let (s, e, h1) = >>=-eq-ok (sensitivity_of artifacts x) _ h in
    let (ss, e', h2) = >>=-eq-ok (sensitivities_of artifacts sources) _ h1 in
    let same : texts ≡ s ∷ ss = cc in
    let ((level, reads, le), rest) = subst (AllWithin n) same w in
    elim (elem-cons source x sources m) [
      | inl here ↦ (
        level,
        record {
          text = s;
          found = subst (λ z. find_sensitivity artifacts z ≡ some s) here (found_text x s e);
          reads = validate_sensitivity_field _ _ s level reads;
        },
        le,
      )
      | inr there ↦ source-HasLevel artifacts sources ss source n e' there rest
    ]
  where
    found_text :
        (x s : String) → sensitivity_of artifacts x ≡ ok s → find_sensitivity artifacts x ≡ some s
    found_text x s e = ground arith

check_all-HasArtifact :
    (artifacts items : List OperationalArtifact) (item : OperationalArtifact)
    → check_all_provenance artifacts items ≡ ok tt
    → HasArtifact item items
    → check_provenance artifacts item ≡ ok tt
unfolding check_all_provenance
check_all-HasArtifact artifacts [] item h m = absurd m
check_all-HasArtifact artifacts (a ∷ items) item h m =
    let (first, later) =
      >>-eq-ok (check_provenance artifacts a) (check_all_provenance artifacts items) h in
    elim m [
      | inl it ↦ subst (λ o. check_provenance artifacts o ≡ ok tt) it first
      | inr there ↦ check_all-HasArtifact artifacts items item later there
    ]

-- an artifact that passed is at least at the level of each of its sources
check_inherited-le :
    (artifacts : List OperationalArtifact) (item : OperationalArtifact) (source : String)
    → check_inherited artifacts item ≡ ok tt
    → elem source item.derived_from ≡ true
    → (level low : Sensitivity) × (validate_sensitivity "sensitivity" item.sensitivity ≡ ok level)
      × HasLevel artifacts source low
      × (rank low ≤ rank level)
unfolding check_inherited
check_inherited-le artifacts item source h m =
    let nonempty : is_nil item.derived_from ≡ false = not_nil item.derived_from m in
    let run =
      subst
        (λ b.
          (if b
            then ok tt
            else (sensitivities_of artifacts item.derived_from >>= λ sources.
                inherit_sensitivity sources none false >>= λ inherited.
                validate_sensitivity "sensitivity" item.sensitivity >>= λ level.
                raise_if (ltb (rank level) (rank inherited))
                  (value_error "artifact sensitivity is lower than inherited source sensitivity")))
          ≡ ok tt)
        nonempty h in
    let (texts, e, h1) = >>=-eq-ok (sensitivities_of artifacts item.derived_from) _ run in
    let (inherited, e', h2) = >>=-eq-ok (inherit_sensitivity texts none false) _ h1 in
    let (level, e2, h3) = >>=-eq-ok (validate_sensitivity "sensitivity" item.sensitivity) _ h2 in
    let above = raise_if-eq-ok (ltb (rank level) (rank inherited)) _ h3 in
    let (low, has, le) =
      source-HasLevel artifacts item.derived_from texts source (rank inherited) e m
        (inherit_sensitivity_covers texts none inherited e').0 in
    (level, low, e2, has, ground arith)
  where
    not_nil : (xs : List String) → elem source xs ≡ true → is_nil xs ≡ false
    not_nil [] m = cc
    not_nil (x ∷ xs) m = refl

-- what the loop checks of an artifact that is listed
check_provenance-le :
    (artifacts : List OperationalArtifact) (item : OperationalArtifact) (source : String)
    → check_provenance artifacts item ≡ ok tt
    → elem source item.derived_from ≡ true
    → (level low : Sensitivity) × (validate_sensitivity "sensitivity" item.sensitivity ≡ ok level)
      × HasLevel artifacts source low
      × (rank low ≤ rank level)
unfolding check_provenance
check_provenance-le artifacts item source h m =
    let (known, rest) =
      >>-eq-ok
        (raise_if (any (λ s. not (elem s (artifact_ids artifacts))) item.derived_from)
          (value_error ("artifact " <> item.artifact_id <> " references unknown provenance")))
        (check_inherited artifacts item) h in
    check_inherited-le artifacts item source rest m

check_bundle_parts :
    (b : OperationalBundle)
    → check_bundle b ≡ ok tt
    → (is_distinct (artifact_ids b.artifacts) ≡ true)
      × (check_all_provenance b.artifacts b.artifacts ≡ ok tt)
unfolding check_bundle
check_bundle_parts b h =
    let (a1, h1) =
      >>-eq-ok (raise_if (is_blank b.bundle_id) (value_error "bundle_id must not be empty.")) _ h in
    let (a2, h2) =
      >>-eq-ok (raise_if (is_blank b.manifest_id) (value_error "manifest_id must not be empty.")) _
        h1 in
    let (a3, h3) =
      >>-eq-ok (raise_if (is_blank b.agent_name) (value_error "agent_name must not be empty.")) _
        h2 in
    let (a4, h4) =
      >>-eq-ok
        (raise_if (is_blank b.engine_version) (value_error "engine_version must not be empty.")) _
        h3 in
    let (a5, h5) =
      >>-eq-ok (raise_if (is_naive b.created_at) (value_error "created_at must be timezone-aware."))
        _ h4 in
    let (a6, h6) =
      >>-eq-ok
        (raise_if (not (is_distinct (artifact_ids b.artifacts)))
          (value_error "artifact IDs must be unique."))
        (check_all_provenance b.artifacts b.artifacts) h5 in
    let distinct = raise_if-eq-ok (not (is_distinct (artifact_ids b.artifacts))) _ a6 in
    (ground arith, h6)

-- In a bundle that passes its validation, an artifact derived from another, in one step or through
-- any number of artifacts, and the artifact it is derived from are both in the bundle at known
-- sensitivities, and the derived one's is at least as high.
pub derivation_keeps_sensitivity :
    (b : OperationalBundle) (x y : String)
    → check_bundle b ≡ ok tt
    → DerivesFrom b.artifacts x y
    → (high low : Sensitivity) × HasLevel b.artifacts x high
      × HasLevel b.artifacts y low
      × (rank low ≤ rank high)
derivation_keeps_sensitivity b x y h (direct item source m s) =
    let (distinct, all_checked) = check_bundle_parts b h in
    let (level, low, reads, has, le) =
      check_provenance-le b.artifacts item source
        (check_all-HasArtifact b.artifacts b.artifacts item all_checked m) s in
    (
      level,
      low,
      record {
        text = item.sensitivity;
        found = find-HasArtifact item b.artifacts distinct m;
        reads = reads;
      },
      has,
      le,
    )
derivation_keeps_sensitivity b x z h (through {y = y} p q) =
    let (high, mid, a1, a2, le1) = derivation_keeps_sensitivity b x y h p in
    let (mid2, low, b1, b2, le2) = derivation_keeps_sensitivity b y z h q in
    let same : mid2 ≡ mid = HasLevel-unique b.artifacts y mid2 mid b1 a2 in
    let le3 : rank low ≤ rank mid = subst (λ l. rank low ≤ rank l) same le2 in
    (high, low, a1, b2, omega arith)
