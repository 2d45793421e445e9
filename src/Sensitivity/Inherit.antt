-- ===== src/Sensitivity/Inherit.antt =====
-- An inherited sensitivity covers its sources.
use state_wake.Base.{
  subst, ℕ, ◌≤◌, String, ◌≡◌, ◌⊎◌, refl, sym, ap, ◌∙◌, inl, inr, ltb, Bool-cases, false, Option,
  none, some, List, [], ◌∷◌, ok, >>=-eq-ok, >>-eq-ok, raise_if, raise_if-eq-ok, value_error, is_nil,
  arith,
}
use state_wake.Sensitivity.{
  Sensitivity, rank, validate_sensitivity, validate_all, max_from, max_level, requested_level,
  inherit_sensitivity,
}

-- every text of the list reads as a level of rank `n` at most
abbrev pub AllWithin : ℕ → List String → Type 0
AllWithin n [] = Unit
AllWithin n (s ∷ rest) =
    ((level : Sensitivity) × (validate_sensitivity "source sensitivity" s ≡ ok level)
      × (rank level ≤ n))
    × AllWithin n rest

-- some text of the list reads as the level
abbrev pub Attains : Sensitivity → List String → Type 0
Attains level [] = ⊥
Attains level (s ∷ rest) =
    (validate_sensitivity "source sensitivity" s ≡ ok level) ⊎ Attains level rest

max_from-le :
    (best : Sensitivity) (levels : List Sensitivity) → rank best ≤ rank (max_from best levels)
unfolding max_from
max_from-le best [] = omega arith
max_from-le best (s ∷ rest) = ground (arith, max_from-le best rest, max_from-le s rest)

max_from-nil : (best : Sensitivity) → max_from best [] ≡ best
unfolding max_from
max_from-nil best = refl

-- what the loop over the sources returns on a nonempty list
validate_all-cons :
    (t : String) (texts : List String) (levels : List Sensitivity)
    → validate_all (t ∷ texts) ≡ ok levels
    → (level : Sensitivity) × (rest : List Sensitivity) × (validate_sensitivity "source sensitivity"
          t
        ≡ ok level)
      × (validate_all texts ≡ ok rest)
      × (levels ≡ level ∷ rest)
unfolding validate_all
validate_all-cons t texts levels h =
    let (level, e, h') = >>=-eq-ok (validate_sensitivity "source sensitivity" t) _ h in
    let (rest, e', h'') = >>=-eq-ok (validate_all texts) _ h' in (level, rest, e, e', cc)

-- the largest of a nonempty list goes on from one of its first two
max_from-cons :
    (best level : Sensitivity) (rest : List Sensitivity)
    → (max_from best (level ∷ rest) ≡ max_from level rest)
      ⊎ (max_from best (level ∷ rest) ≡ max_from best rest)
unfolding max_from
max_from-cons best level rest = elim (Bool-cases (ltb (rank best) (rank level))) [
  | inl bigger ↦ inl (rw bigger refl)
  | inr smaller ↦ inr (rw smaller refl)
]

max_from-le-cons :
    (best level : Sensitivity) (rest : List Sensitivity)
    → rank level ≤ rank (max_from best (level ∷ rest))
unfolding max_from
max_from-le-cons best level rest = ground (arith, max_from-le level rest, max_from-le best rest)

AllWithin-max_from :
    (texts : List String) (levels : List Sensitivity) (best : Sensitivity)
    → validate_all texts ≡ ok levels
    → AllWithin (rank (max_from best levels)) texts
AllWithin-max_from [] levels best h = tt
AllWithin-max_from (t ∷ texts) levels best h =
    let (level, rest, e, e', same) = validate_all-cons t texts levels h in
    let top = max_from best (level ∷ rest) in
    let within : AllWithin (rank top) texts = elim (max_from-cons best level rest) [
      | inl it ↦
          subst (λ s. AllWithin (rank s) texts) (sym it) (AllWithin-max_from texts rest level e')
      | inr it ↦
          subst (λ s. AllWithin (rank s) texts) (sym it) (AllWithin-max_from texts rest best e')
    ] in
    subst (λ ls. AllWithin (rank (max_from best ls)) (t ∷ texts)) (sym same)
      ((level, e, max_from-le-cons best level rest), within)

Attains-max_from :
    (texts : List String) (levels : List Sensitivity) (best : Sensitivity)
    → validate_all texts ≡ ok levels
    → (max_from best levels ≡ best) ⊎ Attains (max_from best levels) texts
unfolding validate_all
Attains-max_from [] levels best h =
    let same : levels ≡ [] = cc in
    subst (λ ls. (max_from best ls ≡ best) ⊎ Attains (max_from best ls) []) (sym same)
      (inl (max_from-nil best))
Attains-max_from (t ∷ texts) levels best h =
    let (level, rest, e, e', same) = validate_all-cons t texts levels h in
    subst (λ ls. (max_from best ls ≡ best) ⊎ Attains (max_from best ls) (t ∷ texts)) (sym same)
      (elim (max_from-cons best level rest) [
        | inl it ↦ elim (Attains-max_from texts rest level e') [
          | inl its ↦ inr (inl (e ∙ ap ok (sym (it ∙ its))))
          | inr later ↦ inr (inr (subst (λ s. Attains s texts) (sym it) later))
        ]
        | inr it ↦ elim (Attains-max_from texts rest best e') [
          | inl its ↦ inl (it ∙ its)
          | inr later ↦ inr (inr (subst (λ s. Attains s texts) (sym it) later))
        ]
      ])

-- the largest of a nonempty list of sources covers it and is attained
max_level-covers :
    (sources : List String) (levels : List Sensitivity)
    → is_nil sources ≡ false
    → validate_all sources ≡ ok levels
    → AllWithin (rank (max_level levels)) sources × Attains (max_level levels) sources
unfolding max_level
max_level-covers [] levels n h = cc
max_level-covers (t ∷ texts) levels n h =
    let (level, rest, e, e', same) = validate_all-cons t texts levels h in
    let attained : Attains (max_level (level ∷ rest)) (t ∷ texts) =
      elim (Attains-max_from texts rest level e') [
        | inl it ↦ inl (e ∙ ap ok (sym it))
        | inr later ↦ inr later
      ] in
    subst (λ ls. AllWithin (rank (max_level ls)) (t ∷ texts) × Attains (max_level ls) (t ∷ texts))
      (sym same)
      (((level, e, max_from-le level rest), AllWithin-max_from texts rest level e'), attained)

AllWithin-mono : (m n : ℕ) (texts : List String) → m ≤ n → AllWithin m texts → AllWithin n texts
AllWithin-mono m n [] le w = tt
AllWithin-mono m n (t ∷ texts) le ((level, e, l), w) =
    ((level, e, omega arith), AllWithin-mono m n texts le w)

-- what `requested_level` returns without approval
requested_level-le :
    (inherited : Sensitivity) (requested : Option String) (level : Sensitivity)
    → requested_level inherited requested false ≡ ok level
    → (rank inherited ≤ rank level) × ((requested ≡ none) → level ≡ inherited)
unfolding requested_level
requested_level-le inherited none level h =
    let same : inherited ≡ level = cc in (rw same (omega arith), λ _. sym same)
requested_level-le inherited (some r) level h =
    let (l, e, h') = >>=-eq-ok (validate_sensitivity "requested_sensitivity" r) _ h in
    (ground arith, λ n. cc)

-- Without an approved downgrade, an inherited sensitivity that is returned is at least as high as
-- that of every source, each of which is a known level; with none requested, it is also the
-- sensitivity of one of the sources.
pub inherit_sensitivity_covers :
    (sources : List String) (requested : Option String) (level : Sensitivity)
    → inherit_sensitivity sources requested false ≡ ok level
    → AllWithin (rank level) sources × ((requested ≡ none) → Attains level sources)
unfolding inherit_sensitivity
inherit_sensitivity_covers sources requested level h =
    let (n, h1) =
      >>-eq-ok (raise_if (is_nil sources) (value_error "source_sensitivities must not be empty.")) _
        h in
    let (levels, e, h2) = >>=-eq-ok (validate_all sources) _ h1 in
    let (within, attained) =
      max_level-covers sources levels (raise_if-eq-ok (is_nil sources) _ n) e in
    let (le, same) = requested_level-le (max_level levels) requested level h2 in
    (
      AllWithin-mono _ _ sources le within,
      λ none_asked. subst (λ s. Attains s sources) (sym (same none_asked)) attained,
    )
