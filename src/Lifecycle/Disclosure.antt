-- ===== src/Lifecycle/Disclosure.antt =====
-- Which identifiers are disclosed.
use state_wake.Base.{
  sym, ℕ, ◌≤◌, String, ◌≡◌, ◌⊎◌, inl, inr, ◌↔◌, Bool, true, false, List, [], ◌∷◌, elem, elem-sorted,
  eq_iff, ok, >>=-eq-ok, >>-eq-ok, raise_if, value_error, is_blank, arith, leb, sorted,
  if◌then◌else◌,
}
use state_wake.Sensitivity.{Sensitivity, rank, validate_sensitivity}
use state_wake.Lifecycle.{disclosable, filter_disclosable_ids}

-- the list has the object, at a sensitivity that is a level of rank `n` at most
abbrev pub HasWithin : ℕ → String → List (String × String) → Type 0
HasWithin n object_id [] = ⊥
HasWithin n object_id ((id, sensitivity) ∷ rest) =
    ((id ≡ object_id)
      × ((level : Sensitivity) × (validate_sensitivity "object sensitivity" sensitivity ≡ ok level)
          × (rank level ≤ n)))
    ⊎ HasWithin n object_id rest

disclosable_iff :
    (n : ℕ) (objects : List (String × String)) (ids : List String) (x : String)
    → disclosable n objects ≡ ok ids
    → (elem x ids ≡ true) ↔ HasWithin n x objects
unfolding disclosable
disclosable_iff n [] ids x h = let same : ids ≡ [] = cc in (λ e. cc, λ p. absurd p)
disclosable_iff n ((id, sensitivity) ∷ rest) ids x h =
    let (a, h1) =
      >>-eq-ok (raise_if (is_blank id) (value_error "object identifiers must not be empty.")) _ h in
    let (level, e, h2) = >>=-eq-ok (validate_sensitivity "object sensitivity" sensitivity) _ h1 in
    let (selected, e', h3) = >>=-eq-ok (disclosable n rest) _ h2 in
    let later = disclosable_iff n rest selected x e' in
    let same : ids ≡ (if leb (rank level) n then id ∷ selected else selected) = cc in
    (
      λ m. elim (selected_cases id selected (leb (rank level) n) x ids same m) [
        | inl (is_it, within) ↦ inl (is_it, (level, e, ground arith))
        | inr there ↦ inr (later.0 there)
      ],
      λ p. elim p [
        | inl (is_it, (other, e2, le)) ↦
            let one : other ≡ level = cc in
            let le' : rank level ≤ n = rw (sym one) le in ground (arith, eq_iff id x)
        | inr there ↦ let m = later.1 there in ground arith
      ],
    )
  where
    selected_cases :
        (id : String) (selected : List String) (b : Bool) (x : String) (ids : List String)
        → ids ≡ (if b then id ∷ selected else selected)
        → elem x ids ≡ true
        → ((id ≡ x) × (b ≡ true)) ⊎ (elem x selected ≡ true)
    selected_cases id selected true x ids s m = ground (arith, eq_iff id x)
    selected_cases id selected false x ids s m = inr (ground arith)

-- A disclosure list that is returned for a ceiling has exactly the identifiers of the objects whose
-- sensitivity is a known level at or below the ceiling, itself a known level.
pub filter_disclosable_ids_iff :
    (objects : List (String × String)) (max_sensitivity x : String) (ids : List String)
    → filter_disclosable_ids objects max_sensitivity ≡ ok ids
    → (ceiling : Sensitivity) × (validate_sensitivity "max_sensitivity" max_sensitivity
        ≡ ok ceiling)
      × ((elem x ids ≡ true) ↔ HasWithin (rank ceiling) x objects)
unfolding filter_disclosable_ids
filter_disclosable_ids_iff objects max_sensitivity x ids h =
    let (ceiling, e, h1) = >>=-eq-ok (validate_sensitivity "max_sensitivity" max_sensitivity) _ h in
    let (selected, e', h2) = >>=-eq-ok (disclosable (rank ceiling) objects) _ h1 in
    let same : ids ≡ sorted selected = cc in
    let members = disclosable_iff (rank ceiling) objects selected x e' in
    (
      ceiling,
      e,
      (
        λ m. members.0 (ground (arith, elem-sorted x selected)),
        λ p. let m = members.1 p in ground (arith, elem-sorted x selected),
      ),
    )
