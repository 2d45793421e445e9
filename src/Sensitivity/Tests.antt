-- ===== src/Sensitivity/Tests.antt =====
-- The inherited sensitivity of an internal, a restricted and a public source.
use state_wake.Base.{String, ◌≡◌, refl, false, Option, none, List, [], ◌∷◌, ok}
use state_wake.Sensitivity.{restricted, validate_all, max_level, inherit_sensitivity}
use state_wake.Sensitivity.Inherit.{AllWithin, Attains, inherit_sensitivity_covers}

abbrev sources : List String
sources = "internal" ∷ "restricted" ∷ "public" ∷ []

abbrev nothing_asked : Option String
nothing_asked = none

inherited : inherit_sensitivity sources none false ≡ ok restricted
unfolding inherit_sensitivity validate_all max_level
inherited = refl

inherit_sensitivity_covers_example :
    AllWithin 3 sources × ((nothing_asked ≡ none) → Attains restricted sources)
inherit_sensitivity_covers_example = inherit_sensitivity_covers sources none restricted inherited
