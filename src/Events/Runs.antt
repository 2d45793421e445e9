-- ===== src/Events/Runs.antt =====
-- What a valid run is, and that a writer who counts keeps it valid.
use state_wake.Base.{ℕ, suc, ◌≡◌, List, [], ◌∷◌}
use state_wake.Events.{EventEnvelope}

-- the events count up by one from the number
abbrev pub Counts : ℕ → List EventEnvelope → Type 0
Counts n [] = Unit
Counts n (e ∷ rest) = (e.sequence ≡ n) × Counts (suc n) rest
