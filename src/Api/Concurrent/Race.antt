-- ===== src/Api/Concurrent/Race.antt =====
-- Two copies that look for the same new association.
use dawn_patrol.Prelude.{Bool, true, false, List, ◌∷◌}

-- The two copies look for the association, and then both create it.
abbrev pub both_look : List Bool → List Bool
both_look turns = true ∷ false ∷ true ∷ false ∷ turns
