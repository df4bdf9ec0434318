-- ===== src/Common/Monotone.antt =====
-- Strictly ascending lists of numbers.
use Prim.Native.Nat.{ℕ, ◌<◌}
use mathlib.Core.List.{List, [], ◌∷◌}
use cue_api.Common.Lists.{All}

-- Each number is below all that follow it.
abbrev pub Ascending : List ℕ → Type 0
Ascending [] = Unit {0}
Ascending (x ∷ xs) = All (λ y. x < y) xs × Ascending xs
