-- ===== src/Prelude/Text.antt =====
-- `needle in text.lower()`, by which errors are told apart. Only A to Z are lowered: for the needles
-- of the program, none of which holds a `k`, Unicode's other lower-case forms make no difference.
use Prim.Native.Char.{code}
use Prim.Native.Nat.{ℕ, ◌+◌}
use Prim.Native.String.{String}
use mathlib.Core.Bool.{Bool, true, false, ◌&&◌, ◌||◌}
use mathlib.Core.List.{List, [], ◌∷◌, map}
use agent_task_platform.Prelude.Tests.{leb, nat_beq, if◌then◌else◌}

abbrev pub codes : String → List ℕ
codes String.[] = []
codes (String.◌∷◌ c s) = code c ∷ codes s

abbrev lower : ℕ → ℕ
lower c = if leb b'A' c && leb c b'Z' then c + 32 else c

begins : List ℕ → List ℕ → Bool
begins [] text = true
begins (c ∷ needle) [] = false
begins (c ∷ needle) (d ∷ text) = nat_beq c d && begins needle text

occurs : List ℕ → List ℕ → Bool
unfolding begins
occurs needle [] = begins needle []
occurs needle (d ∷ text) = begins needle (d ∷ text) || occurs needle text

unfoldable pub mentions : String → String → Bool
unfolding occurs
mentions needle text = occurs (codes needle) (map lower (codes text))

-- `needle in text`
unfoldable pub includes : String → String → Bool
unfolding occurs
includes needle text = occurs (codes needle) (codes text)
