-- ===== src/Core/Hlc/Tests.antt =====
-- A clock that two threads and a remote peer use.
use crates.Prelude.{◌*◌, ◌^◌, ◌-◌, ◌<◌, ◌≡◌, refl, arith}
use crates.Prelude.{List, [], ◌∷◌}
use crates.Core.Hlc.{new, Access, attempted, observed, run}
use crates.Core.Hlc.Order.{IsIncreasing, run-IsIncreasing}

-- Both threads load 0. The second one loses the race, and tries again after a peer's timestamp.
abbrev race : List Access
race = attempted 1 0 ∷ attempted 1 0 ∷ observed (5 * 2 ^ 16) ∷ attempted 1 (5 * 2 ^ 16) ∷ []

race_issues : (run race new).1 ≡ 65_536 ∷ (327_681 ∷ [])
unfolding run
race_issues = refl

race_ends : (run race new).0.last ≡ 327_681
unfolding run
race_ends = refl

below_top : (run race new).0.last < 2 ^ 64 - 1
below_top = omega (arith, race_ends)

run-IsIncreasing_example : IsIncreasing 0 (run race new).1
run-IsIncreasing_example = run-IsIncreasing race new below_top
