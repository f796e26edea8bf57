-- ===== src/Assignments.antt =====
-- src/lib/execution-capacity.ts: the assignments that a user selects for a run. Ids are numbers.
pub mod Selection
mod Witnesses
use hack_the_north.Common.{
  ℕ, Bool, true, false, not, ◌&&◌, ◌||◌, List, [], ◌∷◌, ◌++◌, ◌==◌, leb, if◌then◌else◌, length, any,
  keep,
}

abbrev pub max_assignments_per_run : ℕ
max_assignments_per_run = 8

unfoldable pub has_run_capacity : List ℕ → Bool
has_run_capacity ids = leb 1 (length ids) && leb (length ids) max_assignments_per_run

abbrev pub includes : ℕ → List ℕ → Bool
includes id ids = any (λ x. x == id) ids

unfoldable pub select_run_assignment : List ℕ → ℕ → (selected : Bool) → List ℕ
select_run_assignment current id selected =
    if not selected
    then keep (λ x. not (x == id)) current
    else if includes id current || leb max_assignments_per_run (length current)
    then current
    else current ++ (id ∷ [])
