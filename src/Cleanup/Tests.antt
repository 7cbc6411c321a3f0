-- ===== src/Cleanup/Tests.antt =====
-- Concrete runs of the theorems on cleanup hooks and instance data.
use napi.Prelude.{◌≤◌, ◌≡◌, true, none, some, List, [], ◌∷◌, arith, length}
use napi.Cleanup.{Hook, run_cleanup_hooks}
use napi.Cleanup.Hooks.{run-ends}

abbrev three_hooks : List Hook
three_hooks =
    record { hook = 1; arg = none }
    ∷ record { hook = 2; arg = some 5 }
    ∷ record { hook = 1; arg = some 6 }
    ∷ []

-- Hook 1 unregisters the oldest hook that is left.
abbrev drops : Hook → List Hook → List Hook
drops h [] = []
drops h (g ∷ hs) = hs

drops-length : (h : Hook) (hs : List Hook) → length (drops h hs) ≤ length hs
drops-length h [] = omega arith
drops-length h (g ∷ hs) = omega arith

run-ends_example :
    let r = run_cleanup_hooks 4 drops three_hooks in (r.0 ≡ true) × (r.1 ≡ []) × (length r.2 ≤ 3)
run-ends_example = run-ends 4 drops three_hooks drops-length (omega arith)
