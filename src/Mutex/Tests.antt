-- ===== src/Mutex/Tests.antt =====
-- Three lockings, and calls in disorder.
use nv0ken_linux.Prelude.{◌≡◌, true, [], ◌∷◌, some}
use nv0ken_linux.Mutex.{init, try_lock, lock, run, tries, unlocks, try_lock-run}

try_lock-run_example :
    ((try_lock (run (tries ∷ tries ∷ unlocks ∷ []) init)).0 ≡ true)
    × (lock (run (tries ∷ tries ∷ unlocks ∷ []) init)
        ≡ some (try_lock (run (tries ∷ tries ∷ unlocks ∷ []) init)).1)
try_lock-run_example = try_lock-run (tries ∷ tries ∷ unlocks ∷ [])
