-- ===== src/Signal/Tests.antt =====
-- Signals 2, 9 and 15 pending, 2 blocked.
use nv0ken_linux.Prelude.{◌≡◌, arith, false, [], ◌∷◌}
use nv0ken_linux.Prelude.Int.{pos}
use nv0ken_linux.Signal.{Signals, init}
use nv0ken_linux.Signal.Masks.{IsValid, is_blocked}
use nv0ken_linux.Signal.Delivery.{run, sends, blocks, takes, run-unblocked}

abbrev sample : Signals
sample = record { pending_mask = 33284; blocked_mask = 4; handlers = [] }

sample-IsValid : IsValid sample
sample-IsValid = record { small = omega arith }

run-unblocked_example :
    (is_blocked (run (blocks (pos 9) ∷ sends (pos 9) ∷ takes ∷ []) init) 9 ≡ false)
    × (is_blocked (run (blocks (pos 9) ∷ sends (pos 9) ∷ takes ∷ []) init) 19 ≡ false)
run-unblocked_example = run-unblocked (blocks (pos 9) ∷ sends (pos 9) ∷ takes ∷ [])
