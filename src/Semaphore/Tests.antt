-- ===== src/Semaphore/Tests.antt =====
-- Thread 4 reads, then waits on a semaphore that begins at its limit of 3.

use nv0ken_linux.Prelude.Int.{pos}
use nv0ken_linux.Semaphore.{
  init, System, start, moves, waiting, Reaches, stays, then_step, reads_to_wait,
}
use nv0ken_linux.Semaphore.Steps.{Sound, Reaches-Sound}

abbrev looking : System
looking = moves (start (pos 9) (pos 3)) 4 (waiting (init (pos 9) (pos 3)).count)

waited : Reaches (start (pos 9) (pos 3)) looking
waited = then_step stays (reads_to_wait 4)

Reaches-Sound_example : Sound (pos 9) (pos 3) looking
Reaches-Sound_example = Reaches-Sound (pos 9) (pos 3) waited
