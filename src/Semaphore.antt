-- ===== src/Semaphore.antt =====
-- kernel/ipc/semaphore.c: the counting semaphore, call by call and with its compare-and-swap loops
-- interleaved.
pub mod Steps
mod Tests
use nv0ken_linux.Prelude.{ℕ, ◌+◌, ◌≡◌, Bool, true, false, not, ◌==◌, if◌then◌else◌}
use nv0ken_linux.Prelude.Int.{ℤ, pos, negsuc, ◌+ℤ◌, ◌-ℤ◌, ltb_ℤ}

pub record Semaphore : Type 0 where
  pub count : ℤ
  pub limit : ℤ

unfoldable pub init : ℤ → ℤ → Semaphore
init initial limit =
    let most = if ltb_ℤ (pos 0) limit then limit else pos 1 in
    let some_left = if ltb_ℤ initial (pos 0) then pos 0 else initial in
    record { count = if ltb_ℤ most some_left then most else some_left; limit = most }

-- The test before each swap, on the count that the loop has read.
abbrev pub may_wait : ℤ → Bool
may_wait seen = ltb_ℤ (pos 0) seen

abbrev pub may_post : ℤ → ℤ → Bool
may_post limit seen = ltb_ℤ seen limit

-- A call that nobody interrupts: its first swap succeeds.
unfoldable pub try_wait : Semaphore → Bool × Semaphore
try_wait s = if may_wait s.count then (true, record s { count = s.count -ℤ pos 1 }) else (false, s)

unfoldable pub post : Semaphore → Bool × Semaphore
post s =
    if may_post s.limit s.count then (true, record s { count = s.count +ℤ pos 1 }) else (false, s)

-- Where a thread stands: outside, or behind the reading of the count in one of the two loops.
pub data Phase : Type 0 where
  outside : Phase
  waiting posting : ℤ → Phase

-- `waits` and `posts` count the calls that returned true.
pub record System : Type 0 where
  pub semaphore : Semaphore
  pub phase : ℕ → Phase
  pub waits : ℕ
  pub posts : ℕ

abbrev pub start : ℤ → ℤ → System
start initial limit = record {
  semaphore = init initial limit;
  phase = λ t. outside;
  waits = 0;
  posts = 0;
}

abbrev pub moves : System → ℕ → Phase → System
moves s t p = record s { phase = λ u. if u == t then p else s.phase u }

-- One step of thread `t`. A swap succeeds where the count is still the one that the thread has seen;
-- otherwise the loop reads again. A read is allowed in any phase, which is more than the code does.
pub data Step (s : System) : System → Type 0 where
  reads_to_wait : (t : ℕ) → Step s (moves s t (waiting s.semaphore.count))
  reads_to_post : (t : ℕ) → Step s (moves s t (posting s.semaphore.count))
  swaps_wait :
      (t : ℕ) (seen : ℤ)
      → s.phase t ≡ waiting seen
      → may_wait seen ≡ true
      → seen ≡ s.semaphore.count
      → Step s (record (moves s t outside) {
        semaphore = record s.semaphore { count = seen -ℤ pos 1 };
        waits = s.waits + 1;
      })
  swaps_post :
      (t : ℕ) (seen : ℤ)
      → s.phase t ≡ posting seen
      → may_post s.semaphore.limit seen ≡ true
      → seen ≡ s.semaphore.count
      → Step s (record (moves s t outside) {
        semaphore = record s.semaphore { count = seen +ℤ pos 1 };
        posts = s.posts + 1;
      })
  refuses_wait :
      (t : ℕ) (seen : ℤ)
      → s.phase t ≡ waiting seen
      → may_wait seen ≡ false
      → Step s (moves s t outside)
  refuses_post :
      (t : ℕ) (seen : ℤ)
      → s.phase t ≡ posting seen
      → may_post s.semaphore.limit seen ≡ false
      → Step s (moves s t outside)

-- Any number of steps of any threads.
pub data Reaches (s : System) : System → Type 0 where
  stays : Reaches s s
  then_step : {u v : System} → Reaches s u → Step u v → Reaches s v
