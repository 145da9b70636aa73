-- ===== src/Scheduler.antt =====
-- kernel/proc/scheduler.c and kernel/proc/thread.c: threads, and the run queue that their `next`
-- pointers make. A pointer to a thread is a number, 0 for NULL; a function holds the threads.
pub mod Queues
pub mod Picks
pub mod Adds
pub mod Removes
mod Tests
use nv0ken_linux.Prelude.{
  ℕ, zero, suc, ◌+◌, ◌≤◌, ◌≡◌, Bool, true, false, not, ◌&&◌, List, [], ◌∷◌, ◌==◌, if◌then◌else◌,
  Option, none, some,
}
use nv0ken_linux.Prelude.Int.{ℤ, pos}
use nv0ken_linux.Word.{add64}

pub data ThreadState : Type 0 where
  thread_new : ThreadState
  thread_ready : ThreadState
  thread_running : ThreadState
  thread_blocked : ThreadState
  thread_sleeping : ThreadState
  thread_exited : ThreadState

pub record Thread : Type 0 where
  pub tid : ℕ
  pub process_id : ℕ
  pub state : ThreadState
  pub stack_top : ℕ
  pub instruction_pointer : ℕ
  pub exit_code : ℤ
  pub wake_tick : ℕ
  pub next : ℕ

abbrev pub Threads : Type 0
Threads = ℕ → Thread

-- `*p = thread;`
abbrev pub put : Threads → ℕ → Thread → Threads
put threads p thread a = if a == p then thread else threads a

abbrev pub set_state : Threads → ℕ → ThreadState → Threads
set_state threads p state =
    if p == 0 then threads else put threads p (record (threads p) { state = state })

abbrev pub set_next : Threads → ℕ → ℕ → Threads
set_next threads p q = put threads p (record (threads p) { next = q })

-- `thread_create` with the memory that `kcalloc` gave: the next number, the threads, the result.
unfoldable pub thread_create : Option ℕ → ℕ → Threads → ℕ → ℕ → ℕ → ℕ × Threads × ℕ
thread_create none next_tid threads process_id entry stack_top = (next_tid, threads, 0)
thread_create (some p) next_tid threads process_id entry stack_top = (
  add64 next_tid 1,
  put threads p (record {
    tid = next_tid;
    process_id = process_id;
    state = thread_new;
    stack_top = stack_top;
    instruction_pointer = entry;
    exit_code = pos 0;
    wake_tick = 0;
    next = 0;
  }),
  p,
)

abbrev pub can_run : ThreadState → Bool
can_run thread_ready = true
can_run thread_running = true
can_run _ = false

unfoldable pub is_runnable : Threads → ℕ → Bool
is_runnable threads p = not (p == 0) && can_run (threads p).state

pub record Scheduler : Type 0 where
  pub threads : Threads
  pub run_queue : ℕ
  pub current_thread : ℕ

unfoldable pub init : Scheduler → Scheduler
init s = record s { run_queue = 0; current_thread = 0 }

-- The loops over the queue, on fuel; none when it runs out, as it does for a queue that is a circle.
-- `while (tail->next) tail = tail->next;`
unfoldable pub last_from : ℕ → Threads → ℕ → Option ℕ
last_from zero threads p = none
last_from (suc fuel) threads p =
    let rest = last_from fuel threads (threads p).next in
    if (threads p).next == 0 then some p else rest

unfoldable pub add : ℕ → Scheduler → ℕ → Option Scheduler
add fuel s t =
    let threads = set_next (set_state s.threads t thread_ready) t 0 in
    if t == 0
    then some s
    else if s.run_queue == 0
    then some (record s { threads = threads; run_queue = t })
    else elim (last_from fuel threads s.run_queue) [
      | none ↦ none
      | some tail ↦ some (record s { threads = set_next threads tail t })
    ]

-- `*cursor = q;` where the cursor is `run_queue`, or the `next` of a thread.
abbrev pub redirect : Option ℕ → ℕ → Scheduler → Scheduler
redirect none q s = record s { run_queue = q }
redirect (some p) q s = record s { threads = set_next s.threads p q }

abbrev pub unlink : Option ℕ → ℕ → Scheduler → Scheduler
unlink cursor t s =
    let r = redirect cursor (s.threads t).next s in
    record r {
      threads = set_next r.threads t 0;
      current_thread = if s.current_thread == t then 0 else s.current_thread;
    }

-- The loop of `scheduler_remove`; `p` is what stands at the cursor.
unfoldable pub remove_from : ℕ → Option ℕ → ℕ → Scheduler → ℕ → Option Scheduler
remove_from zero cursor p s t = none
remove_from (suc fuel) cursor p s t =
    let rest = remove_from fuel (some p) (s.threads p).next s t in
    if p == 0 then some s else if p == t then some (unlink cursor t s) else rest

unfoldable pub remove : ℕ → Scheduler → ℕ → Option Scheduler
unfolding remove_from
remove fuel s t = remove_from fuel none s.run_queue s t

-- A thread is made the current one.
abbrev pub run : Scheduler → ℕ → Scheduler
run s p = record s { threads = set_state s.threads p thread_running; current_thread = p }

-- `candidate->next ? candidate->next : run_queue`
abbrev pub following : Scheduler → ℕ → ℕ
following s p = if (s.threads p).next == 0 then s.run_queue else (s.threads p).next

-- The loop of `scheduler_pick_next`, with the pointer that it returns.
unfoldable pub pick_from : ℕ → Scheduler → ℕ → ℕ → Option (Scheduler × ℕ)
pick_from zero s start p = none
pick_from (suc fuel) s start p =
    let rest = pick_from fuel s start (following s p) in
    if is_runnable s.threads p
    then some (run s p, p)
    else if following s p == start
    then some (s, 0)
    else rest

unfoldable pub pick_next : ℕ → Scheduler → Option (Scheduler × ℕ)
unfolding pick_from
pick_next fuel s =
    let start = if s.current_thread == 0 then s.run_queue else following s s.current_thread in
    if s.run_queue == 0
    then some (record s { current_thread = 0 }, 0)
    else pick_from fuel s start start

abbrev pub is_running : ThreadState → Bool
is_running thread_running = true
is_running _ = false

unfoldable pub yield : ℕ → Scheduler → Option Scheduler
yield fuel s =
    let c = s.current_thread in
    let rested =
      if not (c == 0) && is_running (s.threads c).state
      then record s { threads = set_state s.threads c thread_ready }
      else s in
    elim (pick_next fuel rested) [ none ↦ none | some (r, p) ↦ some r ]

unfoldable pub runnable_count : ℕ → Threads → ℕ → Option ℕ
runnable_count zero threads p = none
runnable_count (suc fuel) threads p =
    let rest = runnable_count fuel threads (threads p).next in
    if p == 0
    then some 0
    else elim rest [ none ↦ none | some n ↦ some (if is_runnable threads p then n + 1 else n) ]
