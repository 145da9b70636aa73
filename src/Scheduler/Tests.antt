-- ===== src/Scheduler/Tests.antt =====
-- Three threads in the queue, 1 before 2 before 3; thread 2 runs and thread 3 is blocked.
use nv0ken_linux.Prelude.{
  ℕ, ◌≡◌, refl, arith, [], ◌∷◌, ◌==◌, if◌then◌else◌, Option, none, some, inr,
}
use nv0ken_linux.Prelude.Int.{pos}
use nv0ken_linux.Scheduler.{
  Thread, ThreadState, thread_ready, thread_running, thread_blocked, thread_new, Scheduler,
  thread_create, init, is_runnable, run, add, remove, pick_next, pick_from, yield, runnable_count,
}
use nv0ken_linux.Scheduler.Queues.{Chain}
use nv0ken_linux.Scheduler.Picks.{pick_next_lem, first_runnable}
use nv0ken_linux.Scheduler.Adds.{add_lem}
use nv0ken_linux.Scheduler.Removes.{remove_lem}

abbrev thread : ℕ → ThreadState → ℕ → Thread
thread tid state next = record {
  tid = tid;
  process_id = 1;
  state = state;
  stack_top = 0;
  instruction_pointer = 0;
  exit_code = pos 0;
  wake_tick = 0;
  next = next;
}

abbrev sample : Scheduler
sample = record {
  threads = λ (a : ℕ).
      if a == 1
      then thread 1 thread_ready 2
      else if a == 2
      then thread 2 thread_running 3
      else if a == 3
      then thread 3 thread_blocked 0
      else thread a thread_new 0;
  run_queue = 1;
  current_thread = 2;
}

sample-Chain : Chain sample.threads 1 (1 ∷ 2 ∷ 3 ∷ [])
sample-Chain =
    (refl, (λ e. omega arith), (refl, (λ e. omega arith), (refl, (λ e. omega arith), refl)))

count_runs : runnable_count 4 sample.threads 1 ≡ some 2
unfolding runnable_count is_runnable
count_runs = refl

created_runs :
    (thread_create (some 9) 7 sample.threads 1 4096 8192).1 9
    ≡ record (thread 7 thread_new 0) { stack_top = 8192; instruction_pointer = 4096 }
unfolding thread_create
created_runs = refl

init_runs : (init sample).run_queue ≡ 0
unfolding init
init_runs = refl

abbrev after_yield : Option ℕ
unfolding yield pick_next pick_from is_runnable
after_yield = elim (yield 3 sample) [ none ↦ none | some s ↦ some s.current_thread ]

yield_runs : after_yield ≡ some 1
unfolding yield pick_next pick_from is_runnable
yield_runs = refl

pick_next_lem_example : pick_next 3 sample ≡ some (run sample 1, 1)
unfolding first_runnable is_runnable
pick_next_lem_example =
    pick_next_lem 3 sample (1 ∷ 2 ∷ []) (3 ∷ []) sample-Chain
      (inr (1 ∷ [], refl, (λ e. omega arith))) (omega arith)

add_lem_example :
    (r : Scheduler) × (add 3 sample 4 ≡ some r)
    × Chain r.threads r.run_queue (1 ∷ 2 ∷ 3 ∷ 4 ∷ [])
    × ((r.threads 4).state ≡ thread_ready)
add_lem_example =
    add_lem 3 sample 4 (1 ∷ 2 ∷ 3 ∷ []) sample-Chain (λ e. omega arith)
      ((λ e. omega arith), ((λ e. omega arith), ((λ e. omega arith), tt))) (omega arith)

remove_lem_example :
    (r : Scheduler) × (remove 2 sample 2 ≡ some r)
    × Chain r.threads r.run_queue (1 ∷ 3 ∷ [])
    × ((r.threads 2).next ≡ 0)
    × (r.current_thread ≡ 0)
remove_lem_example = remove_lem 2 sample (1 ∷ []) 2 (3 ∷ []) sample-Chain (omega arith)
