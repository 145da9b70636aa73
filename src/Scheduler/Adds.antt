-- ===== src/Scheduler/Adds.antt =====
-- kernel/proc/scheduler.c: `scheduler_add` on the list of the queue.
use nv0ken_linux.Prelude.{
  ℕ, zero, suc, ◌≤◌, ◌<◌, ◌≡◌, ◌≢◌, refl, sym, ap, ◌∙◌, subst, arith, Bool, true, false, List, [],
  ◌∷◌, ◌++◌, ◌==◌, if◌then◌else◌, length, Option, none, some, eq→==, ne→==,
}
use nv0ken_linux.Scheduler.{
  Thread, Threads, thread_ready, Scheduler, put, set_state, set_next, last_from, add,
}
use nv0ken_linux.Scheduler.Queues.{Chain, Avoids, Chain-put, Chain-set_next, put_same, put_other}

-- The walk to the last thread, and the queue with a thread behind it.
Appended : ℕ → Threads → ℕ → List ℕ → ℕ → Type 0
Appended fuel threads p qs t =
    (l : ℕ) × (last_from fuel threads p ≡ some l)
    × (l ≢ t)
    × ((threads l).next ≡ 0)
    × Chain (set_next threads l t) p (qs ++ t ∷ [])

last_from-Appended :
    (fuel : ℕ) (threads : Threads) (p q : ℕ) (qs : List ℕ) (t : ℕ)
    → Chain threads p (q ∷ qs)
    → Avoids t (q ∷ qs)
    → t ≢ 0
    → (threads t).next ≡ 0
    → length qs < fuel
    → Appended fuel threads p (q ∷ qs) t
unfolding last_from Appended
last_from-Appended zero threads p q qs t h a n e l = absurd (omega arith)
last_from-Appended (suc fuel) threads p q [] t h a n e l = (
  p,
  rw (eq→== (threads p).next 0 ended) refl,
  subst (λ (x : ℕ). x ≢ t) (sym h.0) a.0,
  ended,
  (
    h.0,
    h.1,
    (
      next,
      n,
      ap (λ (x : Thread). x.next)
            (put_other threads p t (record (threads p) { next = t }) (λ r. a.0 (sym h.0 ∙ sym r)))
          ∙ e,
    ),
  ),
)
  where
    ended : (threads p).next ≡ 0
    ended = ap (λ (x : ℕ). (threads x).next) h.0 ∙ h.2

    next : (set_next threads p t q).next ≡ t
    next =
        ap (λ (x : ℕ). (set_next threads p t x).next) (sym h.0)
        ∙ ap (λ (x : Thread). x.next) (put_same threads p (record (threads p) { next = t }))
last_from-Appended (suc fuel) threads p q (z ∷ qs) t h a n e l =
    extend (last_from-Appended fuel threads (threads q).next z qs t h.2 a.1 n e (omega arith))
  where
    extend :
        Appended fuel threads (threads q).next (z ∷ qs) t
        → Appended (suc fuel) threads p (q ∷ z ∷ qs) t
    extend (x, walk, other, ended, chain) = (
      x,
      rw (ne→== (threads p).next 0 going)
          (ap (λ (y : ℕ). last_from fuel threads (threads y).next) h.0 ∙ walk),
      other,
      ended,
      (
        h.0,
        h.1,
        subst (λ (y : Thread). Chain (set_next threads x t) y.next (z ∷ qs ++ t ∷ []))
            (sym (put_other threads x q (record (threads x) { next = t }) apart)) chain,
      ),
    )
      where
        going : (threads p).next ≢ 0
        going r = h.2.1 (sym h.2.0 ∙ sym (ap (λ (y : ℕ). (threads y).next) h.0) ∙ r)

        apart : q ≢ x
        apart r = h.2.1 (sym h.2.0 ∙ ap (λ (y : ℕ). (threads y).next) r ∙ ended)

-- `scheduler_add` of a thread that is not in the queue returns, with enough rounds to walk it. The
-- thread stands at the end of the queue, ready, and the order of the others is kept.
pub add_lem :
    (fuel : ℕ) (s : Scheduler) (t : ℕ) (ps : List ℕ)
    → Chain s.threads s.run_queue ps
    → t ≢ 0
    → Avoids t ps
    → length ps ≤ fuel
    → (r : Scheduler) × (add fuel s t ≡ some r)
      × Chain r.threads r.run_queue (ps ++ t ∷ [])
      × ((r.threads t).state ≡ thread_ready)
unfolding add Appended
add_lem fuel s t ps h n a l =
    go ps
      (Chain-set_next made t 0 s.run_queue ps a (Chain-put s.threads t ready s.run_queue ps a h)) a
      l
  where
    ready : Thread
    ready = record (s.threads t) { state = thread_ready }

    made : Threads
    made = put s.threads t ready

    alone : Threads
    alone = set_next made t 0

    written : set_next (set_state s.threads t thread_ready) t 0 ≡ alone
    written = ap (λ (b : Bool). set_next (if b then s.threads else made) t 0) (ne→== t 0 n)

    fresh : alone t ≡ record ready { next = 0 }
    fresh =
        put_same made t (record (made t) { next = 0 })
        ∙ ap (λ (x : Thread). record x { next = 0 }) (put_same s.threads t ready)

    adds : Threads → Bool → Bool → Option Scheduler
    adds threads null empty =
        if null
        then some s
        else if empty
        then some (record s { threads = threads; run_queue = t })
        else elim (last_from fuel threads s.run_queue) [
          | none ↦ none
          | some tail ↦ some (record s { threads = set_next threads tail t })
        ]

    added : (empty : Bool) → (s.run_queue == 0) ≡ empty → add fuel s t ≡ adds alone false empty
    added empty e =
        ap (λ (b : Bool). adds (set_next (set_state s.threads t thread_ready) t 0) (t == 0) b) e
        ∙ ap (λ (b : Bool). adds (set_next (set_state s.threads t thread_ready) t 0) b empty)
            (ne→== t 0 n)
        ∙ ap (λ (threads : Threads). adds threads false empty) written

    go :
        (qs : List ℕ)
        → Chain alone s.run_queue qs
        → Avoids t qs
        → length qs ≤ fuel
        → (r : Scheduler) × (add fuel s t ≡ some r)
          × Chain r.threads r.run_queue (qs ++ t ∷ [])
          × ((r.threads t).state ≡ thread_ready)
    go [] c a l = (
      record s { threads = alone; run_queue = t },
      added true (eq→== s.run_queue 0 c),
      (refl, n, ap (λ (x : Thread). x.next) fresh),
      ap (λ (x : Thread). x.state) fresh,
    )
    go (q ∷ qs) c a l = behind (
        last_from-Appended fuel alone s.run_queue q qs t c a n (ap (λ (x : Thread). x.next) fresh)
          (omega arith))
      where
        behind :
            Appended fuel alone s.run_queue (q ∷ qs) t
            → (r : Scheduler) × (add fuel s t ≡ some r)
              × Chain r.threads r.run_queue ((q ∷ qs) ++ t ∷ [])
              × ((r.threads t).state ≡ thread_ready)
        behind (x, walk, other, ended, chain) = (
          record s { threads = set_next alone x t },
          added false (ne→== s.run_queue 0 (λ e. c.1 (sym c.0 ∙ e))) ∙ rw walk refl,
          chain,
          ap (λ (y : Thread). y.state)
              (put_other alone x t (record (alone x) { next = t }) (λ e. other (sym e)) ∙ fresh),
        )
