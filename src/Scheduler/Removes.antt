-- ===== src/Scheduler/Removes.antt =====
-- kernel/proc/scheduler.c: `scheduler_remove` on the list of the queue.
use nv0ken_linux.Prelude.{
  ℕ, zero, suc, ◌+◌, ◌<◌, ◌≡◌, ◌≢◌, refl, sym, ap, ◌∙◌, subst, arith, List, [], ◌∷◌, ◌++◌, ◌==◌,
  if◌then◌else◌, length, length-append, Option, none, some, eq→==, ne→==,
}
use nv0ken_linux.Scheduler.{Thread, Threads, Scheduler, set_next, unlink, remove_from, remove}
use nv0ken_linux.Scheduler.Queues.{
  Chain, Chain-set_next, Chain-differs, Chain-Avoids, Chain-once, put_same, put_other,
}

-- The thread before the cursor after a walk over a list.
abbrev cursor_after : Option ℕ → List ℕ → Option ℕ
cursor_after cursor [] = cursor
cursor_after cursor (x ∷ xs) = cursor_after (some x) xs

remove_from-unlink :
    (fuel : ℕ) (cursor : Option ℕ) (p : ℕ) (s : Scheduler) (t : ℕ) (xs ys : List ℕ)
    → Chain s.threads p (xs ++ t ∷ ys)
    → length xs < fuel
    → remove_from fuel cursor p s t ≡ some (unlink (cursor_after cursor xs) t s)
unfolding remove_from
remove_from-unlink zero cursor p s t xs ys h l = absurd (omega arith)
remove_from-unlink (suc fuel) cursor p s t [] ys h l =
    rw (ne→== p 0 (λ e. h.1 (sym h.0 ∙ e)), eq→== p t h.0) refl
remove_from-unlink (suc fuel) cursor p s t (x ∷ xs) ys h l =
    rw (ne→== p 0 (λ e. h.1 (sym h.0 ∙ e)), ne→== p t (λ e. other (sym h.0 ∙ e)))
      (ap (λ (y : ℕ). remove_from fuel (some y) (s.threads y).next s t) h.0
        ∙ remove_from-unlink fuel (some x) (s.threads x).next s t xs ys h.2 (omega arith))
  where
    other : x ≢ t
    other = (Chain-once s.threads p (x ∷ xs) t ys h).0

-- The queue with a thread cut out: the thread before it points behind it.
abbrev Relinked : Threads → ℕ → ℕ → List ℕ → ℕ → List ℕ → Type 0
Relinked threads p x xs t ys =
    (l : ℕ) × (cursor_after (some x) xs ≡ some l)
    × Chain threads l (l ∷ t ∷ ys)
    × Chain (set_next threads l (threads t).next) p (x ∷ xs ++ ys)

relink :
    (threads : Threads) (p x : ℕ) (xs : List ℕ) (t : ℕ) (ys : List ℕ)
    → Chain threads p (x ∷ xs ++ t ∷ ys)
    → Relinked threads p x xs t ys
relink threads p x [] t ys h = (
  x,
  refl,
  (refl, h.1, h.2),
  (h.0, h.1, subst (λ (y : ℕ). Chain (set_next threads x (threads t).next) y ys) (sym next) rest),
)
  where
    next : (set_next threads x (threads t).next x).next ≡ (threads t).next
    next =
        ap (λ (y : Thread). y.next)
          (put_same threads x (record (threads x) { next = (threads t).next }))

    rest : Chain (set_next threads x (threads t).next) (threads t).next ys
    rest =
        Chain-set_next threads x (threads t).next (threads t).next ys
          (Chain-Avoids threads (threads t).next x ys (x ∷ t ∷ ys) h.2.2 (refl, h.1, h.2)
            (omega arith))
          h.2.2
relink threads p x (z ∷ xs) t ys h = extend (relink threads (threads x).next z xs t ys h.2)
  where
    extend : Relinked threads (threads x).next z xs t ys → Relinked threads p x (z ∷ xs) t ys
    extend (l, last, chain, relinked) = (
      l,
      last,
      chain,
      (
        h.0,
        h.1,
        subst (λ (y : Thread). Chain (set_next threads l (threads t).next) y.next (z ∷ xs ++ ys))
            (sym (put_other threads l x (record (threads l) { next = (threads t).next }) apart))
            relinked,
      ),
    )
      where
        longer :
            length (x ∷ z ∷ xs ++ t ∷ ys) ≡ length (l ∷ t ∷ ys)
            → length (xs ++ t ∷ ys) ≡ length xs + length (t ∷ ys)
            → ⊥
        longer e f = omega arith

        apart : x ≢ l
        apart =
            Chain-differs threads x l (x ∷ z ∷ xs ++ t ∷ ys) (l ∷ t ∷ ys) (refl, h.1, h.2) chain
              (λ e. longer e (length-append xs (t ∷ ys)))

-- `scheduler_remove` of a thread of the queue returns, with a round for each thread up to it. The
-- others stay in the queue in their order, the thread points nowhere, and it is no longer the current
-- one.
pub remove_lem :
    (fuel : ℕ) (s : Scheduler) (xs : List ℕ) (t : ℕ) (ys : List ℕ)
    → Chain s.threads s.run_queue (xs ++ t ∷ ys)
    → length xs < fuel
    → (r : Scheduler) × (remove fuel s t ≡ some r)
      × Chain r.threads r.run_queue (xs ++ ys)
      × ((r.threads t).next ≡ 0)
      × (r.current_thread ≡ (if s.current_thread == t then 0 else s.current_thread))
unfolding remove
remove_lem fuel s [] t ys h l = (
  unlink none t s,
  remove_from-unlink fuel none s.run_queue s t [] ys h l,
  Chain-set_next s.threads t 0 (s.threads t).next ys (Chain-once s.threads s.run_queue [] t ys h)
      h.2,
  ap (λ (y : Thread). y.next) (put_same s.threads t (record (s.threads t) { next = 0 })),
  refl,
)
remove_lem fuel s (x ∷ xs) t ys h l = cut (relink s.threads s.run_queue x xs t ys h)
  where
    cut :
        Relinked s.threads s.run_queue x xs t ys
        → (r : Scheduler) × (remove fuel s t ≡ some r)
          × Chain r.threads r.run_queue (x ∷ xs ++ ys)
          × ((r.threads t).next ≡ 0)
          × (r.current_thread ≡ (if s.current_thread == t then 0 else s.current_thread))
    cut (p, last, chain, relinked) = (
      unlink (some p) t s,
      remove_from-unlink fuel none s.run_queue s t (x ∷ xs) ys h l
          ∙ ap (λ (c : Option ℕ). some (unlink c t s)) last,
      Chain-set_next (set_next s.threads p (s.threads t).next) t 0 s.run_queue (x ∷ xs ++ ys)
          (Chain-once s.threads s.run_queue (x ∷ xs) t ys h) relinked,
      ap (λ (y : Thread). y.next)
          (put_same (set_next s.threads p (s.threads t).next) t
            (record (set_next s.threads p (s.threads t).next t) { next = 0 })),
      refl,
    )
