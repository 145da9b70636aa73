-- ===== src/Scheduler/Picks.antt =====
-- kernel/proc/scheduler.c: `scheduler_pick_next` walks once round the queue.
use nv0ken_linux.Prelude.{
  ℕ, zero, suc, ◌+◌, ◌≤◌, ◌<◌, ◌≡◌, ◌≢◌, refl, sym, ap, ◌∙◌, subst, arith, Bool, true, false, List,
  [], ◌∷◌, ◌++◌, ◌==◌, if◌then◌else◌, length, length-append, append-nil, append_assoc, Option, none,
  some, Bool-cases, ◌⊎◌, inl, inr, eq→==, ne→==,
}
use nv0ken_linux.Scheduler.{Threads, Scheduler, is_runnable, following, run, pick_from, pick_next}
use nv0ken_linux.Scheduler.Queues.{Chain, Chain-differs, Chain-behind}

-- The first thread of a list that can run.
unfoldable pub first_runnable : Threads → List ℕ → Option ℕ
first_runnable threads [] = none
first_runnable threads (p ∷ ps) =
    if is_runnable threads p then some p else first_runnable threads ps

-- The scheduler with that thread as the current one, and the pointer to it; NULL without one.
abbrev pub chosen : Scheduler → Option ℕ → Scheduler × ℕ
chosen s none = (s, 0)
chosen s (some p) = (run s p, p)

abbrev choice : ℕ → Scheduler → ℕ → ℕ → Bool → Bool → Option (Scheduler × ℕ)
choice fuel s start p can end =
    if can
    then some (run s p, p)
    else if end
    then some (s, 0)
    else pick_from fuel s start (following s p)

pick_from-suc :
    (fuel : ℕ) (s : Scheduler) (start p : ℕ) (can end : Bool)
    → is_runnable s.threads p ≡ can
    → (following s p == start) ≡ end
    → pick_from (suc fuel) s start p ≡ choice fuel s start p can end
unfolding pick_from
pick_from-suc fuel s start p can end e f = rw (e, f) refl

picks_here :
    (fuel : ℕ) (s : Scheduler) (start p : ℕ) (rest : List ℕ)
    → is_runnable s.threads p ≡ true
    → pick_from (suc fuel) s start p ≡ some (chosen s (first_runnable s.threads (p ∷ rest)))
unfolding first_runnable
picks_here fuel s start p rest e = pick_from-suc fuel s start p true _ e refl ∙ rw e refl

picks_none :
    (fuel : ℕ) (s : Scheduler) (start p : ℕ)
    → is_runnable s.threads p ≡ false
    → following s p ≡ start
    → pick_from (suc fuel) s start p ≡ some (chosen s (first_runnable s.threads (p ∷ [])))
unfolding first_runnable
picks_none fuel s start p e f =
    pick_from-suc fuel s start p false true e (eq→== (following s p) start f) ∙ rw e refl

picks_later :
    (fuel : ℕ) (s : Scheduler) (start p q : ℕ) (rest : List ℕ)
    → is_runnable s.threads p ≡ false
    → following s p ≡ q
    → q ≢ start
    → pick_from fuel s start q ≡ some (chosen s (first_runnable s.threads rest))
    → pick_from (suc fuel) s start p ≡ some (chosen s (first_runnable s.threads (p ∷ rest)))
unfolding first_runnable
picks_later fuel s start p q rest e f n h =
    pick_from-suc fuel s start p false false e (ap (λ (x : ℕ). x == start) f ∙ ne→== q start n)
    ∙ ap (pick_from fuel s start) f
    ∙ h
    ∙ rw e refl

following_next : (s : Scheduler) (p q : ℕ) → (s.threads p).next ≡ q → q ≢ 0 → following s p ≡ q
following_next s p q e n =
    ap (λ (x : ℕ). if x == 0 then s.run_queue else x) e ∙ rw (ne→== q 0 n) refl

following_end : (s : Scheduler) (p : ℕ) → (s.threads p).next ≡ 0 → following s p ≡ s.run_queue
following_end s p e = ap (λ (x : ℕ). if x == 0 then s.run_queue else x) e

-- From the front of the queue up to the thread where the walk began.
pick_from_front :
    (fuel : ℕ) (s : Scheduler) (start x : ℕ) (xs ss : List ℕ)
    → Chain s.threads x (x ∷ xs ++ ss)
    → Chain s.threads start ss
    → 0 < length ss
    → length xs < fuel
    → pick_from fuel s start x ≡ some (chosen s (first_runnable s.threads (x ∷ xs)))
pick_from_front zero s start x xs ss h k l m = absurd (omega arith)
pick_from_front (suc fuel) s start x xs [] h k l m = absurd (omega arith)
pick_from_front (suc fuel) s start x [] (u ∷ us) h k l m =
    elim (Bool-cases (is_runnable s.threads x)) [
      | inl e ↦ picks_here fuel s start x [] e
      | inr e ↦ picks_none fuel s start x e (following_next s x u h.2.0 h.2.1 ∙ sym k.0)
    ]
pick_from_front (suc fuel) s start x (z ∷ xs) (u ∷ us) h k l m =
    elim (Bool-cases (is_runnable s.threads x)) [
      | inl e ↦ picks_here fuel s start x (z ∷ xs) e
      | inr e ↦
          picks_later fuel s start x z (z ∷ xs) e (following_next s x z h.2.0 h.2.1)
            (Chain-differs s.threads z start (z ∷ xs ++ u ∷ us) (u ∷ us) (refl, h.2.1, h.2.2) k
              (λ q. longer q (length-append xs (u ∷ us))))
            (pick_from_front fuel s start z xs (u ∷ us) (refl, h.2.1, h.2.2) k l (omega arith))
    ]
  where
    longer :
        length (z ∷ xs ++ u ∷ us) ≡ length (u ∷ us)
        → length (xs ++ u ∷ us) ≡ length xs + length (u ∷ us)
        → ⊥
    longer q a = omega arith

-- From a thread on to the end of the queue, and then from the front.
pick_from_lem :
    (fuel : ℕ) (s : Scheduler) (start y : ℕ) (ys xs ss : List ℕ)
    → Chain s.threads y (y ∷ ys)
    → Chain s.threads start ss
    → Chain s.threads s.run_queue (xs ++ ss)
    → length ys < length ss
    → length ys + length xs < fuel
    → pick_from fuel s start y ≡ some (chosen s (first_runnable s.threads (y ∷ ys ++ xs)))
pick_from_lem zero s start y ys xs ss h k q l m = absurd (omega arith)
pick_from_lem (suc fuel) s start y ys xs [] h k q l m = absurd (omega arith)
pick_from_lem (suc fuel) s start y [] [] (u ∷ us) h k q l m =
    elim (Bool-cases (is_runnable s.threads y)) [
      | inl e ↦ picks_here fuel s start y [] e
      | inr e ↦ picks_none fuel s start y e (following_end s y h.2 ∙ q.0 ∙ sym k.0)
    ]
pick_from_lem (suc fuel) s start y [] (x ∷ xs) (u ∷ us) h k q l m =
    elim (Bool-cases (is_runnable s.threads y)) [
      | inl e ↦ picks_here fuel s start y (x ∷ xs) e
      | inr e ↦
          picks_later fuel s start y x (x ∷ xs) e (following_end s y h.2 ∙ q.0)
            (Chain-differs s.threads x start (x ∷ xs ++ u ∷ us) (u ∷ us) (refl, q.1, q.2) k
              (λ r. longer r (length-append xs (u ∷ us))))
            (pick_from_front fuel s start x xs (u ∷ us) (refl, q.1, q.2) k (omega arith)
              (omega arith))
    ]
  where
    longer :
        length (x ∷ xs ++ u ∷ us) ≡ length (u ∷ us)
        → length (xs ++ u ∷ us) ≡ length xs + length (u ∷ us)
        → ⊥
    longer r a = omega arith
pick_from_lem (suc fuel) s start y (z ∷ ys) xs (u ∷ us) h k q l m =
    elim (Bool-cases (is_runnable s.threads y)) [
      | inl e ↦ picks_here fuel s start y (z ∷ ys ++ xs) e
      | inr e ↦
          picks_later fuel s start y z (z ∷ ys ++ xs) e (following_next s y z h.2.0 h.2.1)
            (Chain-differs s.threads z start (z ∷ ys) (u ∷ us) (refl, h.2.1, h.2.2) k
              (λ r. omega arith))
            (pick_from_lem fuel s start z ys xs (u ∷ us) (refl, h.2.1, h.2.2) k q (omega arith)
              (omega arith))
    ]

-- The walk that begins at the front.
pick_from_all :
    (fuel : ℕ) (s : Scheduler) (ps : List ℕ)
    → Chain s.threads s.run_queue ps
    → 0 < length ps
    → length ps ≤ fuel
    → pick_from fuel s s.run_queue s.run_queue ≡ some (chosen s (first_runnable s.threads ps))
pick_from_all fuel s [] h l m = absurd (omega arith)
pick_from_all fuel s (p ∷ ps) h l m =
    ap (λ (x : ℕ). pick_from fuel s x x) h.0
    ∙ pick_from_lem fuel s p p ps [] (p ∷ ps) (refl, h.1, h.2) (refl, h.1, h.2) h (omega arith)
        (omega arith)
    ∙ ap (λ (l : List ℕ). some (chosen s (first_runnable s.threads (p ∷ l)))) (append-nil ps)

pick_next_start :
    (fuel : ℕ) (s : Scheduler) (start : ℕ)
    → s.run_queue ≢ 0
    → (if s.current_thread == 0 then s.run_queue else following s s.current_thread) ≡ start
    → pick_next fuel s ≡ pick_from fuel s start start
unfolding pick_next
pick_next_start fuel s start n e =
    rw (ne→== s.run_queue 0 n) (ap (λ (x : ℕ). pick_from fuel s x x) e)

Chain-front : (threads : Threads) (p : ℕ) (ps : List ℕ) → Chain threads p ps → 0 < length ps → p ≢ 0
Chain-front threads p [] h l e = absurd (omega arith)
Chain-front threads p (q ∷ ps) h l e = h.1 (sym h.0 ∙ e)

-- The queue as it lies before and behind the thread that runs: without one, all lies behind.
abbrev pub Resumes : Scheduler → List ℕ → Type 0
Resumes s xs =
    ((s.current_thread ≡ 0) × (xs ≡ []))
    ⊎ ((before : List ℕ) × (xs ≡ before ++ s.current_thread ∷ []) × (s.current_thread ≢ 0))

-- `scheduler_pick_next` returns after at most one round for each thread of the queue. It picks the
-- first thread that can run, in the order from behind the current thread to the end of the queue and
-- on from its front to the current thread; it gives NULL only when no thread of the queue can run.
pub pick_next_lem :
    (fuel : ℕ) (s : Scheduler) (xs ys : List ℕ)
    → Chain s.threads s.run_queue (xs ++ ys)
    → Resumes s xs
    → length (xs ++ ys) ≤ fuel
    → pick_next fuel s ≡ some (chosen s (first_runnable s.threads (ys ++ xs)))
unfolding pick_next first_runnable
pick_next_lem fuel s xs ys h (inr (before, e, n)) l = behind_current ys h (length-append xs ys) l
  where
    long : 0 < length xs
    long = let a = ap length e ∙ length-append before (s.current_thread ∷ []) in omega arith

    chain :
        (zs : List ℕ)
        → Chain s.threads s.run_queue (xs ++ zs)
        → Chain s.threads (s.threads s.current_thread).next zs
    chain zs h = Chain-behind s.threads s.run_queue before s.current_thread zs (
        subst (λ (l : List ℕ). Chain s.threads s.run_queue l)
          (ap (λ (l : List ℕ). l ++ zs) e ∙ append_assoc before (s.current_thread ∷ []) zs) h)

    start :
        (x : ℕ)
        → following s s.current_thread ≡ x
        → (if s.current_thread == 0 then s.run_queue else following s s.current_thread) ≡ x
    start x f = rw (ne→== s.current_thread 0 n) f

    behind_current :
        (zs : List ℕ)
        → Chain s.threads s.run_queue (xs ++ zs)
        → length (xs ++ zs) ≡ length xs + length zs
        → length (xs ++ zs) ≤ fuel
        → pick_next fuel s ≡ some (chosen s (first_runnable s.threads (zs ++ xs)))
    behind_current [] h a l =
        pick_next_start fuel s s.run_queue
          (Chain-front s.threads s.run_queue (xs ++ []) h (let p = long in omega arith))
          (start s.run_queue (following_end s s.current_thread (chain [] h)))
        ∙ pick_from_all fuel s xs (subst (Chain s.threads s.run_queue) (append-nil xs) h) long
            (let p = long in omega arith)
    behind_current (z ∷ zs) h a l =
        let c = chain (z ∷ zs) h in
        pick_next_start fuel s z (Chain-front s.threads s.run_queue (xs ++ z ∷ zs) h (omega arith))
          (start z (following_next s s.current_thread z c.0 c.1))
        ∙ pick_from_lem fuel s z z zs xs (z ∷ zs) (refl, c.1, c.2) (refl, c.1, c.2) h (omega arith)
            (omega arith)
pick_next_lem fuel s xs ys h (inl (c, e)) l =
    from_front ys (subst (λ (l : List ℕ). Chain s.threads s.run_queue (l ++ ys)) e h)
      (subst (λ (l : List ℕ). length (l ++ ys) ≤ fuel) e l)
    ∙ ap (λ (l : List ℕ). some (chosen s (first_runnable s.threads l)))
        (sym (ap (λ (l : List ℕ). ys ++ l) e ∙ append-nil ys))
  where
    from_front :
        (zs : List ℕ)
        → Chain s.threads s.run_queue zs
        → length zs ≤ fuel
        → pick_next fuel s ≡ some (chosen s (first_runnable s.threads zs))
    from_front [] h l =
        ap
          (λ (t : Bool).
            if t
            then some (record s { current_thread = 0 }, 0)
            else (let start =
                  if s.current_thread == 0 then s.run_queue else following s s.current_thread in
                pick_from fuel s start start))
          (eq→== s.run_queue 0 h)
        ∙ ap (λ (x : ℕ). some (record s { current_thread = x }, 0)) (sym c)
    from_front (z ∷ zs) h l =
        pick_next_start fuel s s.run_queue
          (Chain-front s.threads s.run_queue (z ∷ zs) h (omega arith)) (rw c refl)
        ∙ pick_from_all fuel s (z ∷ zs) h (omega arith) l
