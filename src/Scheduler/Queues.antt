-- ===== src/Scheduler/Queues.antt =====
-- kernel/proc/scheduler.c: the list of threads that the `next` pointers make.
use nv0ken_linux.Prelude.{
  ℕ, suc, ◌+◌, ◌<◌, ◌≡◌, ◌≢◌, refl, sym, ap, ◌∙◌, subst, arith, Bool, List, [], ◌∷◌, ◌++◌,
  if◌then◌else◌, length, length-append, eq→==, ne→==,
}
use nv0ken_linux.Scheduler.{Thread, Threads, put, set_next}

-- From the pointer `p` on, the threads of the list follow one another, and the last one's `next` is
-- NULL.
abbrev pub Chain : Threads → ℕ → List ℕ → Type 0
Chain threads p [] = p ≡ 0
Chain threads p (q ∷ qs) = (p ≡ q) × (q ≢ 0) × Chain threads (threads q).next qs

-- A pointer determines the list behind it.
pub Chain-length :
    (threads : Threads) (p : ℕ) (qs rs : List ℕ)
    → Chain threads p qs
    → Chain threads p rs
    → length qs ≡ length rs
Chain-length threads p [] [] h k = refl
Chain-length threads p [] (r ∷ rs) h k = absurd (k.1 (sym k.0 ∙ h))
Chain-length threads p (q ∷ qs) [] h k = absurd (h.1 (sym h.0 ∙ k))
Chain-length threads p (q ∷ qs) (r ∷ rs) h k = ap suc (
    Chain-length threads (threads q).next qs rs h.2
      (subst (λ (x : ℕ). Chain threads (threads x).next rs) (sym k.0 ∙ h.0) k.2))

-- A thread that is not in the list.
abbrev pub Avoids : ℕ → List ℕ → Type 0
Avoids t [] = Unit
Avoids t (q ∷ qs) = (q ≢ t) × Avoids t qs

-- Writing to such a thread leaves the list as it is.
pub Chain-put :
    (threads : Threads) (t : ℕ) (thread : Thread) (p : ℕ) (qs : List ℕ)
    → Avoids t qs
    → Chain threads p qs
    → Chain (put threads t thread) p qs
Chain-put threads t thread p [] n h = h
Chain-put threads t thread p (q ∷ qs) n h = (
  h.0,
  h.1,
  subst (λ (x : Thread). Chain (put threads t thread) x.next qs)
      (ap (λ (b : Bool). if b then thread else threads q) (sym (ne→== q t n.0)))
      (Chain-put threads t thread (threads q).next qs n.1 h.2),
)

pub Chain-set_next :
    (threads : Threads) (t n : ℕ) (p : ℕ) (qs : List ℕ)
    → Avoids t qs
    → Chain threads p qs
    → Chain (set_next threads t n) p qs
Chain-set_next threads t n = Chain-put threads t (record (threads t) { next = n })

-- What lies behind a thread of the list.
pub Chain-behind :
    (threads : Threads) (p : ℕ) (before : List ℕ) (c : ℕ) (qs : List ℕ)
    → Chain threads p (before ++ c ∷ qs)
    → Chain threads (threads c).next qs
Chain-behind threads p [] c qs h = h.2
Chain-behind threads p (b ∷ before) c qs h = Chain-behind threads (threads b).next before c qs h.2

-- Threads with lists of different lengths behind them differ.
pub Chain-differs :
    (threads : Threads) (p q : ℕ) (ps qs : List ℕ)
    → Chain threads p ps
    → Chain threads q qs
    → length ps ≢ length qs
    → p ≢ q
Chain-differs threads p q ps qs h k n e =
    n (Chain-length threads q ps qs (subst (λ (x : ℕ). Chain threads x ps) e h) k)

-- A thread with a longer list behind it is not among those of a list.
pub Chain-Avoids :
    (threads : Threads) (p c : ℕ) (ps qs : List ℕ)
    → Chain threads p ps
    → Chain threads c qs
    → length ps < length qs
    → Avoids c ps
Chain-Avoids threads p c [] qs h k l = tt
Chain-Avoids threads p c (q ∷ ps) qs h k l = (
  Chain-differs threads q c (q ∷ ps) qs (refl, h.1, h.2) k (λ e. omega arith),
  Chain-Avoids threads (threads q).next c ps qs h.2 k (omega arith),
)

pub put_same : (threads : Threads) (p : ℕ) (thread : Thread) → put threads p thread p ≡ thread
put_same threads p thread = ap (λ (b : Bool). if b then thread else threads p) (eq→== p p refl)

pub put_other :
    (threads : Threads) (p q : ℕ) (thread : Thread) → q ≢ p → put threads p thread q ≡ threads q
put_other threads p q thread n = ap (λ (b : Bool). if b then thread else threads q) (ne→== q p n)

-- What lies from a thread of the list on.
pub Chain-at :
    (threads : Threads) (p : ℕ) (before : List ℕ) (c : ℕ) (qs : List ℕ)
    → Chain threads p (before ++ c ∷ qs)
    → Chain threads c (c ∷ qs)
Chain-at threads p [] c qs h = (refl, h.1, h.2)
Chain-at threads p (b ∷ before) c qs h = Chain-at threads (threads b).next before c qs h.2

-- A thread stands in the list once.
pub Chain-once :
    (threads : Threads) (p : ℕ) (xs : List ℕ) (t : ℕ) (ys : List ℕ)
    → Chain threads p (xs ++ t ∷ ys)
    → Avoids t (xs ++ ys)
Chain-once threads p [] t ys h =
    Chain-Avoids threads (threads t).next t ys (t ∷ ys) h.2 (refl, h.1, h.2) (omega arith)
Chain-once threads p (x ∷ xs) t ys h = (
  Chain-differs threads x t (x ∷ xs ++ t ∷ ys) (t ∷ ys) (refl, h.1, h.2)
      (Chain-at threads p (x ∷ xs) t ys h) (λ e. longer e (length-append xs (t ∷ ys))),
  Chain-once threads (threads x).next xs t ys h.2,
)
  where
    longer :
        length (x ∷ xs ++ t ∷ ys) ≡ length (t ∷ ys)
        → length (xs ++ t ∷ ys) ≡ length xs + length (t ∷ ys)
        → ⊥
    longer e f = omega arith
