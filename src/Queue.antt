-- ===== src/Queue.antt =====
-- A circular array, as kernel/lib/ring_buf.c, kernel/ipc/pipe.c and kernel/ipc/msgqueue.c keep one:
-- `count` cells from `start` on, wrapping at the capacity, and `stop` is where the next one goes.
pub mod Loops
use native.Mathlib.Omega.{div_any, mod_fact}
use native.Mathlib.Decide.{dec_lt}
use nv0ken_linux.Prelude.{
  ℕ, zero, suc, ◌+◌, ◌-◌, ◌*◌, ◌/◌, ◌%◌, ◌^◌, ◌≤◌, ◌<◌, ◌≡◌, ◌≢◌, refl, sym, ap, ◌∙◌, arith, Bool,
  true, false, List, [], ◌∷◌, ◌++◌, ltb, if◌then◌else◌, length, get_or, set, length-set,
  get_or-set_self, get_or-set_ne,
}

-- The step of an index.
abbrev pub after : ℕ → ℕ → ℕ
after cap i = (i + 1) % cap

pub record Places (cap start stop count : ℕ) : Type 0 where
  pub room : 0 < cap
  pub start_in : start < cap
  pub fits : count ≤ cap
  pub ends : stop ≡ (if ltb (start + count) cap then start + count else start + count - cap)

quotient_zero : (b q r a : ℕ) → b * q + r ≡ a → a < b → r ≡ a
quotient_zero b zero r a e h = omega (arith, e)
quotient_zero b (suc q) r a e h = absurd (omega (arith, e))

remainder_self : (b q r : ℕ) → b * q + r ≡ b → r < b → r ≡ 0
remainder_self b zero r e h = absurd (omega (arith, e))
remainder_self b (suc q) r e h = omega (arith, e)

after_wraps : (c i : ℕ) → i + 1 ≡ suc c → after (suc c) i ≡ 0
after_wraps c i e =
    remainder_self (suc c) ((i + 1) / suc c) (after (suc c) i) (div_any (i + 1) (suc c) ∙ e)
      (mod_fact (i + 1) c)

after_steps : (c i : ℕ) → i + 1 < suc c → after (suc c) i ≡ i + 1
after_steps c i h =
    quotient_zero (suc c) ((i + 1) / suc c) (after (suc c) i) (i + 1) (div_any (i + 1) (suc c)) h

after-eq : (cap i : ℕ) → i < cap → after cap i ≡ (if ltb (i + 1) cap then i + 1 else 0)
after-eq zero i h = absurd (omega arith)
after-eq (suc c) i h = ground (arith, after_steps c i, after_wraps c i)

module _ {ℓ} {A : Type ℓ} where
  -- The elements of the queue, oldest first.
  unfoldable pub items : A → List A → ℕ → ℕ → ℕ → List A
  items d cells cap start zero = []
  items d cells cap start (suc n) = get_or cells start d ∷ items d cells cap (after cap start) n

  pub length-items :
      (d : A) (cells : List A) (cap start n : ℕ) → length (items d cells cap start n) ≡ n
  unfolding items
  length-items d cells cap start zero = refl
  length-items d cells cap start (suc n) = ap suc (length-items d cells cap (after cap start) n)

module _ {cap start stop count : ℕ} (p : Places cap start stop count) where
  pub Places-stop : stop < cap
  Places-stop = ground (arith, p.room, p.start_in, p.fits, p.ends)

  pub Places-push : count < cap → Places cap start (after cap stop) (suc count)
  Places-push h = record {
    room = p.room;
    start_in = p.start_in;
    fits = omega arith;
    ends = ground (arith, p.room, p.start_in, p.fits, p.ends, after-eq cap stop Places-stop);
  }

  pub Places-pop : (n : ℕ) → count ≡ suc n → Places cap (after cap start) stop n
  Places-pop n e = record {
    room = p.room;
    start_in = ground (arith, p.room, p.start_in, after-eq cap start p.start_in);
    fits = omega (arith, e, p.fits);
    ends = ground (arith, e, p.room, p.start_in, p.fits, p.ends, after-eq cap start p.start_in);
  }

module _ {ℓ} {A : Type ℓ} (d x : A) (cells : List A) (cap stop : ℕ)
    (sized : length cells ≡ cap) where
  -- Writing the cell behind the newest element adds one at the end.
  pub items-push :
      (start count : ℕ)
      → Places cap start stop count
      → count < cap
      → items d (set cells stop x) cap start (suc count) ≡ items d cells cap start count ++ (x ∷ [])
  unfolding items
  items-push start zero p h =
      ap (λ t. t ∷ [])
        (ap (λ k. get_or (set cells stop x) k d) here
          ∙ get_or-set_self cells stop x d (omega (arith, sized, Places-stop p)))
    where
      here : start ≡ stop
      here = ground (arith, p.start_in, p.ends)
  items-push start (suc n) p h =
      ap (λ t. t ∷ items d (set cells stop x) cap (after cap start) (suc n))
        (get_or-set_ne cells stop start x d apart)
      ∙ ap (λ t. get_or cells start d ∷ t)
          (items-push (after cap start) n (Places-pop p n refl) (omega arith))
    where
      apart : stop ≢ start
      apart e = ground (arith, p.start_in, p.ends)

pub record Queue {ℓ} (A : Type ℓ) : Type ℓ where
  pub cells : List A
  pub capacity : ℕ
  pub start : ℕ
  pub stop : ℕ
  pub count : ℕ

pub record IsQueue {ℓ} {A : Type ℓ} (q : Queue A) : Type ℓ where
  pub places : Places q.capacity q.start q.stop q.count
  pub sized : length q.cells ≡ q.capacity

module _ {ℓ} {A : Type ℓ} where
  abbrev pub put : Queue A → A → Queue A
  put q x = record q {
    cells = set q.cells q.stop x;
    stop = after q.capacity q.stop;
    count = suc q.count;
  }

  abbrev pub pull : Queue A → Queue A
  pull q = record q { start = after q.capacity q.start; count = q.count - 1 }

  abbrev pub first : A → Queue A → A
  first d q = get_or q.cells q.start d

  -- Write while there is room, and read while there is something.
  unfoldable pub fill : Queue A → List A → ℕ × Queue A
  fill q [] = (0, q)
  fill q (x ∷ xs) =
      let rest = fill (put q x) xs in
      if ltb q.count q.capacity then (suc rest.0, rest.1) else (0, q)

  unfoldable pub drain : A → ℕ → Queue A → List A × Queue A
  drain d zero q = ([], q)
  drain d (suc n) q =
      let rest = drain d n (pull q) in
      if ltb 0 q.count then (first d q ∷ rest.0, rest.1) else ([], q)

  abbrev pub contents : A → Queue A → List A
  contents d q = items d q.cells q.capacity q.start q.count

  pub put-contents :
      (d x : A) (q : Queue A)
      → IsQueue q
      → q.count < q.capacity
      → IsQueue (put q x) × (contents d (put q x) ≡ contents d q ++ (x ∷ []))
  put-contents d x q v h = (
    record { places = Places-push v.places h; sized = length-set q.cells q.stop x ∙ v.sized },
    items-push d x q.cells q.capacity q.stop v.sized q.start q.count v.places h,
  )

  items-suc :
      (d : A) (q : Queue A) (n : ℕ)
      → items d q.cells q.capacity q.start (suc n)
        ≡ first d q ∷ items d q.cells q.capacity (after q.capacity q.start) n
  unfolding items
  items-suc d q n = refl

  pub pull-contents :
      (d : A) (q : Queue A)
      → IsQueue q
      → 0 < q.count
      → IsQueue (pull q) × (contents d q ≡ first d q ∷ contents d (pull q))
  pull-contents d q v h = (
    record { places = Places-pop v.places (q.count - 1) one_less; sized = v.sized },
    ap (items d q.cells q.capacity q.start) one_less ∙ items-suc d q (q.count - 1),
  )
    where
      one_less : q.count ≡ suc (q.count - 1)
      one_less = omega arith
