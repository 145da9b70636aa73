-- ===== src/Mutex.antt =====
-- kernel/ipc/mutex.c: the recursive mutex. `locked` is 0 or 1, a 32-bit word; a call runs as a whole.
-- `mutex_lock` spins until `mutex_try_lock` succeeds: where that never happens, `lock` is none.
mod Tests
use native.Mathlib.Decide.{ℕ_discrete, dec_lt}
use nv0ken_linux.Prelude.{
  ℕ, zero, suc, ◌+◌, ◌-◌, ◌%◌, ◌^◌, ◌≤◌, ◌<◌, ◌≡◌, refl, sym, ap, ◌∙◌, arith, Bool, true, false,
  not, ◌&&◌, ◌||◌, List, [], ◌∷◌, ◌==◌, ltb, leb, if◌then◌else◌, Option, none, some, ◌⊎◌, inl, inr,
  ne→==,
}

pub record Mutex : Type 0 where
  pub locked : ℕ
  pub owner : ℕ
  pub recursion : ℕ

unfoldable pub init : Mutex
init = record { locked = 0; owner = 0; recursion = 0 }

abbrev pub current_owner_token : ℕ
current_owner_token = 1

unfoldable pub try_lock : Mutex → Bool × Mutex
try_lock m =
    if not (m.locked == 0) && m.owner == current_owner_token
    then (true, record m { recursion = (m.recursion + 1) % 2 ^ 32 })
    else if m.locked == 0
    then (true, record { locked = 1; owner = current_owner_token; recursion = 1 })
    else (false, m)

unfoldable pub lock : Mutex → Option Mutex
lock m = if (try_lock m).0 then some (try_lock m).1 else none

unfoldable pub unlock : Mutex → Mutex
unlock m =
    let rest = (m.recursion + 2 ^ 32 - 1) % 2 ^ 32 in
    if m.locked == 0 || not (m.owner == current_owner_token)
    then m
    else if rest == 0
    then record m { owner = 0; recursion = rest; locked = 0 }
    else record m { recursion = rest }

unfoldable pub is_locked : Mutex → Bool
is_locked m = not (m.locked == 0)

-- The calls of any threads, in any order.
pub data Call : Type 0 where
  tries unlocks : Call

pub apply : Call → Mutex → Mutex
apply tries m = (try_lock m).1
apply unlocks m = unlock m

pub run : List Call → Mutex → Mutex
run [] m = m
run (c ∷ cs) m = run cs (apply c m)

-- The holder, if there is one, is the one owner that there is.
pub record IsValid (m : Mutex) : Type 0 where
  pub held : (m.locked ≡ 0) ⊎ (m.locked ≡ 1) × (m.owner ≡ 1)

init-IsValid : IsValid init
unfolding init
init-IsValid = record { held = inl refl }

apply-IsValid : (c : Call) (m : Mutex) → IsValid m → IsValid (apply c m)
unfolding apply try_lock unlock
apply-IsValid tries m v = record { held = ground (arith, v.held) }
apply-IsValid unlocks m v = record { held = ground (arith, v.held) }

run-IsValid : (cs : List Call) (m : Mutex) → IsValid m → IsValid (run cs m)
unfolding run
run-IsValid [] m v = v
run-IsValid (c ∷ cs) m v = run-IsValid cs (apply c m) (apply-IsValid c m v)

pub try_lock-IsValid : (m : Mutex) → IsValid m → (try_lock m).0 ≡ true
unfolding try_lock
try_lock-IsValid m v = ground (arith, v.held)

-- Whatever calls have been made on a mutex, by whichever threads, the next `mutex_try_lock` gets it,
-- and `mutex_lock` returns at once: the mutex excludes nobody.
pub try_lock-run :
    (cs : List Call)
    → ((try_lock (run cs init)).0 ≡ true) × (lock (run cs init) ≡ some (try_lock (run cs init)).1)
unfolding lock
try_lock-run cs =
    let got = try_lock-IsValid (run cs init) (run-IsValid cs init init-IsValid) in
    (got, ap (λ (t : Bool). if t then some (try_lock (run cs init)).1 else none) got)

pub locks : ℕ → Mutex → Mutex
locks zero m = m
locks (suc n) m = (try_lock (locks n m)).1

pub unlocked : ℕ → Mutex → Mutex
unlocked zero m = m
unlocked (suc n) m = unlock (unlocked n m)

abbrev held_by : ℕ → Mutex
held_by r = record { locked = 1; owner = 1; recursion = r }

once_more : (r : ℕ) → r + 1 < 2 ^ 32 → (try_lock (held_by r)).1 ≡ held_by (suc r)
unfolding try_lock
once_more r h = ap held_by (omega arith)

once_less : (r : ℕ) → suc (suc r) < 2 ^ 32 → unlock (held_by (suc (suc r))) ≡ held_by (suc r)
unfolding unlock
once_less r h =
    ap
      (λ (t : Bool). if t then record { locked = 0; owner = 0; recursion = left } else held_by left)
      (ne→== left 0 (λ e. omega arith))
    ∙ ap held_by (omega arith)
  where
    left : ℕ
    left = (suc (suc r) + 2 ^ 32 - 1) % 2 ^ 32

freed : (unlock (held_by 1)).locked ≡ 0
unfolding unlock
freed = refl

locks-eq : (n : ℕ) → suc n < 2 ^ 32 → locks (suc n) init ≡ held_by (suc n)
unfolding locks
locks-eq zero h = unfold try_lock init in refl
locks-eq (suc n) h =
    ap (λ m. (try_lock m).1) (locks-eq n (omega arith)) ∙ once_more (suc n) (omega arith)

unlocked-eq :
    (k d n : ℕ)
    → k + suc d ≡ suc n
    → suc n < 2 ^ 32
    → unlocked k (locks (suc n) init) ≡ held_by (suc d)
unfolding unlocked
unlocked-eq zero d n e small = locks-eq n small ∙ ap held_by (omega arith)
unlocked-eq (suc k) d n e small =
    ap unlock (unlocked-eq k (suc d) n (omega arith) small) ∙ once_less d (omega arith)

last_frees : (n : ℕ) → suc n < 2 ^ 32 → (unlocked (suc n) (locks (suc n) init)).locked ≡ 0
unfolding unlocked
last_frees n small = ap (λ m. (unlock m).locked) (unlocked-eq n 0 n (omega arith) small) ∙ freed

-- A mutex locked `n` times stays locked until the `n`-th unlocking, which frees it.
pub unlocked-locks :
    (k n : ℕ)
    → n < 2 ^ 32
    → 0 < n
    → (k < n → is_locked (unlocked k (locks n init)) ≡ true)
      × (is_locked (unlocked n (locks n init)) ≡ false)
unlocked-locks k zero small p = absurd (omega arith)
unlocked-locks k (suc n) small p =
    unfold is_locked in
    (
      λ h. ap (λ m. not (m.locked == 0)) (unlocked-eq k (n - k) n (omega arith) small),
      ap (λ l. not (l == 0)) (last_frees n small),
    )
