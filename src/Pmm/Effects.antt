-- ===== src/Pmm/Effects.antt =====
-- The loops of the frame allocator as runs over frame numbers, and what they leave in use.
use native.Mathlib.Decide.{dec_lt}
use nv0ken_linux.Prelude.{
  ℕ, zero, suc, ◌+◌, ◌-◌, ◌*◌, ◌^◌, ◌≤◌, ◌<◌, ◌≡◌, refl, ap, ◌∙◌, Bool, true, false, ◌&&◌, arith,
  ltb, leb, if◌then◌else◌,
}
use nv0ken_linux.Word.{add64}
use nv0ken_linux.Pmm.{
  Pmm, IsValid, frame_size, frame_index, give_back, reserve, used, each_frame, free_from,
}
use nv0ken_linux.Pmm.Invariant.{
  give_back-IsValid, reserve-IsValid, used-give_back, used-reserve, total-give_back, total-reserve,
}

-- `n` rounds of a body over the frames from `i` on.
unfoldable pub run : (Pmm → ℕ → Pmm) → ℕ → ℕ → Pmm → Pmm
run body zero i p = p
run body (suc n) i p = run body n (i + 1) (body p i)

run_step :
    (body : Pmm → ℕ → Pmm) (n i : ℕ) (p : Pmm)
    → 0 < n
    → run body n i p ≡ run body (n - 1) (i + 1) (body p i)
unfolding run
run_step body zero i p h = absurd (omega arith)
run_step body (suc n) i p h = ap (λ k. run body k (i + 1) (body p i)) n_back
  where
    n_back : n ≡ suc n - 1
    n_back = omega arith

-- The address loop stops by its test within the fuel, after one round for each frame.
pub each_frame-run :
    (fuel : ℕ) (body : Pmm → ℕ → Pmm) (i e : ℕ) (p : Pmm)
    → e - i < fuel
    → (e + 1) * frame_size ≤ 2 ^ 64
    → each_frame fuel body (i * frame_size) (e * frame_size) p ≡ run body (e - i) i p
unfolding each_frame frame_index
each_frame-run zero body i e p h h' = absurd (omega arith)
each_frame-run (suc fuel) body i e p h h' = elim (dec_lt i e) [
  | yes lt ↦ ground (
    arith,
    each_frame-run fuel body (i + 1) e (body p i) (omega arith) h',
    ap (λ t. each_frame fuel body t (e * frame_size) (body p i)) (next lt),
    ap (λ t. each_frame fuel body (add64 (i * frame_size) frame_size) (e * frame_size) (body p t))
        here,
    run_step body (e - i) i p (omega arith),
    ap (λ t. run body t (i + 1) (body p i)) one_less,
  )
  | no le ↦ ground (arith, ap (λ t. run body t i p) (none_left le), run_zero)
]
  where
    next : i < e → add64 (i * frame_size) frame_size ≡ (i + 1) * frame_size
    next lt = omega arith

    here : frame_index (i * frame_size) ≡ i
    here = omega arith

    one_less : e - i - 1 ≡ e - (i + 1)
    one_less = omega arith

    none_left : ¬ (i < e) → e - i ≡ 0
    none_left le = omega arith

    run_zero : run body 0 i p ≡ p
    run_zero = unfold run in refl

-- The index loop of `pmm_free_frames` likewise, as long as the index does not wrap.
pub free_from-run : (n i : ℕ) (p : Pmm) → i + n < 2 ^ 64 → free_from n i p ≡ run give_back n i p
unfolding free_from run
free_from-run zero i p h = refl
free_from-run (suc n) i p h =
    ap (λ t. free_from n t (give_back p i)) next
    ∙ free_from-run n (i + 1) (give_back p i) (omega arith)
  where
    next : add64 i 1 ≡ i + 1
    next = omega arith

module _ (n i : ℕ) where
  abbrev pub within : ℕ → Bool
  within j = leb i j && ltb j (i + n)

-- A run of `give_back` frees exactly the frames that it covers.
pub run-give_back :
    (n i j : ℕ) {p : Pmm}
    → IsValid p
    → IsValid (run give_back n i p)
      × (used (run give_back n i p) j ≡ (if within n i j then false else used p j))
      × ((run give_back n i p).total_frames ≡ p.total_frames)
unfolding run
run-give_back zero i j {p} v = (v, ground arith, refl)
run-give_back (suc n) i j {p} v =
    let rest = run-give_back n (i + 1) j (give_back-IsValid i v) in
    (rest.0, ground (arith, rest.1, used-give_back i j v), rest.2 ∙ total-give_back p i)

-- A run of `reserve` takes exactly the frames that it covers and that exist.
pub run-reserve :
    (n i j : ℕ) {p : Pmm}
    → IsValid p
    → IsValid (run reserve n i p)
      × (used (run reserve n i p) j
          ≡ (if within n i j && ltb j p.total_frames then true else used p j))
      × ((run reserve n i p).total_frames ≡ p.total_frames)
unfolding run
run-reserve zero i j {p} v = (v, ground arith, refl)
run-reserve (suc n) i j {p} v =
    let rest = run-reserve n (i + 1) j (reserve-IsValid i v) in
    (
      rest.0,
      ground (arith, rest.1, used-reserve i j v, total-reserve p i),
      rest.2 ∙ total-reserve p i,
    )
