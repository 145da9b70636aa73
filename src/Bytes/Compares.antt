-- ===== src/Bytes/Compares.antt =====
-- Strings in memory: their length and their comparison.
use nv0ken_linux.Prelude.{
  ℕ, zero, suc, ◌+◌, ◌<◌, ◌≡◌, ◌≢◌, ◌↔◌, refl, sym, ◌∙◌, arith, ◌==◌, Bool-cases, inl, inr, List,
  [], ◌∷◌, length, some, eq→==, ne→==,
}
use nv0ken_linux.Prelude.Int.{ℤ, pos, ◌-ℤ◌}
use nv0ken_linux.Bytes.{Memory, strlen, strcmp}

-- The bytes stand at the address, and a zero behind them; none of them is zero.
abbrev pub Holds : Memory → ℕ → List ℕ → Type 0
Holds m p [] = m p ≡ 0
Holds m p (c ∷ cs) = (m p ≡ c) × (c ≢ 0) × Holds m (p + 1) cs

difference : (a b : ℕ) → (pos a -ℤ pos b ≡ pos 0) ↔ (a ≡ b)
unfolding ◌-ℤ◌
difference a b = (λ h. ground arith, λ h. ground arith)

-- `strlen` of a string returns, with the number of its bytes.
pub strlen_lem :
    (fuel p : ℕ) (m : Memory) (cs : List ℕ)
    → length cs < fuel
    → Holds m p cs
    → strlen fuel p m ≡ some (length cs)
unfolding strlen
strlen_lem zero p m cs h t = absurd (omega arith)
strlen_lem (suc fuel) p m [] h t = rw (eq→== (m p) 0 t) refl
strlen_lem (suc fuel) p m (c ∷ cs) h t =
    rw (ne→== (m p) 0 (λ e. t.1 (sym t.0 ∙ e)))
      (rw (strlen_lem fuel (p + 1) m cs (omega arith) t.2) refl)

cons_eq : {c d : ℕ} {cs ds : List ℕ} → (c ≡ d) × (cs ≡ ds) → c ∷ cs ≡ d ∷ ds
cons_eq h = cc (h.0, h.1)

cons_parts : {c d : ℕ} {cs ds : List ℕ} → c ∷ cs ≡ d ∷ ds → (c ≡ d) × (cs ≡ ds)
cons_parts h = (cc, cc)

nil_cons : {c : ℕ} {cs : List ℕ} → [] ≡ c ∷ cs → ⊥
nil_cons h = cc

-- `strcmp` of two strings returns, and its result is 0 exactly when they have the same bytes.
pub strcmp_lem :
    (fuel p q : ℕ) (m : Memory) (cs ds : List ℕ)
    → length cs < fuel
    → Holds m p cs
    → Holds m q ds
    → (r : ℤ) × (strcmp fuel p q m ≡ some r) × ((r ≡ pos 0) ↔ (cs ≡ ds))
unfolding strcmp
strcmp_lem zero p q m cs ds h s t = absurd (omega arith)
strcmp_lem (suc fuel) p q m [] [] h s t =
    (pos (m p) -ℤ pos (m q), ground arith, (λ e. refl, λ e. (difference (m p) (m q)).1 (s ∙ sym t)))
strcmp_lem (suc fuel) p q m [] (d ∷ ds) h s t = (
  pos (m p) -ℤ pos (m q),
  ground arith,
  (λ e. absurd (t.1 (sym t.0 ∙ sym ((difference (m p) (m q)).0 e) ∙ s)), λ e. absurd (nil_cons e)),
)
strcmp_lem (suc fuel) p q m (c ∷ cs) [] h s t = (
  pos (m p) -ℤ pos (m q),
  ground (arith, s.0, s.1, t),
  (λ e. absurd (s.1 (sym s.0 ∙ (difference (m p) (m q)).0 e ∙ t)), λ e. absurd (nil_cons (sym e))),
)
strcmp_lem (suc fuel) p q m (c ∷ cs) (d ∷ ds) h s t = elim (Bool-cases (m p == m q)) [
  | inl same ↦
      (let (r, run, zero_is) = strcmp_lem fuel (p + 1) (q + 1) m cs ds (omega arith) s.2 t.2 in
        (
          r,
          ground (arith, s.0, s.1, run),
          (λ e. cons_eq (ground (arith, s.0, t.0), zero_is.0 e), λ e. zero_is.1 (cons_parts e).1),
        ))
  | inr other ↦
      (let different : m p ≢ m q = λ e. cc (sym (eq→== (m p) (m q) e) ∙ other) in
        (
          pos (m p) -ℤ pos (m q),
          ground arith,
          (
            λ e. absurd (different ((difference (m p) (m q)).0 e)),
            λ e. absurd (different (s.0 ∙ (cons_parts e).0 ∙ sym t.0)),
          ),
        ))
]
