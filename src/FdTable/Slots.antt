-- ===== src/FdTable/Slots.antt =====
-- The search for a free descriptor.
use native.Mathlib.Decide.{ℕ_discrete}
use nv0ken_linux.Prelude.{
  ℕ, zero, suc, ◌+◌, ◌-◌, ◌≤◌, ◌<◌, ◌≡◌, refl, sym, ap, ◌∙◌, arith, Bool, true, false, List,
  if◌then◌else◌, get_or, Option, none, some, inl, inr, Bool-cases,
}
use nv0ken_linux.FdTable.{Entry, table_max, first_fd, closed, is_open, free_from, free_slot}

-- The entry of a descriptor.
abbrev pub entry : List Entry → ℕ → Entry
entry t fd = get_or t fd closed

from_step :
    (t : List Entry) (n fd : ℕ)
    → free_from t (suc n) fd ≡ (if is_open (entry t fd) then free_from t n (fd + 1) else some fd)
unfolding free_from
from_step t n fd = refl

free_from-zero : (t : List Entry) (fd : ℕ) → free_from t zero fd ≡ none
unfolding free_from
free_from-zero t fd = refl

-- What the search finds is free, and what it passed is not.
record Found (t : List Entry) (n fd k r : ℕ) : Type 0 where
  low : fd ≤ r
  high : r < fd + n
  free : is_open (entry t r) ≡ false
  first : fd ≤ k → k < r → is_open (entry t k) ≡ true

free_from-some :
    (t : List Entry) (n fd k : ℕ) {r : ℕ} → free_from t n fd ≡ some r → Found t n fd k r
free_from-some t zero fd k {r} e = absurd (cc (free_from-zero t fd))
free_from-some t (suc n) fd k {r} e = elim (Bool-cases (is_open (entry t fd))) [
  | inl used ↦ later used (free_from-some t n (fd + 1) k (sym (branch true used) ∙ e))
  | inr unused ↦ here unused (some_inj (sym (branch false unused) ∙ e))
]
  where
    choice : Bool → Option ℕ
    choice b = if b then free_from t n (fd + 1) else some fd

    branch : (b : Bool) → is_open (entry t fd) ≡ b → free_from t (suc n) fd ≡ choice b
    branch b h = from_step t n fd ∙ ap choice h

    some_inj : some fd ≡ some r → fd ≡ r
    some_inj h = cc

    later : is_open (entry t fd) ≡ true → Found t n (fd + 1) k r → Found t (suc n) fd k r
    later used f = record {
      low = omega (arith, f.low);
      high = omega (arith, f.high);
      free = f.free;
      first = λ low high. elim (ℕ_discrete fd k) [
        | yes same ↦ ap (λ j. is_open (entry t j)) (sym same) ∙ used
        | no other ↦ f.first (omega arith) high
      ];
    }

    here : is_open (entry t fd) ≡ false → fd ≡ r → Found t (suc n) fd k r
    here unused same = record {
      low = omega arith;
      high = omega arith;
      free = ap (λ j. is_open (entry t j)) (sym same) ∙ unused;
      first = λ low high. absurd (omega arith);
    }

free_from-none :
    (t : List Entry) (n fd k : ℕ)
    → free_from t n fd ≡ none
    → fd ≤ k
    → k < fd + n
    → is_open (entry t k) ≡ true
free_from-none t zero fd k e low high = absurd (omega arith)
free_from-none t (suc n) fd k e low high = elim (Bool-cases (is_open (entry t fd))) [
  | inl used ↦ elim (ℕ_discrete fd k) [
    | yes same ↦ ap (λ j. is_open (entry t j)) (sym same) ∙ used
    | no other ↦
        free_from-none t n (fd + 1) k (sym (branch true used) ∙ e) (omega arith) (omega arith)
  ]
  | inr unused ↦ absurd (cc (sym (branch false unused) ∙ e))
]
  where
    choice : Bool → Option ℕ
    choice b = if b then free_from t n (fd + 1) else some fd

    branch : (b : Bool) → is_open (entry t fd) ≡ b → free_from t (suc n) fd ≡ choice b
    branch b h = from_step t n fd ∙ ap choice h

pub free_slot-some :
    (t : List Entry) (k : ℕ) {r : ℕ}
    → free_slot t ≡ some r
    → (first_fd ≤ r)
      × (r < table_max)
      × (is_open (entry t r) ≡ false)
      × (first_fd ≤ k → k < r → is_open (entry t k) ≡ true)
unfolding free_slot
free_slot-some t k e =
    let f = free_from-some t (table_max - first_fd) first_fd k e in (f.low, f.high, f.free, f.first)

pub free_slot-none :
    (t : List Entry) (k : ℕ)
    → free_slot t ≡ none
    → first_fd ≤ k
    → k < table_max
    → is_open (entry t k) ≡ true
unfolding free_slot
free_slot-none t k e low high = free_from-none t (table_max - first_fd) first_fd k e low high
