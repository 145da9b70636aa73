-- ===== src/Bitmap/Search.antt =====
-- The two searches for clear bits find the first one, and miss none.
use native.Mathlib.Decide.{dec_lt}
use nv0ken_linux.Prelude.{
  ℕ, zero, suc, ◌+◌, ◌≤◌, ◌<◌, ◌≡◌, refl, ◌⊎◌, inl, inr, arith, true, false, none, some, ◌==◌,
  if◌then◌else◌, Bool-cases,
}
use nv0ken_linux.Bitmap.{
  Bitmap, IsValid, test, find_clear_from, find_clear, find_range_from, find_clear_range,
}
use nv0ken_linux.Bitmap.Laws.{not_empty}

module _ (b : Bitmap) (k : ℕ) where
  find_clear_from-some :
      (n i : ℕ) {r : ℕ}
      → find_clear_from b n i ≡ some r
      → (i ≤ r) × (r < i + n) × (test b r ≡ false) × ((test b k ≡ true) ⊎ (k < i) ⊎ (r ≤ k))
  unfolding find_clear_from
  find_clear_from-some zero i e = absurd (ground arith)
  find_clear_from-some (suc n) i {r} e = elim (Bool-cases (test b i)) [
    | inl used ↦ ground (arith, find_clear_from-some n (i + 1) {r = r})
    | inr free ↦ ground arith
  ]

  find_clear_from-none :
      (n i : ℕ) → find_clear_from b n i ≡ none → i ≤ k → k < i + n → test b k ≡ true
  unfolding find_clear_from
  find_clear_from-none zero i e h h' = absurd (omega arith)
  find_clear_from-none (suc n) i e h h' = elim (Bool-cases (test b i)) [
    | inl used ↦ ground (arith, find_clear_from-none n (i + 1))
    | inr free ↦ ground arith
  ]

-- What `bitmap_find_clear` returns is a clear bit of the map, and every bit below it is set.
pub find_clear-some :
    (b : Bitmap) (k : ℕ) {r : ℕ}
    → find_clear b ≡ some r
    → (r < b.bit_count) × (test b r ≡ false) × ((test b k ≡ true) ⊎ (r ≤ k))
unfolding find_clear
find_clear-some b k {r} e = ground (arith, find_clear_from-some b k b.bit_count 0 {r = r})

-- It fails only when every bit of a valid map is set.
pub find_clear-none :
    (b : Bitmap) (k : ℕ) → IsValid b → find_clear b ≡ none → k < b.bit_count → test b k ≡ true
unfolding find_clear
find_clear-none b k v e h = ground (arith, not_empty k v h, find_clear_from-none b k b.bit_count 0)

-- A set bit stands in the way of a run of `count` clear bits from `s` on.
pub record Blocked (b : Bitmap) (count s : ℕ) : Type 0 where
  pub at : ℕ
  pub above : s ≤ at
  pub below : at < s + count
  pub is_set : test b at ≡ true

module _ (b : Bitmap) (count : ℕ) where
  -- The bits of the current run are clear.
  abbrev Run : ℕ → ℕ → Type 0
  Run i len = (k : ℕ) → k < i → i ≤ k + len → test b k ≡ false

  Run-extend : (i len : ℕ) → Run i len → test b i ≡ false → Run (i + 1) (len + 1)
  Run-extend i len run free k h h' = ground (arith, run k)

  find_range_from_clear :
      (n i start len k : ℕ) {r : ℕ}
      → Run i len
      → len < count
      → len ≤ i
      → ((len ≡ 0) ⊎ (start + len ≡ i))
      → find_range_from b count n i start len ≡ some r
      → (r + count ≤ i + n) × ((test b k ≡ false) ⊎ (k < r) ⊎ (r + count ≤ k))
  unfolding find_range_from
  find_range_from_clear zero i start len k run h h' s e = absurd (ground arith)
  find_range_from_clear (suc n) i start len k {r} run h h' s e = elim (Bool-cases (test b i)) [
    | inl used ↦
        ground
          (arith, find_range_from_clear n (i + 1) start 0 k {r = r} (λ j p q. absurd (omega arith)))
    | inr free ↦ ground (
      arith,
      Run-extend i len run free k,
      find_range_from_clear n (i + 1) (if len == 0 then i else start) (len + 1) k {r = r}
          (Run-extend i len run free),
    )
  ]

  -- Every start that the loop has passed by is blocked.
  module _ (s : ℕ) where
    abbrev Passed : ℕ → ℕ → Type 0
    Passed i len = s + len < i → Blocked b count s

    Passed-reset :
        (i len : ℕ) → len < count → len ≤ i → Passed i len → test b i ≡ true → Passed (i + 1) 0
    Passed-reset i len h h' passed used p = elim (dec_lt (s + len) i) [
      | yes q ↦ passed q
      | no q ↦ record { at = i; above = omega arith; below = omega arith; is_set = used }
    ]

    find_range_from_first :
        (n i start len : ℕ) {r : ℕ}
        → Passed i len
        → len < count
        → len ≤ i
        → ((len ≡ 0) ⊎ (start + len ≡ i))
        → find_range_from b count n i start len ≡ some r
        → s < r
        → Blocked b count s
    unfolding find_range_from
    find_range_from_first zero i start len passed h h' st e lt = absurd (ground arith)
    find_range_from_first (suc n) i start len {r} passed h h' st e lt =
        elim (Bool-cases (test b i)) [
          | inl used ↦
              find_range_from_first n (i + 1) start 0 {r = r} (Passed-reset i len h h' passed used)
                (omega arith) (omega arith) (inl refl) (ground arith) lt
          | inr free ↦ elim (Bool-cases (len + 1 == count)) [
            | inl full ↦ passed (ground arith)
            | inr more ↦
                find_range_from_first n (i + 1) (if len == 0 then i else start) (len + 1) {r = r}
                  (λ p. passed (omega arith)) (ground arith) (omega arith) (inr (ground arith))
                  (ground arith) lt
          ]
        ]

    find_range_from-none :
        (n i start len : ℕ)
        → Passed i len
        → len < count
        → len ≤ i
        → find_range_from b count n i start len ≡ none
        → s + count ≤ i + n
        → Blocked b count s
    unfolding find_range_from
    find_range_from-none zero i start len passed h h' e le = passed (omega arith)
    find_range_from-none (suc n) i start len passed h h' e le = elim (Bool-cases (test b i)) [
      | inl used ↦
          find_range_from-none n (i + 1) start 0 (Passed-reset i len h h' passed used) (omega arith)
            (omega arith) (ground arith) (omega arith)
      | inr free ↦ elim (Bool-cases (len + 1 == count)) [
        | inl full ↦ absurd (ground arith)
        | inr more ↦
            find_range_from-none n (i + 1) (if len == 0 then i else start) (len + 1)
              (λ p. passed (omega arith)) (ground arith) (omega arith) (ground arith) (omega arith)
      ]
    ]

-- What `bitmap_find_clear_range` returns starts a run of `count` clear bits inside the map.
pub find_clear_range-some :
    (b : Bitmap) (count k : ℕ) {r : ℕ}
    → find_clear_range b count ≡ some r
    → (r + count ≤ b.bit_count) × ((test b k ≡ false) ⊎ (k < r) ⊎ (r + count ≤ k))
unfolding find_clear_range
find_clear_range-some b count k {r} e = ground (
  arith,
  find_range_from_clear b count b.bit_count 0 0 0 k {r = r} (λ j p q. absurd (omega arith)),
)

find_clear_range_guard :
    (b : Bitmap) (count : ℕ) {r : ℕ}
    → find_clear_range b count ≡ some r
    → (0 < count) × (find_range_from b count b.bit_count 0 0 0 ≡ some r)
unfolding find_clear_range
find_clear_range_guard b count {r} e = ground arith

-- It is the first: every earlier start is blocked by a set bit.
pub find_clear_range_first :
    (b : Bitmap) (count s : ℕ) {r : ℕ}
    → find_clear_range b count ≡ some r
    → s < r
    → Blocked b count s
find_clear_range_first b count s {r} e lt =
    find_range_from_first b count s b.bit_count 0 0 0 {r = r} (λ p. absurd (omega arith))
      (find_clear_range_guard b count e).0 (omega arith) (inl refl)
      (find_clear_range_guard b count e).1 lt

find_clear_range_tried :
    (b : Bitmap) (count s : ℕ)
    → IsValid b
    → find_clear_range b count ≡ none
    → 0 < count
    → s + count ≤ b.bit_count
    → find_range_from b count b.bit_count 0 0 0 ≡ none
unfolding find_clear_range
find_clear_range_tried b count s v e pos le = ground (arith, not_empty s v (omega arith))

-- It fails on a valid map and a positive `count` only when every start is blocked.
pub find_clear_range-none :
    (b : Bitmap) (count s : ℕ)
    → IsValid b
    → find_clear_range b count ≡ none
    → 0 < count
    → s + count ≤ b.bit_count
    → Blocked b count s
find_clear_range-none b count s v e pos le =
    find_range_from-none b count s b.bit_count 0 0 0 (λ p. absurd (omega arith)) pos (omega arith)
      (find_clear_range_tried b count s v e pos le) (omega arith)
