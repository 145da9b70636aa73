-- ===== src/Buffer/Grow.antt =====
-- Growing the array keeps the text.
use native.Mathlib.Decide.{dec_le}
use nv0ken_linux.Prelude.{
  ℕ, zero, suc, ◌+◌, ◌-◌, ◌^◌, ◌≤◌, ◌<◌, ◌≡◌, refl, ap, ◌∙◌, arith, true, false, List, ◌++◌, length,
  take, drop, slice, overlay, length-append, length-drop, take-append_le, take_past, drop-append_le,
  drop_all, inl, inr, Bool-cases, ◌⊎◌, append-nil,
}
use nv0ken_linux.Word.{add64, sub64}
use nv0ken_linux.Buffer.{
  Buffer, Memory, IsValid, content, gap_ensure, gap_data, gap_grow, grown, fresh_cells,
}
use nv0ken_linux.Buffer.Blocks.{length-overlay, take-overlay, drop-overlay, length-slice}
use nv0ken_linux.Buffer.Gap.{SameRest, same_rest}

length-fresh_cells : (junk : ℕ → ℕ) (i n : ℕ) → length (fresh_cells junk i n) ≡ n
unfolding fresh_cells
length-fresh_cells junk i zero = refl
length-fresh_cells junk i (suc n) = ap suc (length-fresh_cells junk (i + 1) n)

-- The gap has room for `needed` characters, and the text is the same.
pub record Ensured (b : Buffer) (needed : ℕ) (c : Buffer) : Type 0 where
  pub valid : IsValid c
  pub room : needed + c.gap_start ≤ c.gap_end
  pub same_text : content c ≡ content b
  pub rest : SameRest b c

module _ (mem : Memory) {b : Buffer} (grow : ℕ) (v : IsValid b)
    (small : b.alloc + grow < 2 ^ 63) where
  cells : List ℕ
  cells = b.chars ++ fresh_cells mem.junk b.alloc grow

  length-cells : length cells ≡ b.alloc + grow
  unfolding cells
  length-cells = omega (
    arith,
    length-append b.chars (fresh_cells mem.junk b.alloc grow),
    length-fresh_cells mem.junk b.alloc grow,
    v.cells,
  )

  -- The block that the grown array moves up is the text behind the gap.
  tail_block : slice cells b.gap_end (b.alloc - b.gap_end) ≡ drop b.gap_end b.chars
  unfolding cells
  tail_block =
      ap (take (b.alloc - b.gap_end)) (
        drop-append_le b.gap_end b.chars (fresh_cells mem.junk b.alloc grow)
          (omega (arith, v.cells)))
      ∙ take_past (b.alloc - b.gap_end) 0 (drop b.gap_end b.chars)
          (fresh_cells mem.junk b.alloc grow)
          (omega (arith, length-drop b.gap_end b.chars, v.cells))
      ∙ append-nil (drop b.gap_end b.chars)

  grown-text : content (grown mem b grow) ≡ content b
  unfolding cells
  grown-text =
      ap (λ k. take b.gap_start moved ++ drop k moved) wraps
      ∙ ap (λ t. t ++ drop (b.gap_end + grow) moved)
          (take-overlay cells (b.gap_end + grow) b.gap_start block (omega arith)
              (omega (arith, length-cells, v.inside))
            ∙ take-append_le b.gap_start b.chars (fresh_cells mem.junk b.alloc grow)
                (omega (arith, v.cells)))
      ∙ ap (λ t. take b.gap_start b.chars ++ t)
          (drop-overlay cells (b.gap_end + grow) block (omega (arith, length-cells, v.inside))
            ∙ ap (λ t. block ++ t) (drop_all (b.gap_end + grow + length block) cells all)
            ∙ append-nil block
            ∙ tail_block)
    where
      block : List ℕ
      block = slice cells b.gap_end (b.alloc - b.gap_end)

      moved : List ℕ
      moved = overlay cells (b.gap_end + grow) block

      wraps : add64 b.gap_end grow ≡ b.gap_end + grow
      wraps = omega (arith, v.inside)

      all : length cells ≤ b.gap_end + grow + length block
      all = omega (
        arith,
        length-cells,
        length-slice cells b.gap_end (b.alloc - b.gap_end) (omega (arith, length-cells, v.inside)),
      )

  grown-IsValid : IsValid (grown mem b grow)
  unfolding cells
  grown-IsValid = record {
    cells =
        length-overlay cells (b.gap_end + grow) (slice cells b.gap_end (b.alloc - b.gap_end)) (
          omega (
            arith,
            length-cells,
            length-slice cells b.gap_end (b.alloc - b.gap_end)
                (omega (arith, length-cells, v.inside)),
          ))
        ∙ omega (arith, length-cells);
    ordered = omega (arith, v.ordered, v.inside);
    inside = omega (arith, v.inside);
    small = omega (arith, v.inside);
  }

-- The gap has the room already, or there is memory for a larger array.
abbrev pub CanHold : Memory → Buffer → ℕ → Type 0
CanHold mem b needed = (needed + b.gap_start ≤ b.gap_end) ⊎ (mem.grants gap_data ≡ true)

-- `gap_ensure` makes the room that it is asked for and keeps the text, or, when the gap is too small
-- and the array cannot grow, changes nothing.
pub gap_ensure_cases :
    (mem : Memory) {b : Buffer} (needed : ℕ)
    → IsValid b
    → b.alloc + needed + gap_grow < 2 ^ 63
    → ((gap_ensure mem b needed).0 ≡ true)
        × Ensured b needed (gap_ensure mem b needed).1
        × CanHold mem b needed
      ⊎ ((gap_ensure mem b needed).0 ≡ false)
        × ((gap_ensure mem b needed).1 ≡ b)
        × (mem.grants gap_data ≡ false)
        × (b.gap_end < needed + b.gap_start)
unfolding gap_ensure
gap_ensure_cases mem {b} needed v h = elim (dec_le (needed + b.gap_start) b.gap_end) [
  | yes roomy ↦ inl (
    ground arith,
    rw (at_once roomy)
        (record { valid = v; room = roomy; same_text = refl; rest = same_rest b _ _ _ _ }),
    inl roomy,
  )
  | no tight ↦ elim (Bool-cases (mem.grants gap_data)) [
    | inl yes_grow ↦ inl (
      ground arith,
      rw (after tight yes_grow) (record {
        valid = grown-IsValid mem (grow_by needed) v (grow_small tight);
        room = omega (arith, grow_small tight, grow_is tight);
        same_text = grown-text mem (grow_by needed) v (grow_small tight);
        rest = same_rest b _ _ _ _;
      }),
      inr yes_grow,
    )
    | inr no_grow ↦ inr (ground arith, ground arith, no_grow, omega arith)
  ]
]
  where
    grow_by : ℕ → ℕ
    grow_by n = add64 (sub64 n (sub64 b.gap_end b.gap_start)) gap_grow

    grow_is :
        ¬ (needed + b.gap_start ≤ b.gap_end)
        → grow_by needed ≡ needed - (b.gap_end - b.gap_start) + gap_grow
    grow_is t = omega (arith, v.ordered, v.inside, v.small)

    grow_small : ¬ (needed + b.gap_start ≤ b.gap_end) → b.alloc + grow_by needed < 2 ^ 63
    grow_small t = omega (arith, grow_is t)

    at_once : needed + b.gap_start ≤ b.gap_end → (gap_ensure mem b needed).1 ≡ b
    at_once r = ground arith

    after :
        ¬ (needed + b.gap_start ≤ b.gap_end)
        → mem.grants gap_data ≡ true
        → (gap_ensure mem b needed).1 ≡ grown mem b (grow_by needed)
    after t g = ground arith
