-- ===== src/Buffer/Read.antt =====
-- Reading characters: what `buffer_char_at` and the copying loops see is the text.
use native.Mathlib.Decide.{dec_lt}
use nv0ken_linux.Prelude.{
  ℕ, zero, suc, ◌+◌, ◌-◌, ◌≤◌, ◌<◌, ◌≡◌, refl, sym, ap, ◌∙◌, arith, ◌∷◌, ltb, if◌then◌else◌, get_or,
  take, drop, slice, length-take, get_or-append_lt, get_or-append_past, get_or-take, get_or-drop,
  get_or_out, slice-suc,
}
use nv0ken_linux.Buffer.{Buffer, IsValid, content, buf_length, phys, char_at}
use nv0ken_linux.Buffer.{chars_from}
use nv0ken_linux.Buffer.Gap.{length-content}

module _ {b : Buffer} (i : ℕ) (v : IsValid b) where
  before_gap : i < b.gap_start → get_or (content b) i 0 ≡ get_or b.chars i 0
  before_gap h =
      get_or-append_lt (take b.gap_start b.chars) (drop b.gap_end b.chars) i 0
        (omega (arith, length-take b.gap_start b.chars, v.cells, v.ordered, v.inside))
      ∙ get_or-take b.gap_start i b.chars 0 h

  behind_gap :
      ¬ (i < b.gap_start)
      → get_or (content b) i 0 ≡ get_or b.chars (b.gap_end + (i - b.gap_start)) 0
  behind_gap h =
      get_or-append_past (take b.gap_start b.chars) (drop b.gap_end b.chars) i (i - b.gap_start) 0
        (omega (arith, length-take b.gap_start b.chars, v.cells, v.ordered, v.inside))
      ∙ get_or-drop b.gap_end (i - b.gap_start) b.chars 0

  phys_at :
      i < buf_length b → phys b i ≡ (if ltb i b.gap_start then i else b.gap_end + (i - b.gap_start))
  unfolding phys buf_length
  phys_at h = ground (arith, v.inside, v.ordered, v.small)

  -- `buffer_char_at` reads the text, and 0 behind its end.
  pub char_at_lem : char_at b i ≡ get_or (content b) i 0
  unfolding char_at
  char_at_lem = elim (dec_lt i (buf_length b)) [
    | yes h ↦
        ground (arith, phys_at h, before_gap, behind_gap, ap (λ k. get_or b.chars k 0) (phys_at h))
    | no h ↦ ground (arith, get_or_out (content b) i 0 (omega (arith, length-content v)))
  ]

-- The loops that copy text out of the buffer copy a slice of it.
pub chars_from-slice :
    {b : Buffer} (n pos : ℕ)
    → IsValid b
    → pos + n ≤ buf_length b
    → chars_from b pos n ≡ slice (content b) pos n
unfolding chars_from
chars_from-slice {b} zero pos v h = refl
chars_from-slice {b} (suc n) pos v h =
    ap (λ t. t ∷ chars_from b (pos + 1) n) (char_at_lem pos v)
    ∙ ap (λ t. get_or (content b) pos 0 ∷ t) (chars_from-slice n (pos + 1) v (omega arith))
    ∙ sym (slice-suc (content b) pos n 0 (omega (arith, length-content v)))
