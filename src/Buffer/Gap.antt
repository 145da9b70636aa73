-- ===== src/Buffer/Gap.antt =====
-- Moving and growing the gap do not change the text, and a character is read where it stands.

use nv0ken_linux.Prelude.{
  ℕ, ◌+◌, ◌-◌, ◌≤◌, ◌<◌, ◌≡◌, refl, sym, ap, ◌∙◌, arith, List, ◌++◌, length, take, drop, slice,
  overlay, length-append, length-take, length-drop, inl, inr, ◌⊎◌,
}
use nv0ken_linux.Buffer.{Buffer, IsValid, content, buf_length, gap_move}
use nv0ken_linux.Buffer.Blocks.{length-overlay, length-slice, move_down, move_up}

pub length-content : {b : Buffer} → IsValid b → length (content b) ≡ buf_length b
unfolding buf_length
length-content {b} v = omega (
  arith,
  length-append (take b.gap_start b.chars) (drop b.gap_end b.chars),
  length-take b.gap_start b.chars,
  length-drop b.gap_end b.chars,
  v.cells,
)

-- The state after the gap has moved down, and up.
abbrev moved_down : Buffer → ℕ → Buffer
moved_down b pos = record b {
  chars = overlay b.chars (b.gap_end - (b.gap_start - pos)) (slice b.chars pos (b.gap_start - pos));
  gap_end = b.gap_end - (b.gap_start - pos);
  gap_start = b.gap_start - (b.gap_start - pos);
}

abbrev moved_up : Buffer → ℕ → Buffer
moved_up b pos = record b {
  chars = overlay b.chars b.gap_start (slice b.chars b.gap_end (pos - b.gap_start));
  gap_start = b.gap_start + (pos - b.gap_start);
  gap_end = b.gap_end + (pos - b.gap_start);
}

gap_move_cases :
    (b : Buffer) (pos : ℕ)
    → ((gap_move b pos ≡ b) × (pos ≡ b.gap_start))
      ⊎ ((gap_move b pos ≡ moved_down b pos) × (pos < b.gap_start))
      ⊎ ((gap_move b pos ≡ moved_up b pos) × (b.gap_start < pos))
unfolding gap_move
gap_move_cases b pos = ground arith

-- Two states agree in all but the array and the gap.
pub record SameRest (b c : Buffer) : Type 0 where
  pub same_cursor : c.cursor ≡ b.cursor
  pub same_stack : c.undo_stack ≡ b.undo_stack
  pub same_top : c.undo_top ≡ b.undo_top
  pub same_cap : c.undo_cap ≡ b.undo_cap
  pub same_in_undo : c.in_undo ≡ b.in_undo
  pub same_mark : c.mark ≡ b.mark
  pub same_active : c.mark_active ≡ b.mark_active

pub same_rest :
    (b : Buffer) (xs : List ℕ) (s e a : ℕ)
    → SameRest b (record b { chars = xs; gap_start = s; gap_end = e; alloc = a })
same_rest b xs s e a = record {
  same_cursor = refl;
  same_stack = refl;
  same_top = refl;
  same_cap = refl;
  same_in_undo = refl;
  same_mark = refl;
  same_active = refl;
}

-- What a gap move is: the gap starts at `pos`, is as wide as before, and the text is the same.
pub record Moved (b : Buffer) (pos : ℕ) (c : Buffer) : Type 0 where
  pub valid : IsValid c
  pub start : c.gap_start ≡ pos
  pub width : c.gap_end + b.gap_start ≡ b.gap_end + pos
  pub same_text : content c ≡ content b
  pub same_alloc : c.alloc ≡ b.alloc
  pub rest : SameRest b c

module _ {b : Buffer} (pos : ℕ) (v : IsValid b) (fits : pos ≤ buf_length b) where
  pos_room : pos + b.gap_end ≤ length b.chars + b.gap_start
  unfolding buf_length
  pos_room = omega (arith, v.cells, fits)

  moved_down-Moved : pos < b.gap_start → Moved b pos (moved_down b pos)
  moved_down-Moved h = record {
    valid = record {
      cells =
          length-overlay b.chars (b.gap_end - (b.gap_start - pos)) block (omega (arith, width))
          ∙ v.cells;
      ordered = omega arith;
      inside = omega arith;
      small = v.small;
    };
    start = omega arith;
    width = omega arith;
    same_text =
        ap (λ k. take k shifted ++ drop (b.gap_end - (b.gap_start - pos)) shifted) here
        ∙ move_down b.chars pos (b.gap_start - pos) b.gap_end (omega arith) (omega (arith, v.cells))
        ∙ ap (λ k. take k b.chars ++ drop b.gap_end b.chars) there;
    same_alloc = refl;
    rest = same_rest b _ _ _ _;
  }
    where
      block : List ℕ
      block = slice b.chars pos (b.gap_start - pos)

      shifted : List ℕ
      shifted = overlay b.chars (b.gap_end - (b.gap_start - pos)) block

      width : length block ≡ b.gap_start - pos
      width = length-slice b.chars pos (b.gap_start - pos) (omega (arith, v.cells))

      here : b.gap_start - (b.gap_start - pos) ≡ pos
      here = omega arith

      there : pos + (b.gap_start - pos) ≡ b.gap_start
      there = omega arith

  moved_up-Moved : b.gap_start < pos → Moved b pos (moved_up b pos)
  moved_up-Moved h = record {
    valid = record {
      cells = length-overlay b.chars b.gap_start block (omega (arith, width, pos_room)) ∙ v.cells;
      ordered = omega arith;
      inside = omega (arith, pos_room, v.cells);
      small = v.small;
    };
    start = omega arith;
    width = omega arith;
    same_text =
        move_up b.chars b.gap_start (pos - b.gap_start) b.gap_end v.ordered
          (omega (arith, pos_room));
    same_alloc = refl;
    rest = same_rest b _ _ _ _;
  }
    where
      block : List ℕ
      block = slice b.chars b.gap_end (pos - b.gap_start)

      width : length block ≡ pos - b.gap_start
      width = length-slice b.chars b.gap_end (pos - b.gap_start) (omega (arith, pos_room))

  stays-Moved : pos ≡ b.gap_start → Moved b pos b
  stays-Moved e = record {
    valid = v;
    start = sym e;
    width = omega arith;
    same_text = refl;
    same_alloc = refl;
    rest = same_rest b _ _ _ _;
  }

  -- `gap_move` to a position of the text keeps the text and the width of the gap.
  pub gap_move-Moved : Moved b pos (gap_move b pos)
  gap_move-Moved = elim (gap_move_cases b pos) [
    | inl (e, h) ↦ rw e (stays-Moved h)
    | inr (inl (e, h)) ↦ rw e (moved_down-Moved h)
    | inr (inr (e, h)) ↦ rw e (moved_up-Moved h)
  ]
