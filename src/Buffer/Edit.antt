-- ===== src/Buffer/Edit.antt =====
-- Insertion and deletion, as operations on the text.

use nv0ken_linux.Prelude.{
  ℕ, ◌+◌, ◌-◌, ◌^◌, ◌≤◌, ◌<◌, ◌≡◌, sym, ap, ◌∙◌, arith, true, List, ◌++◌, ltb, leb, if◌then◌else◌,
  length, take, drop, overlay, length-append, length-take, length-drop, take_past, drop_past,
  drop-drop, append_assoc, append-nil,
}
use nv0ken_linux.Buffer.{
  Buffer, Memory, undo_insert, undo_delete, IsValid, content, buf_length, gap_move, undo_push,
  insert_at, delete_at, chars_from,
}
use nv0ken_linux.Buffer.Blocks.{length-overlay, take-overlay_block, drop-overlay_beyond}
use nv0ken_linux.Buffer.Gap.{length-content, Moved, gap_move-Moved}
use nv0ken_linux.Buffer.Record.{
  SameText, undo_push-SameText, SameText-content, SameText-length, SameText-IsValid,
}

-- The parts of the array round the gap, from the text.
module _ {b : Buffer} (v : IsValid b) where
  front : take b.gap_start b.chars ≡ take b.gap_start (content b)
  front = sym (
      take_past b.gap_start 0 (take b.gap_start b.chars) (drop b.gap_end b.chars)
        (omega (arith, length-take b.gap_start b.chars, v.cells, v.ordered, v.inside))
      ∙ append-nil (take b.gap_start b.chars))

  back : drop b.gap_end b.chars ≡ drop b.gap_start (content b)
  back = sym (
      drop_past b.gap_start 0 (take b.gap_start b.chars) (drop b.gap_end b.chars)
        (omega (arith, length-take b.gap_start b.chars, v.cells, v.ordered, v.inside)))

-- The text with a block put in, and with a block taken out.
abbrev pub inserted : List ℕ → ℕ → List ℕ → List ℕ
inserted xs pos ys = take pos xs ++ (ys ++ drop pos xs)

abbrev pub removed : List ℕ → ℕ → ℕ → List ℕ
removed xs pos len = take pos xs ++ drop (pos + len) xs

-- The array and the gap after `memcpy(b->data + b->gap_start, text, len)`.
abbrev pub filled : Buffer → List ℕ → Buffer
filled c text = record c {
  chars = overlay c.chars c.gap_start text;
  gap_start = c.gap_start + length text;
}

module _ {b c : Buffer} (pos : ℕ) (m : Moved b pos c) where
  front-moved : take c.gap_start c.chars ≡ take pos (content b)
  front-moved = front m.valid ∙ ap (λ k. take k (content c)) m.start ∙ ap (take pos) m.same_text

  back-moved : drop c.gap_end c.chars ≡ drop pos (content b)
  back-moved = back m.valid ∙ ap (λ k. drop k (content c)) m.start ∙ ap (drop pos) m.same_text

  module _ (text : List ℕ) (room : length text + c.gap_start ≤ c.gap_end) where
    filled-content : content (filled c text) ≡ inserted (content b) pos text
    filled-content =
        ap (λ t. t ++ drop c.gap_end (overlay c.chars c.gap_start text))
          (take-overlay_block c.chars c.gap_start text start_in)
        ∙ ap (λ t. (take c.gap_start c.chars ++ text) ++ t)
            (drop-overlay_beyond c.chars c.gap_start c.gap_end text (omega (arith, room)) start_in)
        ∙ append_assoc (take c.gap_start c.chars) text (drop c.gap_end c.chars)
        ∙ ap (λ t. t ++ (text ++ drop c.gap_end c.chars)) front-moved
        ∙ ap (λ t. take pos (content b) ++ (text ++ t)) back-moved
      where
        start_in : c.gap_start ≤ length c.chars
        start_in = omega (arith, m.valid.cells, m.valid.ordered, m.valid.inside)

    filled-IsValid : IsValid (filled c text)
    filled-IsValid = record {
      cells =
          length-overlay c.chars c.gap_start text
            (omega (arith, room, m.valid.cells, m.valid.inside))
          ∙ m.valid.cells;
      ordered = omega (arith, room);
      inside = m.valid.inside;
      small = m.valid.small;
    }

  module _ (len : ℕ) (room : pos + len ≤ length (content b)) where
    abbrev cut : Buffer
    cut = record c { gap_end = c.gap_end + len }

    cut-content : content cut ≡ removed (content b) pos len
    cut-content =
        ap (λ t. t ++ drop (c.gap_end + len) c.chars) front-moved
        ∙ ap (λ t. take pos (content b) ++ t)
            (sym (drop-drop len c.gap_end c.chars)
              ∙ ap (drop len) back-moved
              ∙ drop-drop len pos (content b))

    cut-IsValid : IsValid cut
    cut-IsValid = record {
      cells = m.valid.cells;
      ordered = omega (arith, m.valid.ordered);
      inside = omega (
        arith,
        m.start,
        ap length m.same_text,
        length-append (take c.gap_start c.chars) (drop c.gap_end c.chars),
        length-take c.gap_start c.chars,
        length-drop c.gap_end c.chars,
        m.valid.cells,
        m.valid.ordered,
        m.valid.inside,
        room,
      );
      small = m.valid.small;
    }

-- `buffer_insert` behind `gap_ensure`: the text, the cursor, and the invariant.
module _ (mem : Memory) {b : Buffer} (pos : ℕ) (text : List ℕ) (v : IsValid b)
    (fits : pos ≤ buf_length b) (room : length text + b.gap_start ≤ b.gap_end) where
  pub moved : Moved b pos (gap_move b pos)
  moved = gap_move-Moved pos v fits

  moved_room : length text + (gap_move b pos).gap_start ≤ (gap_move b pos).gap_end
  moved_room = omega (arith, moved.start, moved.width)

  -- What `buffer_insert` hands to `undo_push`.
  abbrev pub typed : Buffer
  typed = record (filled (gap_move b pos) text) {
    cursor =
        if leb pos (gap_move b pos).cursor
        then (gap_move b pos).cursor + length text
        else (gap_move b pos).cursor;
    modified = true;
    lines_dirty = true;
  }

  insert_at-SameText : SameText typed (insert_at mem b pos text)
  unfolding insert_at
  insert_at-SameText = undo_push-SameText mem undo_insert pos text typed

  typed-IsValid : IsValid typed
  typed-IsValid =
      let f = filled-IsValid pos moved text moved_room in
      record { cells = f.cells; ordered = f.ordered; inside = f.inside; small = f.small }

  pub insert_at-IsValid : IsValid (insert_at mem b pos text)
  insert_at-IsValid = SameText-IsValid insert_at-SameText typed-IsValid

  pub insert_at-content : content (insert_at mem b pos text) ≡ inserted (content b) pos text
  insert_at-content = SameText-content insert_at-SameText ∙ filled-content pos moved text moved_room

  pub insert_at-cursor :
      (insert_at mem b pos text).cursor
      ≡ (if leb pos b.cursor then b.cursor + length text else b.cursor)
  insert_at-cursor =
      insert_at-SameText.cursor
      ∙ ap (λ (k : ℕ). if leb pos k then k + length text else k) moved.rest.same_cursor

-- `buffer_delete` once the text to delete is copied.
module _ (mem : Memory) {b : Buffer} (pos len : ℕ) (v : IsValid b)
    (room : pos + len ≤ buf_length b) where
  abbrev logged : Buffer
  logged = undo_push mem b undo_delete pos (chars_from b pos len)

  logged-SameText : SameText b logged
  logged-SameText = undo_push-SameText mem undo_delete pos (chars_from b pos len) b

  logged-Moved : Moved logged pos (gap_move logged pos)
  logged-Moved =
      gap_move-Moved pos (SameText-IsValid logged-SameText v)
        (omega (arith, SameText-length logged-SameText))

  text_room : pos + len ≤ length (content logged)
  text_room =
      omega (arith, length-content v, ap (length {A = ℕ}) (SameText-content logged-SameText))

  pub delete_at-IsValid : IsValid (delete_at mem b pos len)
  unfolding delete_at
  delete_at-IsValid =
      let c = cut-IsValid pos logged-Moved len text_room in
      record { cells = c.cells; ordered = c.ordered; inside = c.inside; small = c.small }

  pub delete_at-content : content (delete_at mem b pos len) ≡ removed (content b) pos len
  unfolding delete_at
  delete_at-content =
      cut-content pos logged-Moved len text_room
      ∙ ap (λ t. removed t pos len) (SameText-content logged-SameText)

  pub delete_at-cursor :
      pos + len < 2 ^ 64
      → (delete_at mem b pos len).cursor ≡ (
          if ltb pos b.cursor
          then (if leb b.cursor (pos + len) then pos else b.cursor - len)
          else b.cursor)
  unfolding delete_at
  delete_at-cursor h = ground (arith, logged-Moved.rest.same_cursor, logged-SameText.cursor)
