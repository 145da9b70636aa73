-- ===== src/Buffer/Record.antt =====
-- Recording an edit on the undo stack, and what it leaves alone.

use nv0ken_linux.Prelude.{
  ℕ, ◌≡◌, refl, ap, ◌∙◌, arith, Bool, true, false, List, if◌then◌else◌, length,
}
use nv0ken_linux.Buffer.{
  Buffer, Memory, UndoType, IsValid, content, buf_length, undo_push, undo_push_ready,
  undo_push_room, undo_store, undo_more_room, undo_first_stack, undo_clear_from,
}

-- Two states agree in the array, the gap, the cursor and the mark.
pub record SameText (b c : Buffer) : Type 0 where
  pub chars : c.chars ≡ b.chars
  pub gap_start : c.gap_start ≡ b.gap_start
  pub gap_end : c.gap_end ≡ b.gap_end
  pub alloc : c.alloc ≡ b.alloc
  pub cursor : c.cursor ≡ b.cursor

SameText-trans : {a b c : Buffer} → SameText a b → SameText b c → SameText a c
SameText-trans s t = record {
  chars = t.chars ∙ s.chars;
  gap_start = t.gap_start ∙ s.gap_start;
  gap_end = t.gap_end ∙ s.gap_end;
  alloc = t.alloc ∙ s.alloc;
  cursor = t.cursor ∙ s.cursor;
}

SameText-refl : (b : Buffer) → SameText b b
SameText-refl b = record {
  chars = refl;
  gap_start = refl;
  gap_end = refl;
  alloc = refl;
  cursor = refl;
}

SameText-if :
    (t : Bool) {b x y : Buffer} → SameText b x → SameText b y → SameText b (if t then x else y)
SameText-if true s r = s
SameText-if false s r = r

module _ (mem : Memory) where
  undo_first_stack-SameText : (b : Buffer) → SameText b (undo_first_stack mem b).1
  unfolding undo_first_stack
  undo_first_stack-SameText b = ground arith

  undo_more_room-SameText : (b : Buffer) → SameText b (undo_more_room mem b).1
  unfolding undo_more_room
  undo_more_room-SameText b = ground arith

  undo_clear_from-SameText : (b : Buffer) (top : ℕ) → SameText b (undo_clear_from b top)
  unfolding undo_clear_from
  undo_clear_from-SameText b top = ground arith

  module _ (type : UndoType) (pos : ℕ) (text : List ℕ) where
    undo_store-SameText : (b : Buffer) → SameText b (undo_store mem type pos text b)
    unfolding undo_store
    undo_store-SameText b = ground arith

    undo_push_room-SameText :
        (r : Bool × Buffer) → SameText r.1 (undo_push_room mem type pos text r)
    unfolding undo_push_room
    undo_push_room-SameText (false, b) = ground arith
    undo_push_room-SameText (true, b) = undo_store-SameText b

    undo_push_ready-SameText :
        (r : Bool × Buffer) → SameText r.1 (undo_push_ready mem type pos text r)
    unfolding undo_push_ready
    undo_push_ready-SameText (false, b) = ground arith
    undo_push_ready-SameText (true, b) = SameText-trans (undo_clear_from-SameText b b.undo_top) (
        SameText-trans (undo_more_room-SameText (undo_clear_from b b.undo_top))
          (undo_push_room-SameText (undo_more_room mem (undo_clear_from b b.undo_top))))

    -- Recording an edit leaves the text alone, whichever allocations fail.
    pub undo_push-SameText : (b : Buffer) → SameText b (undo_push mem b type pos text)
    unfolding undo_push
    undo_push-SameText b = SameText-if b.in_undo (SameText-refl b) (
        SameText-trans (undo_first_stack-SameText b)
          (undo_push_ready-SameText (undo_first_stack mem b)))

module _ {b c : Buffer} (s : SameText b c) where
  pub SameText-content : content c ≡ content b
  SameText-content = ground (arith, s.chars, s.gap_start, s.gap_end)

  pub SameText-length : buf_length c ≡ buf_length b
  unfolding buf_length
  SameText-length = ground (arith, s.alloc, s.gap_start, s.gap_end)

  pub SameText-IsValid : IsValid b → IsValid c
  SameText-IsValid v = ground (arith, ap (length {A = ℕ}) s.chars, s.alloc, s.gap_start, s.gap_end)
