-- ===== src/Buffer.antt =====
-- apps/text_editor/buffer.c: the editor's gap buffer with its undo stack.
-- `chars` is the array `data` with all of its cells, the ones in the gap included. The heap is not
-- under this file's control: a call takes a `Memory`, which says which of its allocations succeed
-- and what fresh memory holds. An array that is NULL is the empty list. The buffer itself exists.
-- `filename`, loading and saving are left out. A function that returns 0 or -1 returns true or false.
pub mod Blocks
pub mod Gap
pub mod Grow
pub mod Read
pub mod Record
pub mod Edit
pub mod Text
pub mod Undo
pub mod Stack
pub mod Newest
pub mod RoundTrip
pub mod Cursor
pub mod Paste
pub mod Find
mod Tests
use nv0ken_linux.Prelude.{
  ℕ, zero, suc, ◌+◌, ◌-◌, ◌*◌, ◌^◌, ◌≤◌, ◌<◌, ◌≡◌, Bool, true, false, not, ◌&&◌, ◌||◌, List, [],
  ◌∷◌, ◌++◌, Option, none, some, ltb, leb, ◌==◌, if◌then◌else◌, is_empty, length, get_or, set, take,
  drop, replicate, slice, overlay,
}
use nv0ken_linux.Word.{add64, sub64}

pub data UndoType : Type 0 where
  undo_insert undo_delete : UndoType

pub record UndoRecord : Type 0 where
  pub type : UndoType
  pub pos : ℕ
  pub text : Option (List ℕ)
  pub len : ℕ

-- The places where the modelled functions allocate.
pub data Site : Type 0 where
  gap_data undo_first undo_more undo_text deleted : Site

pub record Memory : Type 0 where
  pub grants : Site → Bool
  pub junk : ℕ → ℕ
  pub junk_record : ℕ → UndoRecord

pub record Buffer : Type 0 where
  pub chars : List ℕ
  pub gap_start : ℕ
  pub gap_end : ℕ
  pub alloc : ℕ
  pub cursor : ℕ
  pub mark : ℕ
  pub mark_active : Bool
  pub modified : Bool
  pub undo_stack : List UndoRecord
  pub undo_top : ℕ
  pub undo_cap : ℕ
  pub in_undo : Bool
  pub lines_dirty : Bool

abbrev pub gap_grow : ℕ
gap_grow = 4096

abbrev pub first_undo_cap : ℕ
first_undo_cap = 256

-- `n` cells of fresh memory, from index `i` on.
pub fresh_cells {ℓ} : {A : Type ℓ} → (ℕ → A) → ℕ → ℕ → List A
fresh_cells junk i zero = []
fresh_cells junk i (suc n) = junk i ∷ fresh_cells junk (i + 1) n

unfoldable pub buf_length : Buffer → ℕ
buf_length b = sub64 b.alloc (sub64 b.gap_end b.gap_start)

unfoldable pub gap_move : Buffer → ℕ → Buffer
gap_move b pos =
    if pos == b.gap_start
    then b
    else if ltb pos b.gap_start
    then (let move = b.gap_start - pos in
        record b {
          chars = overlay b.chars (b.gap_end - move) (slice b.chars pos move);
          gap_end = b.gap_end - move;
          gap_start = b.gap_start - move;
        })
    else (let move = pos - b.gap_start in
        record b {
          chars = overlay b.chars b.gap_start (slice b.chars b.gap_end move);
          gap_start = b.gap_start + move;
          gap_end = b.gap_end + move;
        })

-- The state after the array has grown by `grow` cells.
abbrev pub grown : Memory → Buffer → ℕ → Buffer
grown mem b grow =
    let cells = b.chars ++ fresh_cells mem.junk b.alloc grow in
    record b {
      chars = overlay cells (b.gap_end + grow) (slice cells b.gap_end (b.alloc - b.gap_end));
      gap_end = add64 b.gap_end grow;
      alloc = add64 b.alloc grow;
    }

unfoldable pub gap_ensure : Memory → Buffer → ℕ → Bool × Buffer
gap_ensure mem b needed =
    let gap_size = sub64 b.gap_end b.gap_start in
    if leb needed gap_size
    then (true, b)
    else if mem.grants gap_data
    then (true, grown mem b (add64 (sub64 needed gap_size) gap_grow))
    else (false, b)

-- The cell that holds the character at a position.
unfoldable pub phys : Buffer → ℕ → ℕ
phys b pos = if ltb pos b.gap_start then pos else add64 pos (sub64 b.gap_end b.gap_start)

unfoldable pub char_at : Buffer → ℕ → ℕ
unfolding buf_length phys
char_at b pos = if leb (buf_length b) pos then 0 else get_or b.chars (phys b pos) 0

abbrev pub blank : UndoRecord
blank = record { type = undo_insert; pos = 0; text = none; len = 0 }

-- `undo_clear_from`, with `n` records left from `i` on.
pub clear_from : ℕ → ℕ → List UndoRecord → List UndoRecord
clear_from zero i stack = stack
clear_from (suc n) i stack =
    clear_from n (i + 1) (set stack i (record (get_or stack i blank) { text = none; len = 0 }))

unfoldable pub undo_clear_from : Buffer → ℕ → Buffer
unfolding clear_from
undo_clear_from b top = record b { undo_stack = clear_from (b.undo_cap - top) top b.undo_stack }

-- The steps of `undo_push`. The Boolean says whether it goes on.
pub undo_first_stack : Memory → Buffer → Bool × Buffer
undo_first_stack mem b =
    if is_empty b.undo_stack
    then (if mem.grants undo_first
        then (
          true,
          record b {
            undo_stack = replicate first_undo_cap blank;
            undo_cap = first_undo_cap;
            undo_top = 0;
          },
        )
        else (false, b))
    else (true, b)

pub undo_more_room : Memory → Buffer → Bool × Buffer
undo_more_room mem b =
    if leb b.undo_cap b.undo_top
    then (if mem.grants undo_more
        then (
          true,
          record b {
            undo_stack = b.undo_stack ++ fresh_cells mem.junk_record b.undo_cap b.undo_cap;
            undo_cap = b.undo_cap * 2;
          },
        )
        else (false, b))
    else (true, b)

-- The record is overwritten before its text is allocated.
pub undo_store : Memory → UndoType → ℕ → List ℕ → Buffer → Buffer
undo_store mem type pos text b =
    if mem.grants undo_text
    then record b {
      undo_stack =
          set b.undo_stack b.undo_top
            (record { type = type; pos = pos; text = some text; len = length text });
      undo_top = b.undo_top + 1;
    }
    else record b {
      undo_stack =
          set b.undo_stack b.undo_top
            (record { type = type; pos = pos; text = none; len = length text });
    }

pub undo_push_room : Memory → UndoType → ℕ → List ℕ → Bool × Buffer → Buffer
undo_push_room mem type pos text (false, b) = b
undo_push_room mem type pos text (true, b) = undo_store mem type pos text b

pub undo_push_ready : Memory → UndoType → ℕ → List ℕ → Bool × Buffer → Buffer
undo_push_ready mem type pos text (false, b) = b
undo_push_ready mem type pos text (true, b) =
    undo_push_room mem type pos text (undo_more_room mem (undo_clear_from b b.undo_top))

unfoldable pub undo_push : Memory → Buffer → UndoType → ℕ → List ℕ → Buffer
unfolding undo_push_ready undo_push_room undo_store undo_more_room undo_first_stack
undo_push mem b type pos text =
    if b.in_undo then b else undo_push_ready mem type pos text (undo_first_stack mem b)

-- `buffer_insert`, from the point where the gap is large enough.
unfoldable pub insert_at : Memory → Buffer → ℕ → List ℕ → Buffer
insert_at mem b pos text =
    let c = gap_move b pos in
    undo_push mem
      (record c {
        chars = overlay c.chars c.gap_start text;
        gap_start = c.gap_start + length text;
        cursor = if leb pos c.cursor then c.cursor + length text else c.cursor;
        modified = true;
        lines_dirty = true;
      })
      undo_insert pos text

pub insert_ensured : Memory → ℕ → List ℕ → Bool × Buffer → Bool × Buffer
insert_ensured mem pos text (false, b) = (false, b)
insert_ensured mem pos text (true, b) = (true, insert_at mem b pos text)

unfoldable pub insert : Memory → Buffer → ℕ → List ℕ → Bool × Buffer
unfolding insert_ensured
insert mem b pos text =
    if is_empty text
    then (false, b)
    else insert_ensured mem (if ltb (buf_length b) pos then buf_length b else pos) text
        (gap_ensure mem b (length text))

-- The loop that copies `n` characters from `pos` on.
pub chars_from : Buffer → ℕ → ℕ → List ℕ
chars_from b pos zero = []
chars_from b pos (suc n) = char_at b pos ∷ chars_from b (pos + 1) n

-- `buffer_delete`, from the point where the text to delete has been copied.
unfoldable pub delete_at : Memory → Buffer → ℕ → ℕ → Buffer
delete_at mem b pos len =
    let c = gap_move (undo_push mem b undo_delete pos (chars_from b pos len)) pos in
    record c {
      gap_end = c.gap_end + len;
      cursor =
          if ltb pos c.cursor
          then if leb c.cursor (add64 pos len) then pos else c.cursor - len
          else c.cursor;
      modified = true;
      lines_dirty = true;
    }

unfoldable pub delete : Memory → Buffer → ℕ → ℕ → Bool × Buffer
delete mem b pos len =
    let n = if ltb (buf_length b) (add64 pos len) then buf_length b - pos else len in
    if len == 0 || leb (buf_length b) pos
    then (false, b)
    else if mem.grants deleted
    then (true, delete_at mem b pos n)
    else (false, b)

-- The gap lies inside the array.
pub record IsValid (b : Buffer) : Type 0 where
  pub cells : length b.chars ≡ b.alloc
  pub ordered : b.gap_start ≤ b.gap_end
  pub inside : b.gap_end ≤ b.alloc
  pub small : b.alloc < 2 ^ 63

-- The text that the buffer stands for.
abbrev pub content : Buffer → List ℕ
content b = take b.gap_start b.chars ++ drop b.gap_end b.chars
