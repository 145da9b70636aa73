-- ===== src/Buffer/Undo.antt =====
-- buffer_undo and buffer_redo.

use nv0ken_linux.Prelude.{
  ℕ, ◌+◌, ◌-◌, ◌≤◌, ◌≡◌, Bool, true, false, not, ◌||◌, List, [], leb, ◌==◌, if◌then◌else◌, length,
  take, get_or, none, some,
}
use nv0ken_linux.Buffer.{
  Buffer, Memory, UndoRecord, undo_insert, undo_delete, insert, delete, blank,
}

-- The text that a record holds; NULL makes `buffer_insert` fail, as no text does.
abbrev pub stored : UndoRecord → List ℕ
stored r = elim r.text [ none ↦ [] | some t ↦ take r.len t ]

-- `r->type` decides which edit is played; `back` is the direction of undo.
unfoldable pub play : Memory → Buffer → UndoRecord → Bool → Buffer
play mem b r back =
    let b' = record b { in_undo = true } in
    let gone = (delete mem b' r.pos r.len).1 in
    let put = (insert mem b' r.pos (stored r)).1 in
    elim r.type [
      | undo_insert ↦
          if back then record gone { cursor = r.pos } else record put { cursor = r.pos + r.len }
      | undo_delete ↦
          if back then record put { cursor = r.pos + r.len } else record gone { cursor = r.pos }
    ]

unfoldable pub undo : Memory → Buffer → Bool × Buffer
undo mem b = if b.undo_top == 0 then (false, b) else (
  true,
  record (play mem b (get_or b.undo_stack (b.undo_top - 1) blank) true) {
    in_undo = false;
    undo_top = b.undo_top - 1;
  },
)

abbrev pub has_text : UndoRecord → Bool
has_text r = elim r.text [ none ↦ false | some _ ↦ true ]

unfoldable pub redo : Memory → Buffer → Bool × Buffer
redo mem b =
    if leb b.undo_cap b.undo_top || not (has_text (get_or b.undo_stack b.undo_top blank))
    then (false, b)
    else (
      true,
      record (play mem b (get_or b.undo_stack b.undo_top blank) false) {
        in_undo = false;
        undo_top = b.undo_top + 1;
      },
    )

-- The undo stack has `undo_cap` records, the first `undo_top` of them live.
pub record IsStacked (b : Buffer) : Type 0 where
  pub records : length b.undo_stack ≡ b.undo_cap
  pub within : b.undo_top ≤ b.undo_cap
