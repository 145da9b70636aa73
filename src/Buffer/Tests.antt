-- ===== src/Buffer/Tests.antt =====
-- Runs of the gap buffer, and its theorems at the text "abcd" with a gap of two cells in the middle.
use nv0ken_linux.Prelude.{◌≤◌, ◌<◌, ◌≡◌, refl, arith, true, false, [], ◌∷◌, ◌⊎◌, length}
use nv0ken_linux.Buffer.{
  Buffer, Memory, IsValid, content, blank, buf_length, char_at, insert, delete, phys, delete_at,
  gap_move, undo_push, undo_clear_from,
}
use nv0ken_linux.Buffer.Text.{insert_lem, delete_lem, Inserted, Deleted}
use nv0ken_linux.Buffer.Undo.{undo, IsStacked}
use nv0ken_linux.Buffer.Stack.{Grants}
use nv0ken_linux.Buffer.RoundTrip.{undo-insert, undo-delete}
use nv0ken_linux.Buffer.Cursor.{CursorIn, paste, has_selection}
use nv0ken_linux.Buffer.Paste.{paste_overshoots}
use nv0ken_linux.Buffer.Find.{find, Occurs, find-none, matches, find_from, fold}

abbrev sample : Buffer
sample = record {
  chars = 97 ∷ 98 ∷ 0 ∷ 0 ∷ 99 ∷ 100 ∷ [];
  gap_start = 2;
  gap_end = 4;
  alloc = 6;
  cursor = 2;
  mark = 0;
  mark_active = false;
  modified = false;
  undo_stack = [];
  undo_top = 0;
  undo_cap = 0;
  in_undo = false;
  lines_dirty = true;
}

abbrev memory : Memory
memory = record { grants = λ s. true; junk = λ i. 0; junk_record = λ i. blank }

granted : Grants memory
granted s = refl

sample-IsValid : IsValid sample
sample-IsValid = record {
  cells = refl;
  ordered = omega arith;
  inside = omega arith;
  small = omega arith;
}

sample-IsStacked : IsStacked sample
sample-IsStacked = record { records = refl; within = omega arith }

sample-CursorIn : CursorIn sample
unfolding buf_length
sample-CursorIn = omega arith

insert_lem_example :
    ((insert memory sample 1 (120 ∷ [])).0 ≡ true)
      × Inserted sample 1 (120 ∷ []) (insert memory sample 1 (120 ∷ [])).1
      × ((3 ≤ 4) ⊎ (true ≡ true))
    ⊎ ((insert memory sample 1 (120 ∷ [])).0 ≡ false)
      × ((insert memory sample 1 (120 ∷ [])).1 ≡ sample)
      × (true ≡ false)
      × (4 < 3)
unfolding buf_length
insert_lem_example = insert_lem memory 1 (120 ∷ []) sample-IsValid (omega arith) (omega arith)

delete_lem_example :
    ((delete memory sample 1 2).0 ≡ true)
      × Deleted sample 1 2 (delete memory sample 1 2).1
      × (true ≡ true)
    ⊎ ((delete memory sample 1 2).0 ≡ false)
      × ((delete memory sample 1 2).1 ≡ sample)
      × (true ≡ false)
unfolding buf_length
delete_lem_example =
    delete_lem memory 1 2 sample-IsValid (omega arith) (unfold buf_length in omega arith)
      (omega arith)

undo-insert_example :
    let r = undo memory (insert memory sample 1 (120 ∷ [])).1 in
    (r.0 ≡ true) × (content r.1 ≡ 97 ∷ 98 ∷ 99 ∷ 100 ∷ []) × (r.1.cursor ≡ 1)
undo-insert_example =
    undo-insert memory memory 1 (120 ∷ []) granted granted sample-IsValid sample-IsStacked refl
      (omega arith) (unfold buf_length in omega arith) (omega arith)

undo-delete_example :
    let r = undo memory (delete memory sample 1 2).1 in
    (r.0 ≡ true) × (content r.1 ≡ 97 ∷ 98 ∷ 99 ∷ 100 ∷ []) × (r.1.cursor ≡ 3)
undo-delete_example =
    undo-delete memory memory 1 2 granted granted sample-IsValid sample-IsStacked refl (omega arith)
      (unfold buf_length in omega arith)
      (unfold delete delete_at gap_move undo_push undo_clear_from buf_length in omega arith)

paste_overshoots_example :
    let r = paste memory memory sample (120 ∷ 121 ∷ 122 ∷ []) in length (content r.1) < r.1.cursor
paste_overshoots_example =
    paste_overshoots memory memory (120 ∷ 121 ∷ 122 ∷ []) granted sample-IsValid
      (unfold has_selection in refl) sample-CursorIn (unfold buf_length in omega arith)
      (omega arith)

find-none_example : ¬ Occurs sample true 1 (66 ∷ 99 ∷ [])
unfolding find find_from fold matches buf_length char_at phys
find-none_example =
    find-none 0 1 (66 ∷ 99 ∷ []) true sample-IsValid (omega arith) refl (omega arith) (omega arith)
