-- ===== src/Buffer/Text.antt =====
-- `buffer_insert` and `buffer_delete` as a caller sees them.

use nv0ken_linux.Prelude.{
  ℕ, ◌+◌, ◌-◌, ◌^◌, ◌≤◌, ◌<◌, ◌≡◌, refl, sym, ap, ◌∙◌, arith, Bool, true, false, List, [], ◌∷◌, ltb,
  leb, if◌then◌else◌, length, min, is_empty, inl, inr, ◌⊎◌, Bool-cases,
}
use nv0ken_linux.Word.{add64}
use nv0ken_linux.Buffer.{
  Buffer, Memory, IsValid, content, buf_length, gap_ensure, gap_data, deleted, gap_grow, insert_at,
  insert, insert_ensured, delete_at, delete,
}
use nv0ken_linux.Buffer.Gap.{length-content}
use nv0ken_linux.Buffer.Grow.{Ensured, CanHold, gap_ensure_cases}
use nv0ken_linux.Buffer.Edit.{
  inserted, removed, insert_at-IsValid, insert_at-content, insert_at-cursor, delete_at-IsValid,
  delete_at-content, delete_at-cursor,
}

-- What a successful insertion does.
pub record Inserted (b : Buffer) (at : ℕ) (text : List ℕ) (c : Buffer) : Type 0 where
  pub valid : IsValid c
  pub new_text : content c ≡ inserted (content b) at text
  pub new_cursor : c.cursor ≡ (if leb at b.cursor then b.cursor + length text else b.cursor)

-- What a successful deletion does.
pub record Deleted (b : Buffer) (pos n : ℕ) (c : Buffer) : Type 0 where
  pub valid : IsValid c
  pub new_text : content c ≡ removed (content b) pos n
  pub new_cursor : c.cursor ≡ (
      if ltb pos b.cursor then (if leb b.cursor (pos + n) then pos else b.cursor - n) else b.cursor)

pub kept_length : {b c : Buffer} {n : ℕ} → IsValid b → Ensured b n c → buf_length c ≡ buf_length b
kept_length v e = sym (length-content e.valid) ∙ ap (length {A = ℕ}) e.same_text ∙ length-content v

insert_at-Inserted :
    (mem : Memory) {b c : Buffer} (pos : ℕ) (text : List ℕ)
    → IsValid b
    → pos ≤ buf_length b
    → Ensured b (length text) c
    → Inserted b pos text (insert_at mem c pos text)
insert_at-Inserted mem {b} {c} pos text v h e = record {
  valid = insert_at-IsValid mem pos text e.valid fits e.room;
  new_text =
      insert_at-content mem pos text e.valid fits e.room
      ∙ ap (λ t. inserted t pos text) e.same_text;
  new_cursor =
      insert_at-cursor mem pos text e.valid fits e.room
      ∙ ap (λ (k : ℕ). if leb pos k then k + length text else k) e.rest.same_cursor;
}
  where
    fits : pos ≤ buf_length c
    fits = omega (arith, kept_length v e)

pub not_nil : (text : List ℕ) → 0 < length text → is_empty text ≡ false
not_nil [] h = absurd (omega arith)
not_nil (x ∷ xs) h = refl

pub insert-eq :
    (mem : Memory) (b : Buffer) (pos : ℕ) (text : List ℕ)
    → 0 < length text
    → insert mem b pos text
      ≡ insert_ensured mem (min pos (buf_length b)) text (gap_ensure mem b (length text))
unfolding insert
insert-eq mem b pos text h =
    ap
      (λ (t : Bool).
        if t then (false, b) else insert_ensured mem at text (gap_ensure mem b (length text)))
      (not_nil text h)
    ∙ ap (λ k. insert_ensured mem k text (gap_ensure mem b (length text))) clamped
  where
    at : ℕ
    at = if ltb (buf_length b) pos then buf_length b else pos

    clamped : at ≡ min pos (buf_length b)
    clamped = ground arith

-- With memory, or with room in the gap, `buffer_insert` of a non-empty text succeeds: the text is
-- put in at the position, or at the end for a position beyond it, a cursor at or behind it moves
-- along, and the invariant is kept. It fails only without either, and leaves the buffer as it was.
pub insert_lem :
    (mem : Memory) {b : Buffer} (pos : ℕ) (text : List ℕ)
    → IsValid b
    → 0 < length text
    → b.alloc + length text + gap_grow < 2 ^ 63
    → ((insert mem b pos text).0 ≡ true)
        × Inserted b (min pos (buf_length b)) text (insert mem b pos text).1
        × CanHold mem b (length text)
      ⊎ ((insert mem b pos text).0 ≡ false)
        × ((insert mem b pos text).1 ≡ b)
        × (mem.grants gap_data ≡ false)
        × (b.gap_end < length text + b.gap_start)
unfolding insert_ensured
insert_lem mem {b} pos text v h small =
    rw (insert-eq mem b pos text h)
      (go (gap_ensure mem b (length text)) (gap_ensure_cases mem (length text) v small))
  where
    go :
        (r : Bool × Buffer)
        → (r.0 ≡ true) × Ensured b (length text) r.1 × CanHold mem b (length text)
          ⊎ (r.0 ≡ false)
            × (r.1 ≡ b)
            × (mem.grants gap_data ≡ false)
            × (b.gap_end < length text + b.gap_start)
        → ((insert_ensured mem (min pos (buf_length b)) text r).0 ≡ true)
            × Inserted b
                (min pos (buf_length b))
                text
                (insert_ensured mem (min pos (buf_length b)) text r).1
            × CanHold mem b (length text)
          ⊎ ((insert_ensured mem (min pos (buf_length b)) text r).0 ≡ false)
            × ((insert_ensured mem (min pos (buf_length b)) text r).1 ≡ b)
            × (mem.grants gap_data ≡ false)
            × (b.gap_end < length text + b.gap_start)
    go (true, c) (inl (_, e, holds)) =
        inl (refl, insert_at-Inserted mem (min pos (buf_length b)) text v (omega arith) e, holds)
    go (true, c) (inr (e, _, _, _)) = absurd (cc)
    go (false, c) (inl (e, _, _)) = absurd (cc)
    go (false, c) (inr (_, e, g, tight)) = inr (refl, e, g, tight)

-- The length that `buffer_delete` cuts its argument to.
abbrev pub clipped : Buffer → ℕ → ℕ → ℕ
clipped b pos len = min len (buf_length b - pos)

pub delete_done :
    (mem : Memory) (b : Buffer) (pos len : ℕ)
    → 0 < len
    → pos < buf_length b
    → pos + len < 2 ^ 64
    → mem.grants deleted ≡ true
    → delete mem b pos len ≡ (true, delete_at mem b pos (clipped b pos len))
unfolding delete
delete_done mem b pos len h inside fits g = ground (arith, ap (λ k. delete_at mem b pos k) cut)
  where
    cut :
        (if ltb (buf_length b) (add64 pos len) then buf_length b - pos else len) ≡ clipped b pos len
    cut = ground arith

-- `buffer_delete` inside the text removes the characters from the position on, at most to the end,
-- moves the cursor by what is gone before it, and keeps the invariant. It succeeds only with memory
-- for the copy, and without that it fails and changes nothing.
pub delete_lem :
    (mem : Memory) {b : Buffer} (pos len : ℕ)
    → IsValid b
    → 0 < len
    → pos < buf_length b
    → pos + len < 2 ^ 64
    → ((delete mem b pos len).0 ≡ true)
        × Deleted b pos (clipped b pos len) (delete mem b pos len).1
        × (mem.grants deleted ≡ true)
      ⊎ ((delete mem b pos len).0 ≡ false)
        × ((delete mem b pos len).1 ≡ b)
        × (mem.grants deleted ≡ false)
delete_lem mem {b} pos len v h inside fits = elim (Bool-cases (mem.grants deleted)) [
  | inl yes_copy ↦ inl (
      rw (delete_done mem b pos len h inside fits yes_copy) (
        refl,
        record {
          valid = delete_at-IsValid mem pos (clipped b pos len) v (omega arith);
          new_text = delete_at-content mem pos (clipped b pos len) v (omega arith);
          new_cursor = delete_at-cursor mem pos (clipped b pos len) v (omega arith) (omega arith);
        },
        yes_copy,
      ))
  | inr no_copy ↦ inr (unfold delete in (ground arith, ground arith, no_copy))
]

-- `buffer_delete` of nothing, or behind the end of the text, fails and changes nothing.
pub delete_refused :
    (mem : Memory) (b : Buffer) (pos len : ℕ)
    → (len ≡ 0) ⊎ (buf_length b ≤ pos)
    → delete mem b pos len ≡ (false, b)
unfolding delete
delete_refused mem b pos len h = ground arith
