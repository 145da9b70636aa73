-- ===== src/Buffer/Newest.antt =====
-- What an insertion or a deletion that gets its memory leaves on the undo stack.

use nv0ken_linux.Prelude.{
  ℕ, ◌+◌, ◌^◌, ◌≤◌, ◌<◌, ◌≡◌, sym, ap, ◌∙◌, arith, Bool, true, false, List, length, slice, min,
  get_or, inl, inr, ◌⊎◌,
}
use nv0ken_linux.Buffer.{
  Buffer, Memory, UndoType, UndoRecord, undo_insert, undo_delete, IsValid, content, buf_length,
  gap_data, deleted, gap_grow, insert, delete, blank, undo_push, chars_from, delete_at, insert_at,
  gap_ensure, insert_ensured, gap_move,
}
use nv0ken_linux.Buffer.Gap.{Moved, gap_move-Moved}
use nv0ken_linux.Buffer.Grow.{Ensured, CanHold, gap_ensure_cases}
use nv0ken_linux.Buffer.Read.{chars_from-slice}
use nv0ken_linux.Buffer.Record.{SameText, undo_push-SameText, SameText-IsValid, SameText-length}
use nv0ken_linux.Buffer.Edit.{typed}
use nv0ken_linux.Buffer.Text.{kept_length, clipped, delete_done, insert-eq}
use nv0ken_linux.Buffer.Undo.{IsStacked}
use nv0ken_linux.Buffer.Stack.{Recorded, Grants, undo_push-Recorded}

Recorded-from :
    {b t c : Buffer} (type : UndoType) (pos : ℕ) (text : List ℕ)
    → t.undo_top ≡ b.undo_top
    → t.in_undo ≡ b.in_undo
    → Recorded t type pos text c
    → Recorded b type pos text c
Recorded-from {b} {t} {c} type pos text top flag r = record {
  stacked = r.stacked;
  top = omega (arith, r.top);
  entry = ap (λ k. get_or c.undo_stack k blank) (sym top) ∙ r.entry;
  quiet = r.quiet ∙ flag;
}

IsStacked-from :
    {b t : Buffer}
    → t.undo_top ≡ b.undo_top
    → t.undo_cap ≡ b.undo_cap
    → t.undo_stack ≡ b.undo_stack
    → IsStacked b
    → IsStacked t
IsStacked-from top cap stack s = record {
  records = ap (length {A = UndoRecord}) stack ∙ s.records ∙ sym cap;
  within = omega (arith, s.within, top, cap);
}

-- Only the undo stack and the flag matter.
Recorded-to :
    {b c d : Buffer} (type : UndoType) (pos : ℕ) (text : List ℕ)
    → d.undo_stack ≡ c.undo_stack
    → d.undo_top ≡ c.undo_top
    → d.undo_cap ≡ c.undo_cap
    → d.in_undo ≡ c.in_undo
    → Recorded b type pos text c
    → Recorded b type pos text d
Recorded-to {b} {c} {d} type pos text stack top cap flag r = record {
  stacked = IsStacked-from top cap stack r.stacked;
  top = top ∙ r.top;
  entry = ap (λ k. get_or k b.undo_top blank) stack ∙ r.entry;
  quiet = flag ∙ r.quiet;
}

module _ (mem : Memory) (all : Grants mem) {b : Buffer} (v : IsValid b) (s : IsStacked b)
    (open_now : b.in_undo ≡ false) where
  insert_at-Recorded :
      {e : Buffer} (pos : ℕ) (text : List ℕ)
      → pos ≤ buf_length e
      → Ensured b (length text) e
      → Recorded b undo_insert pos text (insert_at mem e pos text)
  unfolding insert_at
  insert_at-Recorded {e} pos text fits ens =
      Recorded-from undo_insert pos text (m.rest.same_top ∙ ens.rest.same_top)
        (m.rest.same_in_undo ∙ ens.rest.same_in_undo)
        (undo_push-Recorded mem all undo_insert pos text
          (typed mem pos text ens.valid fits ens.room)
          (IsStacked-from (m.rest.same_top ∙ ens.rest.same_top)
            (m.rest.same_cap ∙ ens.rest.same_cap) (m.rest.same_stack ∙ ens.rest.same_stack) s)
          (m.rest.same_in_undo ∙ ens.rest.same_in_undo ∙ open_now))
    where
      m : Moved e pos (gap_move e pos)
      m = gap_move-Moved pos ens.valid fits

  insert_ensured-Recorded :
      (pos : ℕ) (text : List ℕ) (r : Bool × Buffer)
      → pos ≤ buf_length b
      → (r.0 ≡ true) × Ensured b (length text) r.1 × CanHold mem b (length text)
        ⊎ (r.0 ≡ false)
          × (r.1 ≡ b)
          × (mem.grants gap_data ≡ false)
          × (b.gap_end < length text + b.gap_start)
      → Recorded b undo_insert pos text (insert_ensured mem pos text r).1
  unfolding insert_ensured
  insert_ensured-Recorded pos text (true, e) fits (inl (_, ens, _)) =
      insert_at-Recorded pos text (omega (arith, fits, kept_length v ens)) ens
  insert_ensured-Recorded pos text (true, e) fits (inr (q, _, _, _)) = absurd (cc)
  insert_ensured-Recorded pos text (false, e) fits (inl (q, _, _)) = absurd (cc)
  insert_ensured-Recorded pos text (false, e) fits (inr (_, _, no_gap, _)) =
      absurd (cc (all gap_data))

  pub insert-Recorded :
      (pos : ℕ) (text : List ℕ)
      → 0 < length text
      → pos ≤ buf_length b
      → b.alloc + length text + gap_grow < 2 ^ 63
      → Recorded b undo_insert pos text (insert mem b pos text).1
  insert-Recorded pos text h fits small =
      rw (insert-eq mem b pos text h, at_pos)
        (insert_ensured-Recorded pos text (gap_ensure mem b (length text)) fits
          (gap_ensure_cases mem (length text) v small))
    where
      at_pos : min pos (buf_length b) ≡ pos
      at_pos = omega arith

  delete_at-Recorded :
      (pos n : ℕ)
      → pos + n ≤ buf_length b
      → Recorded b undo_delete pos (slice (content b) pos n) (delete_at mem b pos n)
  unfolding delete_at
  delete_at-Recorded pos n h = rw (← chars_from-slice n pos v h) (
      Recorded-to undo_delete pos (chars_from b pos n) m.rest.same_stack m.rest.same_top
        m.rest.same_cap m.rest.same_in_undo
        (undo_push-Recorded mem all undo_delete pos (chars_from b pos n) b s open_now))
    where
      log : Buffer
      log = undo_push mem b undo_delete pos (chars_from b pos n)

      same : SameText b log
      same = undo_push-SameText mem undo_delete pos (chars_from b pos n) b

      m : Moved log pos (gap_move log pos)
      m = gap_move-Moved pos (SameText-IsValid same v) (omega (arith, SameText-length same))

  pub delete-Recorded :
      (pos len : ℕ)
      → 0 < len
      → pos < buf_length b
      → pos + len < 2 ^ 64
      → Recorded b undo_delete pos
          (slice (content b) pos (clipped b pos len))
          (delete mem b pos len).1
  delete-Recorded pos len h inside fits =
      rw (delete_done mem b pos len h inside fits (all deleted))
        (delete_at-Recorded pos (clipped b pos len) (omega arith))
