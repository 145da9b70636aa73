-- ===== src/Buffer/Paste.antt =====
-- Pasting: the text goes in at the cursor, and the cursor runs ahead of it.
use nv0ken_linux.Prelude.{
  ℕ, ◌+◌, ◌^◌, ◌≤◌, ◌<◌, ◌≡◌, refl, ap, ◌∙◌, arith, Bool, true, false, List, leb, if◌then◌else◌,
  length, inl, inr,
}
use nv0ken_linux.Word.{add64}
use nv0ken_linux.Buffer.{Buffer, Memory, IsValid, content, buf_length, insert, gap_grow, gap_data}
use nv0ken_linux.Buffer.Gap.{length-content}
use nv0ken_linux.Buffer.Edit.{inserted}
use nv0ken_linux.Buffer.Text.{Inserted, insert_lem, not_nil}
use nv0ken_linux.Buffer.Stack.{Grants}
use nv0ken_linux.Buffer.RoundTrip.{insert_granted, length-inserted}
use nv0ken_linux.Buffer.Cursor.{CursorIn, has_selection, delete_selection, paste_at, paste}

paste_plain :
    (mem mem' : Memory) (b : Buffer) (text : List ℕ)
    → has_selection b ≡ false
    → 0 < length text
    → paste mem mem' b text ≡ paste_at mem' text b
unfolding paste
paste_plain mem mem' b text plain h =
    ap
      (λ (t : Bool).
        if t
        then (false, b)
        else paste_at mem' text (if has_selection b then (delete_selection mem b).1 else b))
      (not_nil text h)
    ∙ ap (λ (t : Bool). paste_at mem' text (if t then (delete_selection mem b).1 else b)) plain

module _ (mem : Memory) {b : Buffer} (text : List ℕ) (all : Grants mem) (v : IsValid b)
    (h : 0 < length text) (inside : CursorIn b)
    (small : b.alloc + length text + gap_grow < 2 ^ 63) where
  did : Inserted b b.cursor text (insert mem b b.cursor text).1
  did = insert_granted mem b.cursor text all v h inside small

  succeeds : (insert mem b b.cursor text).0 ≡ true
  succeeds = elim (insert_lem mem b.cursor text v h small) [
    | inl (done, _, _) ↦ done
    | inr (_, _, none_left, _) ↦ absurd (cc (all gap_data))
  ]

  at_cursor :
      (if leb b.cursor b.cursor then b.cursor + length text else b.cursor) ≡ b.cursor + length text
  at_cursor = ground arith

  once : (insert mem b b.cursor text).1.cursor ≡ b.cursor + length text
  once = did.new_cursor ∙ at_cursor

  length-alloc : buf_length b ≤ b.alloc
  unfolding buf_length
  length-alloc = omega (arith, v.ordered, v.inside, v.small)

  cursor_twice :
      add64 (insert mem b b.cursor text).1.cursor (length text)
      ≡ b.cursor + length text + length text
  cursor_twice = omega (arith, once, length-alloc, inside, small)

  paste_at_lem :
      let r = paste_at mem text b in
      (r.0 ≡ true)
      × (content r.1 ≡ inserted (content b) b.cursor text)
      × (r.1.cursor ≡ b.cursor + length text + length text)
  unfolding paste_at
  paste_at_lem = rw succeeds (refl, did.new_text, cursor_twice)

-- With no selection and with memory, `buffer_paste` puts the text in at the cursor, and leaves the
-- cursor twice the length of the text further on.
pub paste_lem :
    (mem mem' : Memory) {b : Buffer} (text : List ℕ)
    → Grants mem'
    → IsValid b
    → has_selection b ≡ false
    → 0 < length text
    → CursorIn b
    → b.alloc + length text + gap_grow < 2 ^ 63
    → let r = paste mem mem' b text in
      (r.0 ≡ true)
      × (content r.1 ≡ inserted (content b) b.cursor text)
      × (r.1.cursor ≡ b.cursor + length text + length text)
paste_lem mem mem' {b} text all v plain h inside small =
    rw (paste_plain mem mem' b text plain h) (paste_at_lem mem' text all v h inside small)

-- With no selection and with memory, a paste of a text that is longer than what stands behind the
-- cursor leaves the cursor outside the text that the buffer holds afterwards.
pub paste_overshoots :
    (mem mem' : Memory) {b : Buffer} (text : List ℕ)
    → Grants mem'
    → IsValid b
    → has_selection b ≡ false
    → CursorIn b
    → buf_length b < b.cursor + length text
    → b.alloc + length text + gap_grow < 2 ^ 63
    → let r = paste mem mem' b text in length (content r.1) < r.1.cursor
paste_overshoots mem mem' {b} text all v plain inside over small =
    let r = paste_lem mem mem' text all v plain (omega arith) inside small in
    omega (
      arith,
      r.2,
      ap (length {A = ℕ}) r.1,
      length-inserted (content b) text b.cursor (omega (arith, length-content v)),
      length-content v,
    )
