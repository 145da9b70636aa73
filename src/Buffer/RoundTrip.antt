-- ===== src/Buffer/RoundTrip.antt =====
-- Undoing an insertion or a deletion gives back the text that was there before it.

use nv0ken_linux.Prelude.{
  subst, ℕ, ◌+◌, ◌-◌, ◌^◌, ◌≤◌, ◌<◌, ◌≡◌, refl, sym, ap, ◌∙◌, arith, Bool, true, false, List, ◌++◌,
  ◌==◌, if◌then◌else◌, length, take, drop, slice, min, get_or, length-append, length-take,
  length-drop, take_past, drop_past, drop_split, append-nil, inl, inr, take-append-drop, some,
  take_all,
}
use nv0ken_linux.Buffer.{
  Buffer, Memory, UndoType, UndoRecord, undo_insert, undo_delete, IsValid, content, buf_length,
  gap_data, deleted, gap_grow, insert, delete, blank,
}
use nv0ken_linux.Buffer.Gap.{length-content}
use nv0ken_linux.Buffer.Edit.{inserted, removed}
use nv0ken_linux.Buffer.Text.{clipped, Inserted, Deleted, insert_lem, delete_lem}
use nv0ken_linux.Buffer.Undo.{IsStacked, undo, play}
use nv0ken_linux.Buffer.Stack.{Recorded, Grants}
use nv0ken_linux.Buffer.Newest.{insert-Recorded, delete-Recorded}

-- The two edits cancel on texts.
removed-inserted :
    (xs ys : List ℕ) (p : ℕ) → p ≤ length xs → removed (inserted xs p ys) p (length ys) ≡ xs
removed-inserted xs ys p h =
    ap (λ t. t ++ drop (p + length ys) (inserted xs p ys))
      (take_past p 0 (take p xs) (ys ++ drop p xs) (omega (arith, length-take p xs))
        ∙ append-nil (take p xs))
    ∙ ap (λ t. take p xs ++ t)
        (drop_past (p + length ys) (length ys) (take p xs) (ys ++ drop p xs)
            (omega (arith, length-take p xs))
          ∙ drop_past (length ys) 0 ys (drop p xs) (omega arith))
    ∙ take-append-drop p xs

inserted-removed :
    (xs : List ℕ) (p n : ℕ) → p + n ≤ length xs → inserted (removed xs p n) p (slice xs p n) ≡ xs
inserted-removed xs p n h =
    ap (λ t. t ++ (slice xs p n ++ drop p (removed xs p n)))
      (take_past p 0 (take p xs) (drop (p + n) xs) (omega (arith, length-take p xs))
        ∙ append-nil (take p xs))
    ∙ ap (λ t. take p xs ++ (slice xs p n ++ t))
        (drop_past p 0 (take p xs) (drop (p + n) xs) (omega (arith, length-take p xs)))
    ∙ ap (λ t. take p xs ++ t) (sym (drop_split p n xs))
    ∙ take-append-drop p xs

-- Setting the flag changes no text.
abbrev quieted : Buffer → Buffer
quieted b = record b { in_undo = true }

quieted-IsValid : {b : Buffer} → IsValid b → IsValid (quieted b)
quieted-IsValid v = record {
  cells = v.cells;
  ordered = v.ordered;
  inside = v.inside;
  small = v.small;
}

-- The newest record is played backwards.
abbrev undone : Buffer → Buffer → Buffer
undone c p = record p { in_undo = false; undo_top = c.undo_top - 1 }

undo_of :
    (mem : Memory) (c : Buffer) (r : UndoRecord)
    → 0 < c.undo_top
    → get_or c.undo_stack (c.undo_top - 1) blank ≡ r
    → undo mem c ≡ (true, undone c (play mem c r true))
unfolding undo
undo_of mem c r h e =
    ap (λ (t : Bool). if t then (false, c) else (true, undone c (play mem c newest true))) some_left
    ∙ ap (λ n. (true, undone c (play mem c n true))) e
  where
    newest : UndoRecord
    newest = get_or c.undo_stack (c.undo_top - 1) blank

    some_left : (c.undo_top == 0) ≡ false
    some_left = ground arith

Recorded-undo :
    (mem : Memory) {b c : Buffer} (type : UndoType) (pos : ℕ) (text : List ℕ)
    → Recorded b type pos text c
    → undo mem c ≡ (
      true,
      undone c (
          play mem c (record { type = type; pos = pos; text = some text; len = length text }) true),
    )
Recorded-undo mem {b} {c} type pos text r =
    undo_of mem c (record { type = type; pos = pos; text = some text; len = length text })
      (omega (arith, r.top)) (ap (λ k. get_or c.undo_stack k blank) newest ∙ r.entry)
  where
    newest : c.undo_top - 1 ≡ b.undo_top
    newest = omega (arith, r.top)

-- Both edits, with all memory granted and inside the text.
pub insert_granted :
    (mem : Memory) {b : Buffer} (pos : ℕ) (text : List ℕ)
    → Grants mem
    → IsValid b
    → 0 < length text
    → pos ≤ buf_length b
    → b.alloc + length text + gap_grow < 2 ^ 63
    → Inserted b pos text (insert mem b pos text).1
insert_granted mem {b} pos text all v h fits small = elim (insert_lem mem pos text v h small) [
  | inl (_, done, _) ↦ subst (λ k. Inserted b k text (insert mem b pos text).1) at_pos done
  | inr (_, _, none_left, _) ↦ absurd (cc (all gap_data))
]
  where
    at_pos : min pos (buf_length b) ≡ pos
    at_pos = omega arith

pub delete_granted :
    (mem : Memory) {b : Buffer} (pos len : ℕ)
    → Grants mem
    → IsValid b
    → 0 < len
    → pos + len ≤ buf_length b
    → buf_length b < 2 ^ 64
    → Deleted b pos len (delete mem b pos len).1
delete_granted mem {b} pos len all v h fits small =
    elim (delete_lem mem pos len v h (omega arith) (omega arith)) [
      | inl (_, done, _) ↦ subst (λ k. Deleted b pos k (delete mem b pos len).1) whole done
      | inr (_, _, none_left) ↦ absurd (cc (all deleted))
    ]
  where
    whole : clipped b pos len ≡ len
    whole = omega arith

pub length-small : {b : Buffer} → IsValid b → buf_length b < 2 ^ 64
unfolding buf_length
length-small v = omega arith

pub length-inserted :
    (xs ys : List ℕ) (p : ℕ) → p ≤ length xs → length (inserted xs p ys) ≡ length xs + length ys
length-inserted xs ys p h = omega (
  arith,
  length-append (take p xs) (ys ++ drop p xs),
  length-append ys (drop p xs),
  length-take p xs,
  length-drop p xs,
)

-- With memory, undoing an insertion gives back the text and puts the cursor where it was made.
pub undo-insert :
    (mem mem' : Memory) {b : Buffer} (pos : ℕ) (text : List ℕ)
    → Grants mem
    → Grants mem'
    → IsValid b
    → IsStacked b
    → b.in_undo ≡ false
    → 0 < length text
    → pos ≤ buf_length b
    → b.alloc + length text + gap_grow < 2 ^ 63
    → let r = undo mem' (insert mem b pos text).1 in
      (r.0 ≡ true) × (content r.1 ≡ content b) × (r.1.cursor ≡ pos)
unfolding play
undo-insert mem mem' {b} pos text all all' v s open_now h fits small =
    let r = insert-Recorded mem all v s open_now pos text h fits small in
    rw (Recorded-undo mem' undo_insert pos text r) (
      refl,
      gone.new_text
          ∙ ap (λ t. removed t pos (length text)) did.new_text
          ∙ removed-inserted (content b) text pos (omega (arith, length-content v)),
      refl,
    )
  where
    c : Buffer
    c = (insert mem b pos text).1

    did : Inserted b pos text c
    did = insert_granted mem pos text all v h fits small

    gone : Deleted (quieted c) pos (length text) (delete mem' (quieted c) pos (length text)).1
    gone =
        delete_granted mem' {b = quieted c} pos (length text) all' (quieted-IsValid did.valid) h
          (omega (
            arith,
            length-content (quieted-IsValid did.valid),
            ap (length {A = ℕ}) did.new_text,
            length-inserted (content b) text pos (omega (arith, length-content v)),
            length-content v,
          ))
          (length-small (quieted-IsValid did.valid))

-- With memory, undoing a deletion gives back the text and puts the cursor behind what came back.
pub undo-delete :
    (mem mem' : Memory) {b : Buffer} (pos len : ℕ)
    → Grants mem
    → Grants mem'
    → IsValid b
    → IsStacked b
    → b.in_undo ≡ false
    → 0 < len
    → pos + len ≤ buf_length b
    → (delete mem b pos len).1.alloc + len + gap_grow < 2 ^ 63
    → let r = undo mem' (delete mem b pos len).1 in
      (r.0 ≡ true) × (content r.1 ≡ content b) × (r.1.cursor ≡ pos + len)
unfolding play
undo-delete mem mem' {b} pos len all all' v s open_now h fits small =
    rw (Recorded-undo mem' undo_delete pos gone_text recorded) (
      refl,
      back.new_text
          ∙ ap (λ t. inserted t pos (take (length gone_text) gone_text)) did.new_text
          ∙ ap (λ t. inserted (removed (content b) pos len) pos t)
              (take_all (length gone_text) gone_text (omega arith))
          ∙ inserted-removed (content b) pos len (omega (arith, length-content v)),
      omega (arith, width),
    )
  where
    c : Buffer
    c = (delete mem b pos len).1

    gone_text : List ℕ
    gone_text = slice (content b) pos len

    width : length gone_text ≡ len
    width = omega (
      arith,
      length-take len (drop pos (content b)),
      length-drop pos (content b),
      length-content v,
    )

    recorded : Recorded b undo_delete pos gone_text c
    recorded =
        subst (λ k. Recorded b undo_delete pos (slice (content b) pos k) c) whole
          (delete-Recorded mem all v s open_now pos len h (omega arith)
            (omega (arith, length-small v)))
      where
        whole : clipped b pos len ≡ len
        whole = omega arith

    did : Deleted b pos len c
    did = delete_granted mem pos len all v h fits (length-small v)

    back :
        Inserted
          (quieted c)
          pos
          (take (length gone_text) gone_text)
          (insert mem' (quieted c) pos (take (length gone_text) gone_text)).1
    back =
        insert_granted mem' {b = quieted c} pos (take (length gone_text) gone_text) all'
          (quieted-IsValid did.valid) (omega (arith, width, all_of_it))
          (omega (
            arith,
            length-content (quieted-IsValid did.valid),
            ap (length {A = ℕ}) did.new_text,
            length-append (take pos (content b)) (drop (pos + len) (content b)),
            length-take pos (content b),
            length-content v,
          ))
          (omega (arith, width, all_of_it))
      where
        all_of_it : length (take (length gone_text) gone_text) ≡ length gone_text
        all_of_it = omega (arith, length-take (length gone_text) gone_text)
