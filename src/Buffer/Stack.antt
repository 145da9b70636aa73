-- ===== src/Buffer/Stack.antt =====
-- What `undo_push` leaves on the undo stack when it gets its memory.

use nv0ken_linux.Prelude.{
  ℕ, zero, suc, ◌+◌, ◌-◌, ◌≤◌, ◌<◌, ◌≡◌, refl, sym, ap, ◌∙◌, arith, Bool, true, false, List, [],
  ◌∷◌, if◌then◌else◌, length, is_empty, get_or, set, length-append, length-set, get_or-set_self,
  none, some, length-replicate,
}
use nv0ken_linux.Buffer.{
  Buffer, Memory, Site, UndoType, UndoRecord, undo_first, undo_more, undo_text, blank, undo_push,
  undo_push_ready, undo_push_room, undo_store, undo_more_room, undo_first_stack, undo_clear_from,
  clear_from, first_undo_cap, fresh_cells,
}
use nv0ken_linux.Buffer.Undo.{IsStacked}

-- The edit is the newest record.
pub record Recorded (b : Buffer) (type : UndoType) (pos : ℕ) (text : List ℕ) (c : Buffer)
    : Type 0 where
  pub stacked : IsStacked c
  pub top : c.undo_top ≡ b.undo_top + 1
  pub entry :
      get_or c.undo_stack b.undo_top blank
      ≡ record { type = type; pos = pos; text = some text; len = length text }
  pub quiet : c.in_undo ≡ b.in_undo

-- Every allocation of the call succeeds.
abbrev pub Grants : Memory → Type 0
Grants mem = (s : Site) → mem.grants s ≡ true

length-clear_from :
    (n i : ℕ) (stack : List UndoRecord) → length (clear_from n i stack) ≡ length stack
unfolding clear_from
length-clear_from zero i stack = refl
length-clear_from (suc n) i stack =
    length-clear_from n (i + 1)
      (set stack i (record (get_or stack i blank) { text = none; len = 0 }))
    ∙ length-set stack i (record (get_or stack i blank) { text = none; len = 0 })

length-fresh_records : (junk : ℕ → UndoRecord) (i n : ℕ) → length (fresh_cells junk i n) ≡ n
unfolding fresh_cells
length-fresh_records junk i zero = refl
length-fresh_records junk i (suc n) = ap suc (length-fresh_records junk (i + 1) n)

-- A stack with the same top, and room for one more record.
record Ready (b c : Buffer) : Type 0 where
  records : length c.undo_stack ≡ c.undo_cap
  same_top : c.undo_top ≡ b.undo_top
  some_room : 0 < c.undo_cap
  within : c.undo_top ≤ c.undo_cap
  same_in_undo : c.in_undo ≡ b.in_undo

length_nonempty : (xs : List UndoRecord) → is_empty xs ≡ false → 0 < length xs
length_nonempty [] h = absurd (cc)
length_nonempty (x ∷ xs) h = omega arith

length_empty : (xs : List UndoRecord) → is_empty xs ≡ true → length xs ≡ 0
length_empty [] h = refl
length_empty (x ∷ xs) h = absurd (cc)

undo_push-open :
    (mem : Memory) (type : UndoType) (pos : ℕ) (text : List ℕ) (b : Buffer)
    → b.in_undo ≡ false
    → undo_push mem b type pos text ≡ undo_push_ready mem type pos text (undo_first_stack mem b)
unfolding undo_push
undo_push-open mem type pos text b q =
    ap (λ (t : Bool). if t then b else undo_push_ready mem type pos text (undo_first_stack mem b)) q

module _ (mem : Memory) (all : Grants mem) where
  first-Ready :
      (b : Buffer)
      → IsStacked b
      → ((undo_first_stack mem b).0 ≡ true) × Ready b (undo_first_stack mem b).1
  unfolding undo_first_stack
  first-Ready b s = ground (
    arith,
    all undo_first,
    s.records,
    s.within,
    length_nonempty b.undo_stack,
    length_empty b.undo_stack,
    length-replicate first_undo_cap blank,
  )

  clear-Ready : (b c : Buffer) → Ready b c → Ready b (undo_clear_from c c.undo_top)
  unfolding undo_clear_from
  clear-Ready b c r =
      ground (arith, r.records, length-clear_from (c.undo_cap - c.undo_top) c.undo_top c.undo_stack)

  more-Ready :
      (b c : Buffer)
      → Ready b c
      → ((undo_more_room mem c).0 ≡ true)
        × Ready b (undo_more_room mem c).1
        × ((undo_more_room mem c).1.undo_top < (undo_more_room mem c).1.undo_cap)
  unfolding undo_more_room
  more-Ready b c r = ground (
    arith,
    all undo_more,
    r.records,
    length-append c.undo_stack (fresh_cells mem.junk_record c.undo_cap c.undo_cap),
    length-fresh_records mem.junk_record c.undo_cap c.undo_cap,
  )

  module _ (type : UndoType) (pos : ℕ) (text : List ℕ) where
    store-Recorded :
        (b c : Buffer)
        → Ready b c
        → c.undo_top < c.undo_cap
        → Recorded b type pos text (undo_store mem type pos text c)
    unfolding undo_store
    store-Recorded b c r room = rw (all undo_text) (record {
      stacked = record {
        records = length-set c.undo_stack c.undo_top entry ∙ r.records;
        within = omega arith;
      };
      top = omega (arith, r.same_top);
      entry =
          ap (λ k. get_or (set c.undo_stack c.undo_top entry) k blank) (sym r.same_top)
          ∙ get_or-set_self c.undo_stack c.undo_top entry blank (omega (arith, r.records));
      quiet = r.same_in_undo;
    })
      where
        entry : UndoRecord
        entry = record { type = type; pos = pos; text = some text; len = length text }

    room-Recorded :
        (b : Buffer) (r : Bool × Buffer)
        → r.0 ≡ true
        → Ready b r.1
        → r.1.undo_top < r.1.undo_cap
        → Recorded b type pos text (undo_push_room mem type pos text r)
    unfolding undo_push_room
    room-Recorded b (false, c) e r room = absurd (cc)
    room-Recorded b (true, c) e r room = store-Recorded b c r room

    rest-Recorded :
        (b : Buffer) (r : Bool × Buffer)
        → r.0 ≡ true
        → Ready b r.1
        → Recorded b type pos text (undo_push_ready mem type pos text r)
    unfolding undo_push_ready
    rest-Recorded b (false, c) e r = absurd (cc)
    rest-Recorded b (true, c) e r =
        let m = more-Ready b (undo_clear_from c c.undo_top) (clear-Ready b c r) in
        room-Recorded b (undo_more_room mem (undo_clear_from c c.undo_top)) m.0 m.1 m.2

    -- With memory, recording an edit outside an undo puts it on the stack, above the live records.
    pub undo_push-Recorded :
        (b : Buffer)
        → IsStacked b
        → b.in_undo ≡ false
        → Recorded b type pos text (undo_push mem b type pos text)
    undo_push-Recorded b s quiet =
        let f = first-Ready b s in
        rw (undo_push-open mem type pos text b quiet)
          (rest-Recorded b (undo_first_stack mem b) f.0 f.1)
