-- ===== src/RingBuf/Laws.antt =====
-- The ring buffer is a bounded queue of bytes.
use native.Mathlib.Decide.{dec_lt}
use nv0ken_linux.Prelude.{
  ℕ, zero, suc, ◌-◌, ◌≤◌, ◌<◌, ◌≡◌, refl, sym, ap, ◌∙◌, arith, Bool, true, false, List, [], ◌∷◌,
  ◌++◌, ltb, if◌then◌else◌, is_empty, length, get_or, Option, none, some, min, take, drop, subst,
  lt→ltb, le→ltb_false,
}
use nv0ken_linux.Queue.{IsQueue, put, pull, fill, drain, contents, put-contents, pull-contents}
use nv0ken_linux.Queue.Loops.{fill-Filled, drain-Drained, fill_on, fill_off, drain_on, drain_off}
use nv0ken_linux.RingBuf.{RingBuf, space, empty, full, push, pop, write, read, queue}

pub record IsValid (r : RingBuf) : Type 0 where
  pub ring : IsQueue (queue r)

abbrev pub bytes : RingBuf → List ℕ
bytes r = contents 0 (queue r)

stored : (r : RingBuf) → IsQueue (queue r) → is_empty r.storage ≡ false
stored r v = go r.storage (v.sized) (v.places.room)
  where
    go : (xs : List ℕ) → length xs ≡ r.capacity → 0 < r.capacity → is_empty xs ≡ false
    go [] e h = absurd (omega arith)
    go (x ∷ xs) e h = refl

-- The ring after a byte.
abbrev pushed : RingBuf → ℕ → RingBuf
pushed r x = record {
  storage = (put (queue r) x).cells;
  capacity = r.capacity;
  head = (put (queue r) x).stop;
  tail = r.tail;
  count = suc r.count;
}

abbrev popped : RingBuf → RingBuf
popped r = record r { tail = (pull (queue r)).start; count = r.count - 1 }

push_room :
    (r : RingBuf) (x : ℕ)
    → IsQueue (queue r)
    → push r x ≡ (if ltb r.count r.capacity then (true, pushed r x) else (false, r))
unfolding push full
push_room r x v = ground (arith, stored r v, v.places.fits, v.places.room)

pop_room :
    (r : RingBuf)
    → IsQueue (queue r)
    → pop r ≡ (if ltb 0 r.count then (some (get_or r.storage r.tail 0), popped r) else (none, r))
unfolding pop empty
pop_room r v = ground (arith, stored r v)

module _ (r : RingBuf) (v : IsQueue (queue r)) where
  push_on : (x : ℕ) → r.count < r.capacity → push r x ≡ (true, pushed r x)
  push_on x h =
      push_room r x v
      ∙ ap (λ (t : Bool). if t then (true, pushed r x) else (false, r))
          (lt→ltb r.count r.capacity h)

  push_off : (x : ℕ) → r.capacity ≤ r.count → push r x ≡ (false, r)
  push_off x h =
      push_room r x v
      ∙ ap (λ (t : Bool). if t then (true, pushed r x) else (false, r))
          (le→ltb_false r.count r.capacity h)

  abbrev choice : Bool → Option ℕ × RingBuf
  choice t = if t then (some (get_or r.storage r.tail 0), popped r) else (none, r)

  pop_on : 0 < r.count → pop r ≡ (some (get_or r.storage r.tail 0), popped r)
  pop_on h = pop_room r v ∙ ap choice (lt→ltb 0 r.count h)

  pop_off : r.count ≤ 0 → pop r ≡ (none, r)
  pop_off h = pop_room r v ∙ ap choice (le→ltb_false 0 r.count h)

write_step :
    (r : RingBuf) (x : ℕ) (xs : List ℕ) (done : Bool) (r' : RingBuf)
    → push r x ≡ (done, r')
    → write r (x ∷ xs) ≡ (if done then (suc (write r' xs).0, (write r' xs).1) else (0, r'))
unfolding write
write_step r x xs done r' e =
    ap (λ (t : Bool × RingBuf). if t.0 then (suc (write t.1 xs).0, (write t.1 xs).1) else (0, t.1))
      e

read_step :
    (r : RingBuf) (n : ℕ) (got : Option ℕ) (r' : RingBuf)
    → pop r ≡ (got, r')
    → read r (suc n) ≡ elim got [ none ↦ ([], r') | some x ↦ (x ∷ (read r' n).0, (read r' n).1) ]
unfolding read
read_step r n got r' e =
    ap
      (λ (t : Option ℕ × RingBuf). elim t.0 [
        | none ↦ ([], t.1)
        | some x ↦ (x ∷ (read t.1 n).0, (read t.1 n).1)
      ])
      e

-- Writing and reading are the loops of the circular array.
write-fill :
    (r : RingBuf) (xs : List ℕ)
    → IsQueue (queue r)
    → ((write r xs).0 ≡ (fill (queue r) xs).0) × (queue (write r xs).1 ≡ (fill (queue r) xs).1)
write-fill r [] v = unfold write fill in (refl, refl)
write-fill r (x ∷ xs) v = elim (dec_lt r.count r.capacity) [
  | yes h ↦ rw (write_step r x xs true (pushed r x) (push_on r v x h)) (
      rw (fill_on 0 (queue r) x xs h) (
        let rest = write-fill (pushed r x) xs (put-contents 0 x (queue r) v h).0 in
        (ap suc rest.0, rest.1)))
  | no h ↦
      rw (write_step r x xs false r (push_off r v x (omega arith)))
        (rw (fill_off 0 (queue r) x xs (omega arith)) (refl, refl))
]

read-drain :
    (n : ℕ) (r : RingBuf)
    → IsQueue (queue r)
    → ((read r n).0 ≡ (drain 0 n (queue r)).0) × (queue (read r n).1 ≡ (drain 0 n (queue r)).1)
read-drain zero r v = unfold read drain in (refl, refl)
read-drain (suc n) r v = elim (dec_lt 0 r.count) [
  | yes h ↦ rw (read_step r n (some (get_or r.storage r.tail 0)) (popped r) (pop_on r v h)) (
      rw (drain_on 0 (queue r) n h) (
        let rest = read-drain n (popped r) (pull-contents 0 (queue r) v h).0 in
        (ap (λ t. get_or r.storage r.tail 0 ∷ t) rest.0, rest.1)))
  | no h ↦
      rw (read_step r n none r (pop_off r v (omega arith)))
        (rw (drain_off 0 (queue r) n (omega arith)) (refl, refl))
]

-- `ring_buf_write` appends as much of the bytes as there is room for and says how much that is,
-- and `ring_buf_read` hands out the oldest bytes, at most as many as it is asked for, and keeps the
-- rest. Both keep the invariant.
pub write-read :
    {r : RingBuf} (xs : List ℕ) (n : ℕ)
    → IsValid r
    → IsValid (write r xs).1
      × ((write r xs).0 ≡ min (length xs) (space r))
      × (bytes (write r xs).1 ≡ bytes r ++ take (write r xs).0 xs)
      × IsValid (read r n).1
      × ((read r n).0 ≡ take n (bytes r))
      × (bytes (read r n).1 ≡ drop n (bytes r))
unfolding space
write-read {r} xs n v =
    let w = write-fill r xs v.ring in
    let f = fill-Filled 0 (queue r) xs v.ring in
    let o = read-drain n r v.ring in
    let g = drain-Drained 0 n (queue r) v.ring in
    (
      record { ring = subst (IsQueue {A = ℕ}) (sym w.1) f.valid },
      w.0 ∙ f.written,
      ap (contents 0) w.1 ∙ f.now ∙ ap (λ k. bytes r ++ take k xs) (sym (w.0 ∙ f.written)),
      record { ring = subst (IsQueue {A = ℕ}) (sym o.1) g.valid },
      o.0 ∙ g.out,
      ap (contents 0) o.1 ∙ g.left,
    )
