-- ===== src/RingBuf.antt =====
-- kernel/lib/ring_buf.c: a queue of bytes in storage that the caller gives.
-- `head` is where the next byte goes and `tail` is the oldest byte. A `data` that is NULL is the empty list.
pub mod Laws
mod Tests
use nv0ken_linux.Prelude.{
  ℕ, zero, suc, ◌+◌, ◌-◌, ◌≤◌, ◌<◌, ◌≡◌, refl, Bool, true, false, ◌&&◌, ◌||◌, List, [], ◌∷◌, ltb,
  ◌==◌, if◌then◌else◌, is_empty, length, get_or, set, Option, none, some,
}
use nv0ken_linux.Queue.{Queue, after}

pub record RingBuf : Type 0 where
  pub storage : List ℕ
  pub capacity : ℕ
  pub head : ℕ
  pub tail : ℕ
  pub count : ℕ

unfoldable pub init : List ℕ → ℕ → RingBuf
init storage capacity = record {
  storage = storage;
  capacity = capacity;
  head = 0;
  tail = 0;
  count = 0;
}

unfoldable pub reset : RingBuf → RingBuf
reset r = record r { head = 0; tail = 0; count = 0 }

unfoldable pub space : RingBuf → ℕ
space r = r.capacity - r.count

unfoldable pub empty : RingBuf → Bool
empty r = r.count == 0

unfoldable pub full : RingBuf → Bool
full r = ltb 0 r.capacity && r.count == r.capacity

unfoldable pub push : RingBuf → ℕ → Bool × RingBuf
push r value = if is_empty r.storage || full r then (false, r) else (
  true,
  record r {
    storage = set r.storage r.head value;
    head = after r.capacity r.head;
    count = suc r.count;
  },
)

-- The byte that `ring_buf_pop` writes through `out`.
unfoldable pub pop : RingBuf → Option ℕ × RingBuf
pop r = if is_empty r.storage || empty r then (none, r) else (
  some (get_or r.storage r.tail 0),
  record r { tail = after r.capacity r.tail; count = r.count - 1 },
)

unfoldable pub write : RingBuf → List ℕ → ℕ × RingBuf
write r [] = (0, r)
write r (x ∷ xs) =
    let rest = write (push r x).1 xs in
    if (push r x).0 then (suc rest.0, rest.1) else (0, (push r x).1)

-- At most `length` bytes, in the order read.
unfoldable pub read : RingBuf → ℕ → List ℕ × RingBuf
read r zero = ([], r)
read r (suc n) =
    let rest = read (pop r).1 n in
    elim (pop r).0 [ none ↦ ([], (pop r).1) | some x ↦ (x ∷ rest.0, rest.1) ]

-- The circular array that the ring is.
abbrev pub queue : RingBuf → Queue ℕ
queue r = record {
  cells = r.storage;
  capacity = r.capacity;
  start = r.tail;
  stop = r.head;
  count = r.count;
}
