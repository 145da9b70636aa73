-- ===== src/Pipe.antt =====
-- kernel/ipc/pipe.c: a bounded queue of bytes between a reader and a writer, under a mutex.
-- A `buffer` that is NULL is the empty list. A call that would wait for the mutex for ever is none.
pub mod Laws
mod Tests
use nv0ken_linux.Prelude.{
  ℕ, zero, suc, ◌-◌, ◌≤◌, ◌<◌, ◌≡◌, Bool, true, false, not, ◌||◌, List, [], ◌∷◌, ltb, leb, ◌==◌,
  if◌then◌else◌, is_empty, length, get_or, set, Option, none, some,
}
use nv0ken_linux.Queue.{Queue, after}
use nv0ken_linux.Mutex
use nv0ken_linux.Mutex.{Mutex}

pub record Pipe : Type 0 where
  pub buffer : List ℕ
  pub capacity : ℕ
  pub read_index : ℕ
  pub write_index : ℕ
  pub size : ℕ
  pub reader_closed : Bool
  pub writer_closed : Bool
  pub lock : Mutex

abbrev pub default_capacity : ℕ
default_capacity = 4096

-- The capacity that `pipe_init` allocates.
abbrev pub wanted : ℕ → ℕ
wanted capacity = if capacity == 0 then default_capacity else capacity

-- `allocate` is `kmalloc`: cells for a size, or none.
unfoldable pub init : (ℕ → Option (List ℕ)) → ℕ → Option Pipe
init allocate capacity = elim (allocate (wanted capacity)) [
  | none ↦ none
  | some cells ↦ some (record {
    buffer = cells;
    capacity = wanted capacity;
    read_index = 0;
    write_index = 0;
    size = 0;
    reader_closed = false;
    writer_closed = false;
    lock = Mutex.init;
  })
]

unfoldable pub destroy : Pipe → Pipe
destroy p = record p { buffer = []; capacity = 0; size = 0 }

-- The loop of `pipe_read`, with `n` bytes still wanted.
pub take_bytes : ℕ → Pipe → List ℕ × Pipe
take_bytes zero p = ([], p)
take_bytes (suc n) p =
    let rest =
      take_bytes n (record p { read_index = after p.capacity p.read_index; size = p.size - 1 }) in
    if ltb 0 p.size then (get_or p.buffer p.read_index 0 ∷ rest.0, rest.1) else ([], p)

-- The loop of `pipe_write`.
pub put_bytes : List ℕ → Pipe → ℕ × Pipe
put_bytes [] p = (0, p)
put_bytes (x ∷ xs) p =
    let rest = put_bytes xs (record p {
      buffer = set p.buffer p.write_index x;
      write_index = after p.capacity p.write_index;
      size = suc p.size;
    }) in
    if ltb p.size p.capacity then (suc rest.0, rest.1) else (0, p)

abbrev pub released {ℓ} : {A : Type ℓ} → A × Pipe → A × Pipe
released (a, p) = (a, record p { lock = Mutex.unlock p.lock })

-- The bytes that are copied to the caller's buffer, which is not NULL.
unfoldable pub read : Pipe → ℕ → Option (List ℕ × Pipe)
unfolding take_bytes
read p count = if count == 0 then some ([], p) else elim (Mutex.lock p.lock) [
  | none ↦ none
  | some l ↦ some (released (take_bytes count (record p { lock = l })))
]

unfoldable pub write : Pipe → List ℕ → Option (ℕ × Pipe)
unfolding put_bytes
write p bytes =
    if is_empty bytes || p.reader_closed then some (0, p) else elim (Mutex.lock p.lock) [
      | none ↦ none
      | some l ↦ some (released (put_bytes bytes (record p { lock = l })))
    ]

unfoldable pub close_reader : Pipe → Pipe
close_reader p = record p { reader_closed = true }

unfoldable pub close_writer : Pipe → Pipe
close_writer p = record p { writer_closed = true }

unfoldable pub available : Pipe → ℕ
available p = p.size

unfoldable pub space : Pipe → ℕ
space p = if leb p.size p.capacity then p.capacity - p.size else 0

-- The circular array that the pipe is.
abbrev pub queue : Pipe → Queue ℕ
queue p = record {
  cells = p.buffer;
  capacity = p.capacity;
  start = p.read_index;
  stop = p.write_index;
  count = p.size;
}
