-- ===== src/FdTable.antt =====
-- kernel/fs/fd_table.c: the table of open files.
-- A node is a number, its address, and none is NULL. A call that returns -1 for a descriptor is none.
-- `fd_read` and `fd_write`, which call the virtual file system, are left out.
pub mod Slots
pub mod Laws
mod Tests
use nv0ken_linux.Prelude.{
  ℕ, zero, suc, ◌+◌, ◌-◌, ◌%◌, ◌^◌, ◌≤◌, ◌<◌, ◌≡◌, Bool, true, false, not, ◌&&◌, ◌||◌, List, [],
  ◌∷◌, ltb, leb, ◌==◌, if◌then◌else◌, get_or, set, replicate, length, Option, none, some,
}
use nv0ken_linux.Prelude.Int.{ℤ, pos, negsuc, pos_part, ◌+ℤ◌}
use nv0ken_linux.Numbers.{to_long}

pub record Entry : Type 0 where
  pub node : Option ℕ
  pub offset : ℕ
  pub flags : ℕ
  pub refs : ℕ

abbrev pub table_max : ℕ
table_max = 128

-- The lowest descriptor that `fd_alloc` and `fd_dup` give.
abbrev pub first_fd : ℕ
first_fd = 3

-- An entry that `memset` has zeroed.
abbrev pub closed : Entry
closed = record { node = none; offset = 0; flags = 0; refs = 0 }

unfoldable pub init : List Entry
init = replicate table_max closed

abbrev pub is_open : Entry → Bool
is_open e = elim e.node [ none ↦ false | some _ ↦ true ]

abbrev pub in_range : ℤ → Bool
in_range (pos n) = ltb n table_max
in_range (negsuc _) = false

unfoldable pub get : List Entry → ℤ → Option Entry
get t fd =
    let e = get_or t (pos_part fd) closed in if in_range fd && is_open e then some e else none

-- The loop of `fd_alloc` and of `fd_dup`, with `n` descriptors left from `fd` on.
pub free_from : List Entry → ℕ → ℕ → Option ℕ
free_from t zero fd = none
free_from t (suc n) fd =
    let rest = free_from t n (fd + 1) in if is_open (get_or t fd closed) then rest else some fd

unfoldable pub free_slot : List Entry → Option ℕ
unfolding free_from
free_slot t = free_from t (table_max - first_fd) first_fd

abbrev pub opened : ℕ → ℕ → Entry
opened node flags = record { node = some node; offset = 0; flags = flags; refs = 1 }

unfoldable pub alloc : List Entry → ℕ → ℕ → Option ℕ × List Entry
alloc t node flags = elim (free_slot t) [
  | none ↦ (none, t)
  | some fd ↦ (some fd, set t fd (opened node flags))
]

unfoldable pub alloc_at : List Entry → ℤ → ℕ → ℕ → Option ℕ × List Entry
alloc_at t fd node flags =
    if in_range fd then (some (pos_part fd), set t (pos_part fd) (opened node flags)) else (none, t)

-- The Boolean says whether `fd_close` returns 0.
unfoldable pub close : List Entry → ℤ → Bool × List Entry
close t fd =
    if in_range fd && is_open (get_or t (pos_part fd) closed)
    then (true, set t (pos_part fd) closed)
    else (false, t)

-- `table[newfd] = *entry; ++entry->refs;`
abbrev pub copied : List Entry → ℕ → ℕ → Entry → List Entry
copied t fd newfd e = set (set t newfd e) fd (record e { refs = e.refs + 1 })

unfoldable pub dup : List Entry → ℤ → Option ℕ × List Entry
dup t fd = elim (get t fd) [
  | none ↦ (none, t)
  | some e ↦ elim (free_slot t) [
    | none ↦ (none, t)
    | some newfd ↦ (some newfd, copied t (pos_part fd) newfd e)
  ]
]

unfoldable pub dup2 : List Entry → ℤ → ℤ → Option ℕ × List Entry
dup2 t oldfd newfd = elim (get t oldfd) [
  | none ↦ (none, t)
  | some e ↦
      if not (in_range newfd)
      then (none, t)
      else if pos_part oldfd == pos_part newfd
      then (some (pos_part newfd), t)
      else (some (pos_part newfd), copied (close t newfd).1 (pos_part oldfd) (pos_part newfd) e)
]

-- `(int)` of a size.
abbrev pub to_int : ℕ → ℤ
to_int n = let low = n % 2 ^ 32 in if ltb low (2 ^ 31) then pos low else negsuc (2 ^ 32 - 1 - low)

-- `fd_seek` behind the choice of the base.
pub seek_to : List Entry → ℕ → Entry → ℤ → ℤ × List Entry
seek_to t fd e (negsuc _) = (negsuc 0, t)
seek_to t fd e (pos n) = (to_int n, set t fd (record e { offset = n }))

-- What `whence` counts from, where it is one of the three; `size` is the field `size` of a node. The
-- cast `(long long)` of a size is that of a `long`.
abbrev pub base : (ℕ → ℕ) → Entry → ℤ → Option ℤ
base size e (negsuc _) = none
base size e (pos whence) =
    if whence == 0
    then some (pos 0)
    else if whence == 1
    then some (to_long e.offset)
    else if whence == 2
    then some (elim e.node [ none ↦ pos 0 | some node ↦ to_long (size node) ])
    else none

unfoldable pub seek : (ℕ → ℕ) → List Entry → ℤ → ℤ → ℤ → ℤ × List Entry
unfolding seek_to
seek size t fd offset whence = elim (get t fd) [
  | none ↦ (negsuc 0, t)
  | some e ↦ elim (base size e whence) [
    | none ↦ (negsuc 0, t)
    | some from ↦ seek_to t (pos_part fd) e (from +ℤ offset)
  ]
]
