-- ===== src/Bytes.antt =====
-- kernel/lib/string.c: memory and strings. Memory is a function from addresses to bytes; an area does
-- not reach the end of the address space, so pointers are advanced by `+`.
pub mod Moves
pub mod Compares
mod Tests
use nv0ken_linux.Prelude.{
  ℕ, zero, suc, ◌+◌, ◌-◌, ◌%◌, ◌≤◌, ◌<◌, ◌≡◌, Bool, true, false, not, ◌&&◌, ◌||◌, List, [], ◌∷◌,
  ltb, leb, ◌==◌, if◌then◌else◌, is_empty, length, Option, none, some,
}
use nv0ken_linux.Prelude.Int.{ℤ, pos, ◌-ℤ◌}

abbrev pub Memory : Type 0
Memory = ℕ → ℕ

-- `*p = value;`
abbrev pub store : Memory → ℕ → ℕ → Memory
store m p value a = if a == p then value else m a

unfoldable pub memset : ℕ → ℕ → ℕ → Memory → Memory
memset dest value zero m = m
memset dest value (suc count) m = memset (dest + 1) value count (store m dest (value % 256))

unfoldable pub memcpy : ℕ → ℕ → ℕ → Memory → Memory
memcpy dest src zero m = m
memcpy dest src (suc count) m = memcpy (dest + 1) (src + 1) count (store m dest (m src))

-- The loop of `memmove` that copies from the end.
unfoldable pub copy_down : ℕ → ℕ → ℕ → Memory → Memory
copy_down dest src zero m = m
copy_down dest src (suc count) m =
    copy_down dest src count (store m (dest + count) (m (src + count)))

unfoldable pub memmove : ℕ → ℕ → ℕ → Memory → Memory
memmove dest src count m =
    if ltb dest src
    then memcpy dest src count m
    else if ltb src dest
    then copy_down dest src count m
    else m

unfoldable pub memcmp : ℕ → ℕ → ℕ → Memory → ℤ
memcmp lhs rhs zero m = pos 0
memcmp lhs rhs (suc count) m =
    let rest = memcmp (lhs + 1) (rhs + 1) count m in
    if not (m lhs == m rhs) then pos (m lhs) -ℤ pos (m rhs) else rest

-- The loops over a string, on fuel; none when the fuel runs out before the zero byte.
unfoldable pub strlen : ℕ → ℕ → Memory → Option ℕ
strlen zero text m = none
strlen (suc fuel) text m =
    let rest = strlen fuel (text + 1) m in
    if m text == 0 then some 0 else elim rest [ none ↦ none | some n ↦ some (suc n) ]

unfoldable pub strcmp : ℕ → ℕ → ℕ → Memory → Option ℤ
strcmp zero lhs rhs m = none
strcmp (suc fuel) lhs rhs m =
    let rest = strcmp fuel (lhs + 1) (rhs + 1) m in
    if not (m lhs == 0) && m lhs == m rhs then rest else some (pos (m lhs) -ℤ pos (m rhs))

unfoldable pub strcpy : ℕ → ℕ → ℕ → Memory → Option Memory
strcpy zero dest src m = none
strcpy (suc fuel) dest src m =
    let rest = strcpy fuel (dest + 1) (src + 1) (store m dest (m src)) in
    if m src == 0 then some (store m dest (m src)) else rest
