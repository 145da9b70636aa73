-- ===== src/NetBuf.antt =====
-- kernel/net/net_buf.c: packet buffers. The fields `cells` and `used` are `data` and `length` of the
-- code.
pub mod Contents
mod Tests
use nv0ken_linux.Prelude.{
  ℕ, ◌+◌, Bool, List, ltb, if◌then◌else◌, length, take, overlay, Option, none, some,
}
use nv0ken_linux.Word.{add64}

pub record NetBuf : Type 0 where
  pub cells : List ℕ
  pub used : ℕ
  pub capacity : ℕ

-- `net_buf_alloc` with the cells that `kmalloc` gives; none when either call gives no memory.
unfoldable pub alloc : ℕ → Bool → Option (List ℕ) → Option NetBuf
alloc capacity header_given none = none
alloc capacity header_given (some cells) =
    if header_given then some (record { cells = cells; used = 0; capacity = capacity }) else none

-- The results -1 are none.
unfoldable pub append : NetBuf → List ℕ → Option NetBuf
append b bytes =
    if ltb b.capacity (add64 b.used (length bytes))
    then none
    else some
        (record b { cells = overlay b.cells b.used bytes; used = add64 b.used (length bytes) })

-- `memmove` first makes room at the front.
unfoldable pub prepend : NetBuf → List ℕ → Option NetBuf
prepend b bytes =
    let moved = overlay b.cells (length bytes) (take b.used b.cells) in
    if ltb b.capacity (add64 b.used (length bytes))
    then none
    else some (record b { cells = overlay moved 0 bytes; used = add64 b.used (length bytes) })
