-- ===== src/Bytes/Moves.antt =====
-- Copying memory.
use nv0ken_linux.Prelude.{
  ℕ, zero, suc, ◌+◌, ◌-◌, ◌%◌, ◌≤◌, ◌≡◌, ◌∙◌, arith, Bool, ◌&&◌, ltb, leb, if◌then◌else◌, ◌⊎◌,
}
use nv0ken_linux.Bytes.{Memory, store, memset, memcpy, copy_down, memmove}

-- The address lies in the area.
abbrev pub within : ℕ → ℕ → ℕ → Bool
within a start count = leb start a && ltb a (start + count)

-- Memory after the bytes of one area, as they were, have been put into another.
abbrev pub copied : ℕ → ℕ → ℕ → Memory → Memory
copied dest src count m a = if within a dest count then m (src + (a - dest)) else m a

pub memset_lem :
    (dest value count : ℕ) (m : Memory) (a : ℕ)
    → memset dest value count m a ≡ (if within a dest count then value % 256 else m a)
unfolding memset
memset_lem dest value zero m a = ground arith
memset_lem dest value (suc count) m a =
    memset_lem (dest + 1) value count (store m dest (value % 256)) a ∙ ground arith

-- Upwards is right where the areas are apart, or the destination begins first.
pub memcpy_lem :
    (dest src count : ℕ) (m : Memory) (a : ℕ)
    → (dest ≤ src) ⊎ (src + count ≤ dest)
    → memcpy dest src count m a ≡ copied dest src count m a
unfolding memcpy
memcpy_lem dest src zero m a h = ground arith
memcpy_lem dest src (suc count) m a h =
    memcpy_lem (dest + 1) (src + 1) count (store m dest (m src)) a (ground arith) ∙ here
  where
    here :
        copied (dest + 1) (src + 1) count (store m dest (m src)) a ≡ copied dest src (suc count) m a
    here = ground arith

copy_down_lem :
    (dest src count : ℕ) (m : Memory) (a : ℕ)
    → src ≤ dest
    → copy_down dest src count m a ≡ copied dest src count m a
unfolding copy_down
copy_down_lem dest src zero m a h = ground arith
copy_down_lem dest src (suc count) m a h =
    copy_down_lem dest src count (store m (dest + count) (m (src + count))) a h ∙ ground arith

-- `memmove` puts the bytes that the source held into the destination and changes nothing else,
-- however the two overlap.
pub memmove_lem :
    (dest src count : ℕ) (m : Memory) (a : ℕ)
    → memmove dest src count m a ≡ copied dest src count m a
unfolding memmove
memmove_lem dest src count m a =
    ground (arith, memcpy_lem dest src count m a, copy_down_lem dest src count m a)
