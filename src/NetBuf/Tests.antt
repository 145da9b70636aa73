-- ===== src/NetBuf/Tests.antt =====
-- A buffer of eight cells.
use nv0ken_linux.Prelude.{◌≡◌, refl, arith, true, false, [], ◌∷◌, replicate, none, some}
use nv0ken_linux.NetBuf.{NetBuf, alloc, append, prepend}
use nv0ken_linux.NetBuf.Contents.{Holds, prepend-append}

abbrev sample : NetBuf
sample = record { cells = replicate 8 0; used = 0; capacity = 8 }

sample_runs : alloc 8 true (some (replicate 8 0)) ≡ some sample
unfolding alloc
sample_runs = refl

failed_runs : alloc 8 false (some (replicate 8 0)) ≡ none
unfolding alloc
failed_runs = refl

prepend-append_example :
    Holds 8
      (elim (append sample (7 ∷ 8 ∷ [])) [ none ↦ none | some s ↦ prepend s (1 ∷ 2 ∷ 3 ∷ []) ])
      (1 ∷ 2 ∷ 3 ∷ 7 ∷ 8 ∷ [])
prepend-append_example =
    prepend-append sample (7 ∷ 8 ∷ []) (1 ∷ 2 ∷ 3 ∷ []) (refl, omega arith, omega arith)
      (omega arith) (omega arith)
