-- ===== src/FdTable/Tests.antt =====
-- A table with the descriptors 3 and 5 open.
use nv0ken_linux.Prelude.{
  ℕ, ◌≤◌, ◌<◌, ◌≡◌, ◌≢◌, refl, true, false, List, some, none, set, replicate, ◌⊎◌,
}
use nv0ken_linux.Prelude.Int.{pos}
use nv0ken_linux.FdTable.{Entry, closed, opened, is_open, dup, get}
use nv0ken_linux.FdTable.Slots.{entry}
use nv0ken_linux.FdTable.Laws.{IsValid, dup_lem}

abbrev sample : List Entry
sample = set (set (replicate 128 closed) 3 (opened 77 2)) 5 (opened 78 0)

sample-IsValid : IsValid sample
sample-IsValid = record { sized = refl }

dup_lem_example :
    ((newfd : ℕ) × ((dup sample (pos 3)).0 ≡ some newfd)
      × (3 ≤ newfd)
      × (newfd < 128)
      × (is_open (entry sample newfd) ≡ false)
      × (newfd ≢ 3)
      × (3 ≤ 5 → 5 < newfd → is_open (entry sample 5) ≡ true)
      × (get (dup sample (pos 3)).1 (pos newfd) ≡ some (opened 77 2))
      × (get (dup sample (pos 3)).1 (pos 3) ≡ some (record (opened 77 2) { refs = 2 }))
      × (◌≢◌ {A = ℕ} 5 3 → 5 ≢ newfd → get (dup sample (pos 3)).1 (pos 5) ≡ get sample (pos 5)))
    ⊎ (dup sample (pos 3) ≡ (none, sample)) × (3 ≤ 5 → 5 < 128 → is_open (entry sample 5) ≡ true)
unfolding get
dup_lem_example = dup_lem 3 5 sample-IsValid refl
