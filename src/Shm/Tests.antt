-- ===== src/Shm/Tests.antt =====
-- Two segments are made, and one of them is attached and detached.
use nv0ken_linux.Prelude.{ℕ, ◌≡◌, refl, arith, List, [], ◌∷◌, if◌then◌else◌, some}
use nv0ken_linux.Shm.{Table, cleared, init, same_name, find, find_id, free_slot, create, detach}
use nv0ken_linux.Shm.Laws.{create-find}

abbrev sample : Table
sample = record {
  segments =
      (record { id = 1; name = 97 ∷ []; base = 4096; size = 64; refs = 1 })
      ∷ cleared
      ∷ cleared
      ∷ [];
  next_id = 2;
}

-- The segment with the number 0 that is found is a free place.
zero_runs : find_id sample.segments 0 ≡ some 1
unfolding find_id
zero_runs = refl

init_runs : (create (97 ∷ []) 64 (some 4096) init).1 ≡ some 0
unfolding create find free_slot init same_name
init_runs = refl

freed_runs :
    detach 0 sample ≡ (record sample { segments = cleared ∷ cleared ∷ cleared ∷ [] }, some 4096)
unfolding detach
freed_runs = refl

create-find_example :
    ((create (98 ∷ []) 8 (some 8192) sample).1 ≡ some 1)
    × ((q : List ℕ)
        → find (create (98 ∷ []) 8 (some 8192) sample).0.segments q
          ≡ (if same_name (98 ∷ []) q then some 1 else find sample.segments q))
unfolding find free_slot same_name
create-find_example =
    create-find (98 ∷ []) 8 8192 sample 1 (omega arith) (omega arith) (λ e. omega arith) refl refl
