-- ===== src/Pipe/Tests.antt =====
-- A pipe of three bytes with one byte in it.
use nv0ken_linux.Prelude.{◌≡◌, refl, arith, [], ◌∷◌, false, some}
use nv0ken_linux.Mutex
use nv0ken_linux.Queue.{items}
use nv0ken_linux.Pipe.{Pipe, read, write, space}
use nv0ken_linux.Pipe.Laws.{IsValid, bytes, read_lem, write_lem}

abbrev sample : Pipe
sample = record {
  buffer = 0 ∷ 0 ∷ 5 ∷ [];
  capacity = 3;
  read_index = 2;
  write_index = 0;
  size = 1;
  reader_closed = false;
  writer_closed = false;
  lock = record { locked = 0; owner = 0; recursion = 0 };
}

sample-IsValid : IsValid sample
unfolding Mutex.init
sample-IsValid = record {
  ring = record {
    places = record { room = omega arith; start_in = omega arith; fits = omega arith; ends = refl };
    sized = refl;
  };
  free = refl;
}

read_lem_example : (q : Pipe) × (read sample 2 ≡ some (5 ∷ [], q)) × IsValid q × (bytes q ≡ [])
unfolding items
read_lem_example = read_lem 2 sample-IsValid

write_lem_example :
    (q : Pipe) × (write sample (6 ∷ 7 ∷ 8 ∷ []) ≡ some (2, q))
    × IsValid q
    × (bytes q ≡ 5 ∷ 6 ∷ 7 ∷ [])
unfolding items space
write_lem_example = write_lem (6 ∷ 7 ∷ 8 ∷ []) sample-IsValid refl
