-- ===== src/RingBuf/Tests.antt =====
-- A ring of three bytes whose two bytes wrap round the end.
use nv0ken_linux.Prelude.{◌≡◌, refl, arith, [], ◌∷◌}
use nv0ken_linux.Queue.{items}
use nv0ken_linux.RingBuf.{RingBuf, read}
use nv0ken_linux.RingBuf.Laws.{IsValid, write-read}

abbrev sample : RingBuf
sample = record { storage = 7 ∷ 0 ∷ 5 ∷ []; capacity = 3; head = 1; tail = 2; count = 2 }

sample-IsValid : IsValid sample
sample-IsValid = record {
  ring = record {
    places = record { room = omega arith; start_in = omega arith; fits = omega arith; ends = refl };
    sized = refl;
  };
}

write-read_example : (read sample 2).0 ≡ 5 ∷ 7 ∷ []
unfolding items
write-read_example = (write-read (8 ∷ 9 ∷ []) 2 sample-IsValid).4
