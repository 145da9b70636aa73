-- ===== src/Semaphore/Steps.antt =====
-- What holds however the loops of the threads interleave.
use nv0ken_linux.Prelude.{◌+◌, ◌≡◌, refl, arith}
use nv0ken_linux.Prelude.Int.{ℤ, pos, pos_part, ◌≤ℤ◌, +ℤ_parts, -ℤ_parts}
use nv0ken_linux.Semaphore.{
  init, System, start, Step, Reaches, reads_to_wait, reads_to_post, swaps_wait, swaps_post,
  refuses_wait, refuses_post, stays, then_step,
}

-- The count stays between 0 and the limit, and accounts for the calls that succeeded.
pub record Sound (initial limit : ℤ) (s : System) : Type 0 where
  pub low : pos 0 ≤ℤ s.semaphore.count
  pub high : s.semaphore.count ≤ℤ s.semaphore.limit
  pub same_limit : s.semaphore.limit ≡ (init initial limit).limit
  pub balance : pos_part s.semaphore.count + s.waits ≡ pos_part (init initial limit).count + s.posts

start-Sound : (initial limit : ℤ) → Sound initial limit (start initial limit)
unfolding init
start-Sound initial limit = record {
  low = ground arith;
  high = ground arith;
  same_limit = refl;
  balance = omega arith;
}

Step-Sound :
    (initial limit : ℤ) {s r : System} → Sound initial limit s → Step s r → Sound initial limit r
Step-Sound initial limit {s} v (reads_to_wait t) = record {
  low = v.low;
  high = v.high;
  same_limit = v.same_limit;
  balance = v.balance;
}
Step-Sound initial limit {s} v (reads_to_post t) = record {
  low = v.low;
  high = v.high;
  same_limit = v.same_limit;
  balance = v.balance;
}
Step-Sound initial limit {s} v (refuses_wait t seen at shut) = record {
  low = v.low;
  high = v.high;
  same_limit = v.same_limit;
  balance = v.balance;
}
Step-Sound initial limit {s} v (refuses_post t seen at shut) = record {
  low = v.low;
  high = v.high;
  same_limit = v.same_limit;
  balance = v.balance;
}
Step-Sound initial limit {s} v (swaps_wait t seen at some_left same) = record {
  low = ground (arith, -ℤ_parts seen (pos 1));
  high = ground (arith, v.high, same, -ℤ_parts seen (pos 1));
  same_limit = v.same_limit;
  balance = ground (arith, v.balance, v.low, same, -ℤ_parts seen (pos 1));
}
Step-Sound initial limit {s} v (swaps_post t seen at room same) = record {
  low = ground (arith, v.low, same, +ℤ_parts seen (pos 1));
  high = ground (arith, +ℤ_parts seen (pos 1));
  same_limit = v.same_limit;
  balance = ground (arith, v.balance, v.low, same, +ℤ_parts seen (pos 1));
}

-- However the threads interleave, the count never leaves 0 to the limit, and it is the first count
-- with the successful posts added and the successful waits taken off.
pub Reaches-Sound :
    (initial limit : ℤ) {s : System} → Reaches (start initial limit) s → Sound initial limit s
Reaches-Sound initial limit stays = start-Sound initial limit
Reaches-Sound initial limit (then_step before step) =
    Step-Sound initial limit (Reaches-Sound initial limit before) step
