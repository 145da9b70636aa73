-- ===== src/Signal.antt =====
-- kernel/ipc/signal.c and signal_table.h: the signals of a process as two 32-bit masks.
-- A handler is a number, the address of its code, and none is NULL.
pub mod Masks
pub mod Delivery
mod Tests
use Prim.Native.Nat.{bit_and, bit_or}
use nv0ken_linux.Prelude.{
  ℕ, zero, suc, ◌+◌, ◌-◌, ◌^◌, ◌≤◌, ◌<◌, ◌≡◌, Bool, true, false, not, ◌&&◌, ◌||◌, List, [], ◌∷◌,
  ltb, ◌==◌, if◌then◌else◌, get_or, set, replicate, Option, none, some,
}
use nv0ken_linux.Prelude.Int.{ℤ, pos, negsuc, pos_part}
use nv0ken_linux.Word.{complement, test_mask}

pub record Signals : Type 0 where
  pub pending_mask : ℕ
  pub blocked_mask : ℕ
  pub handlers : List (Option ℕ)

abbrev pub sig_max : ℕ
sig_max = 32

abbrev pub sigkill : ℕ
sigkill = 9

abbrev pub sigstop : ℕ
sigstop = 19

unfoldable pub valid_signal : ℤ → Bool
valid_signal (pos n) = ltb 0 n && ltb n sig_max
valid_signal (negsuc _) = false

unfoldable pub init : Signals
init = record { pending_mask = 0; blocked_mask = 0; handlers = replicate sig_max none }

unfoldable pub send : Signals → ℤ → Bool × Signals
send s signal =
    if valid_signal signal
    then (true, record s { pending_mask = bit_or s.pending_mask (2 ^ pos_part signal) })
    else (false, s)

unfoldable pub block : Signals → ℤ → Bool × Signals
block s signal =
    if not (valid_signal signal) || pos_part signal == sigkill || pos_part signal == sigstop
    then (false, s)
    else (true, record s { blocked_mask = bit_or s.blocked_mask (2 ^ pos_part signal) })

unfoldable pub unblock : Signals → ℤ → Bool × Signals
unblock s signal =
    if valid_signal signal
    then (
      true,
      record s { blocked_mask = bit_and s.blocked_mask (complement sig_max (2 ^ pos_part signal)) },
    )
    else (false, s)

unfoldable pub deliverable : Signals → ℕ
deliverable s = bit_and s.pending_mask (complement sig_max s.blocked_mask)

-- The loop of `signal_next`, with `n` signals left from `signal` on. 0 is SIG_NONE.
pub next_from : ℕ → ℕ → ℕ → Signals → ℕ × Signals
next_from mask zero signal s = (0, s)
next_from mask (suc n) signal s =
    let rest = next_from mask n (signal + 1) s in
    if test_mask mask signal
    then (
      signal,
      record s { pending_mask = bit_and s.pending_mask (complement sig_max (2 ^ signal)) },
    )
    else rest

unfoldable pub next : Signals → ℕ × Signals
unfolding next_from
next s = next_from (deliverable s) (sig_max - 1) 1 s

unfoldable pub set_handler : Signals → ℤ → Option ℕ → Signals
set_handler s signal handler =
    if valid_signal signal
    then record s { handlers = set s.handlers (pos_part signal) handler }
    else s

-- `call` is what running a handler on a signal does to the state.
abbrev pub deliver : (ℕ → ℕ → Signals → Signals) → ℕ → Signals → Signals
deliver call signal s = elim (get_or s.handlers signal none) [ none ↦ s | some h ↦ call h signal s ]

-- `signal_dispatch` on fuel, with the signals that it takes; none when the fuel runs out.
unfoldable pub dispatch : ℕ → (ℕ → ℕ → Signals → Signals) → Signals → Option (List ℕ × Signals)
dispatch zero call s = none
dispatch (suc fuel) call s =
    let rest = dispatch fuel call (deliver call (next s).0 (next s).1) in
    if (next s).0 == 0
    then some ([], (next s).1)
    else elim rest [ none ↦ none | some r ↦ some ((next s).0 ∷ r.0, r.1) ]
