-- ===== src/Signal/Delivery.antt =====
-- Blocking, and what is delivered.
use native.Mathlib.Decide.{ℕ_discrete}
use Prim.Native.Nat.{bit_and, bit_or}
use nv0ken_linux.Prelude.{
  ℕ, zero, suc, ◌+◌, ◌-◌, ◌^◌, ◌≤◌, ◌<◌, ◌≡◌, ◌≢◌, refl, sym, ap, ◌∙◌, arith, true, false, not,
  ◌&&◌, ◌||◌, List, [], ◌∷◌, ◌==◌, ◌⊎◌, inl, inr, Bool-cases,
}
use nv0ken_linux.Prelude.Int.{ℤ, pos, negsuc}
use nv0ken_linux.Word.{complement, test_mask}
use nv0ken_linux.Word.Bits.{bit_or-lt, bit_and-lt, two-pow-lt}
use nv0ken_linux.Signal.{
  Signals, sig_max, sigkill, sigstop, valid_signal, init, send, block, unblock, deliverable, next,
  next_from,
}
use nv0ken_linux.Signal.Masks.{is_pending, is_blocked, IsValid, set_bit, clear_bit, deliverable_lem}

-- The calls that change the masks from outside.
pub data Call : Type 0 where
  sends blocks unblocks : ℤ → Call
  takes : Call

pub apply : Call → Signals → Signals
apply (sends n) s = (send s n).1
apply (blocks n) s = (block s n).1
apply (unblocks n) s = (unblock s n).1
apply takes s = (next s).1

pub run : List Call → Signals → Signals
run [] s = s
run (c ∷ cs) s = run cs (apply c s)

next_from-blocked :
    (mask n signal : ℕ) (s : Signals) → (next_from mask n signal s).1.blocked_mask ≡ s.blocked_mask
unfolding next_from
next_from-blocked mask zero signal s = refl
next_from-blocked mask (suc n) signal s = ground (arith, next_from-blocked mask n (signal + 1) s)

next-blocked : (s : Signals) → (next s).1.blocked_mask ≡ s.blocked_mask
unfolding next
next-blocked s = next_from-blocked (deliverable s) (sig_max - 1) 1 s

-- The signals that cannot be blocked are not.
record Open (s : Signals) : Type 0 where
  valid : IsValid s
  kill : is_blocked s sigkill ≡ false
  stop : is_blocked s sigstop ≡ false

valid_range : (n : ℕ) → valid_signal (pos n) ≡ true → (0 < n) × (n < sig_max)
unfolding valid_signal
valid_range n e = ground arith

block-Open : (n : ℤ) (s : Signals) → Open s → Open (block s n).1
unfolding block
block-Open (negsuc n) s o = unfold valid_signal in o
block-Open (pos n) s o =
    elim (Bool-cases (not (valid_signal (pos n)) || n == sigkill || n == sigstop)) [
      | inl e ↦ rw e o
      | inr e ↦ rw e (blocked (valid e) (other e))
    ]
  where
    valid :
        (not (valid_signal (pos n)) || n == sigkill || n == sigstop) ≡ false
        → valid_signal (pos n) ≡ true
    valid e = ground arith

    other :
        (not (valid_signal (pos n)) || n == sigkill || n == sigstop) ≡ false
        → (n ≢ sigkill) × (n ≢ sigstop)
    other e = ground arith

    blocked :
        valid_signal (pos n) ≡ true
        → (n ≢ sigkill) × (n ≢ sigstop)
        → Open (record s { blocked_mask = bit_or s.blocked_mask (2 ^ n) })
    blocked e ne = record {
      valid = record {
        small =
            bit_or-lt sig_max s.blocked_mask (2 ^ n) o.valid.small
              (two-pow-lt n sig_max (valid_range n e).1);
      };
      kill = set_bit s.blocked_mask n sigkill ∙ ground (arith, o.kill, ne);
      stop = set_bit s.blocked_mask n sigstop ∙ ground (arith, o.stop, ne);
    }

unblock-Open : (n : ℤ) (s : Signals) → Open s → Open (unblock s n).1
unfolding unblock
unblock-Open (negsuc n) s o = unfold valid_signal in o
unblock-Open (pos n) s o = elim (Bool-cases (valid_signal (pos n))) [
  | inl e ↦ rw e (record {
    valid = record {
      small = bit_and-lt sig_max s.blocked_mask (complement sig_max (2 ^ n)) o.valid.small;
    };
    kill =
        clear_bit s.blocked_mask n sigkill (valid_range n e).1 (omega arith)
        ∙ ap (λ t. t && not (n == sigkill)) o.kill;
    stop =
        clear_bit s.blocked_mask n sigstop (valid_range n e).1 (omega arith)
        ∙ ap (λ t. t && not (n == sigstop)) o.stop;
  })
  | inr e ↦ rw e o
]

-- A state with the same blocked signals.
same_blocked : (s t : Signals) → t.blocked_mask ≡ s.blocked_mask → Open s → Open t
same_blocked s t e o = record {
  valid = record { small = omega (arith, o.valid.small, e) };
  kill = ap (λ m. test_mask m sigkill) e ∙ o.kill;
  stop = ap (λ m. test_mask m sigstop) e ∙ o.stop;
}

send-blocked : (n : ℤ) (s : Signals) → (send s n).1.blocked_mask ≡ s.blocked_mask
unfolding send
send-blocked n s = elim (Bool-cases (valid_signal n)) [ inl e ↦ rw e refl | inr e ↦ rw e refl ]

apply-Open : (c : Call) (s : Signals) → Open s → Open (apply c s)
unfolding apply
apply-Open (sends n) s o = same_blocked s (send s n).1 (send-blocked n s) o
apply-Open (blocks n) s o = block-Open n s o
apply-Open (unblocks n) s o = unblock-Open n s o
apply-Open takes s o = same_blocked s (next s).1 (next-blocked s) o

run-Open : (cs : List Call) (s : Signals) → Open s → Open (run cs s)
unfolding run
run-Open [] s o = o
run-Open (c ∷ cs) s o = run-Open cs (apply c s) (apply-Open c s o)

init-Open : Open init
unfolding init test_mask
init-Open = record { valid = record { small = omega arith }; kill = refl; stop = refl }

-- No sequence of calls on a fresh state blocks SIGKILL or SIGSTOP.
pub run-unblocked :
    (cs : List Call)
    → (is_blocked (run cs init) sigkill ≡ false) × (is_blocked (run cs init) sigstop ≡ false)
run-unblocked cs = let o = run-Open cs init init-Open in (o.kill, o.stop)

-- The loop returns the first signal whose bit is set, or 0 when there is none.
next_from_lem :
    (mask n signal k : ℕ) (s : Signals)
    → signal + n ≡ sig_max
    → 0 < signal
    → let r = next_from mask n signal s in
      ((r.0 ≡ 0) × (r.1 ≡ s)
        ⊎ (signal ≤ r.0)
          × (r.0 < sig_max)
          × (test_mask mask r.0 ≡ true)
          × (r.1
              ≡ record s { pending_mask = bit_and s.pending_mask (complement sig_max (2 ^ r.0)) }))
      × (signal ≤ k → k < sig_max → (r.0 ≡ 0) ⊎ (k < r.0) → test_mask mask k ≡ false)
unfolding next_from
next_from_lem mask zero signal k s e h = (inl (refl, refl), λ low high w. absurd (omega arith))
next_from_lem mask (suc n) signal k s e h =
    let (found, first) = next_from_lem mask n (signal + 1) k s (omega arith) (omega arith) in
    elim (Bool-cases (test_mask mask signal)) [
      | inl hit ↦
          rw hit (inr (omega arith, omega arith, hit, refl), λ low high w. absurd (omega arith))
      | inr miss ↦ rw miss (
        elim found [ inl f ↦ inl f | inr (low, high, on, now) ↦ inr (omega arith, high, on, now) ],
        λ low high w. elim (ℕ_discrete signal k) [
          | yes here ↦ ap (test_mask mask) (sym here) ∙ miss
          | no there ↦ first (omega arith) high w
        ],
      )
    ]

-- `signal_next` takes the first signal that is pending and not blocked, and clears only that
-- one's pending bit; it returns 0, and changes nothing, only when there is no such signal.
pub next_lem :
    {s : Signals} (k : ℕ)
    → IsValid s
    → 0 < k
    → k < sig_max
    → let r = next s in
      ((r.0 ≡ 0) × (r.1 ≡ s)
        ⊎ (0 < r.0)
          × (is_pending s r.0 ≡ true)
          × (is_blocked s r.0 ≡ false)
          × (r.1.blocked_mask ≡ s.blocked_mask)
          × (is_pending r.1 k ≡ (is_pending s k && not (r.0 == k))))
      × ((r.0 ≡ 0) ⊎ (k < r.0) → (is_pending s k && not (is_blocked s k)) ≡ false)
unfolding next
next_lem {s} k v low high =
    let (found, first) = next_from_lem (deliverable s) (sig_max - 1) 1 k s refl (omega arith) in
    (
      elim found [
        | inl f ↦ inl f
        | inr (from, below, on, now) ↦ inr (
          omega arith,
          ground (
            arith,
            on,
            deliverable_lem s (next_from (deliverable s) (sig_max - 1) 1 s).0 v below,
          ),
          ground (
            arith,
            on,
            deliverable_lem s (next_from (deliverable s) (sig_max - 1) 1 s).0 v below,
          ),
          ap (λ t. t.blocked_mask) now,
          ap (λ (t : Signals). test_mask t.pending_mask k) now
              ∙ clear_bit s.pending_mask (next_from (deliverable s) (sig_max - 1) 1 s).0 k below
                  high,
        )
      ],
      λ w. sym (deliverable_lem s k v high) ∙ first (omega arith) high w,
    )
