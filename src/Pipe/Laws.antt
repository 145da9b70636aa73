-- ===== src/Pipe/Laws.antt =====
-- What a pipe delivers.

use nv0ken_linux.Prelude.{
  ℕ, zero, suc, ◌-◌, ◌≡◌, refl, sym, ap, ◌∙◌, arith, Bool, false, List, [], ◌∷◌, ◌++◌, ltb, leb,
  if◌then◌else◌, length, get_or, Option, none, some, min, take, drop, subst, Bool-cases, inl, inr,
  append-nil, take-nil, ne→==,
}
use nv0ken_linux.Queue.{IsQueue, put, pull, fill, drain, contents}
use nv0ken_linux.Queue.Loops.{fill-Filled, drain-Drained}
use nv0ken_linux.Mutex
use nv0ken_linux.Mutex.{Mutex}
use nv0ken_linux.Pipe.{Pipe, read, write, take_bytes, put_bytes, released, space, queue}

-- Between calls nobody holds the lock.
pub record IsValid (p : Pipe) : Type 0 where
  pub ring : IsQueue (queue p)
  pub free : p.lock ≡ Mutex.init

abbrev pub bytes : Pipe → List ℕ
bytes p = contents 0 (queue p)

-- The loops are those of the circular array, and touch nothing else.
record Same (p q : Pipe) : Type 0 where
  same_lock : q.lock ≡ p.lock
  same_reader : q.reader_closed ≡ p.reader_closed
  same_writer : q.writer_closed ≡ p.writer_closed

same : (p : Pipe) → Same p p
same p = record { same_lock = refl; same_reader = refl; same_writer = refl }

take_bytes-drain :
    (n : ℕ) (p : Pipe)
    → ((take_bytes n p).0 ≡ (drain 0 n (queue p)).0)
      × (queue (take_bytes n p).1 ≡ (drain 0 n (queue p)).1)
      × Same p (take_bytes n p).1
unfolding take_bytes drain
take_bytes-drain zero p = (refl, refl, same p)
take_bytes-drain (suc n) p =
    let q = record p { read_index = (pull (queue p)).start; size = p.size - 1 } in
    let (out, left, rest) = take_bytes-drain n q in
    elim (Bool-cases (ltb 0 p.size)) [
      | inl e ↦ rw e (
        ap (λ t. get_or p.buffer p.read_index 0 ∷ t) out,
        left,
        record {
          same_lock = rest.same_lock;
          same_reader = rest.same_reader;
          same_writer = rest.same_writer;
        },
      )
      | inr e ↦ rw e (refl, refl, same p)
    ]

put_bytes-fill :
    (xs : List ℕ) (p : Pipe)
    → ((put_bytes xs p).0 ≡ (fill (queue p) xs).0)
      × (queue (put_bytes xs p).1 ≡ (fill (queue p) xs).1)
      × Same p (put_bytes xs p).1
unfolding put_bytes fill
put_bytes-fill [] p = (refl, refl, same p)
put_bytes-fill (x ∷ xs) p =
    let q = record p {
      buffer = (put (queue p) x).cells;
      write_index = (put (queue p) x).stop;
      size = suc p.size;
    } in
    let (out, left, rest) = put_bytes-fill xs q in
    elim (Bool-cases (ltb p.size p.capacity)) [
      | inl e ↦ rw e (
        ap suc out,
        left,
        record {
          same_lock = rest.same_lock;
          same_reader = rest.same_reader;
          same_writer = rest.same_writer;
        },
      )
      | inr e ↦ rw e (refl, refl, same p)
    ]

lock_free :
    (p : Pipe)
    → p.lock ≡ Mutex.init
    → Mutex.lock p.lock ≡ some (record { locked = 1; owner = 1; recursion = 1 })
lock_free p e = ap Mutex.lock e ∙ (unfold Mutex.lock Mutex.try_lock Mutex.init in refl)

abbrev taken : Mutex
taken = record { locked = 1; owner = 1; recursion = 1 }

unlocked : {l : Mutex} → l ≡ taken → Mutex.unlock l ≡ Mutex.init
unlocked e = ap Mutex.unlock e ∙ (unfold Mutex.unlock Mutex.init in refl)

abbrev held : Pipe → Pipe
held p = record p { lock = taken }

read-open :
    (p : Pipe) (n : ℕ) → IsValid p → read p (suc n) ≡ some (released (take_bytes (suc n) (held p)))
unfolding read
read-open p n v =
    ap (λ (t : Bool). if t then some ([], p) else go (Mutex.lock p.lock))
      (ne→== (suc n) 0 (λ e. omega arith))
    ∙ ap go (lock_free p v.free)
  where
    go : Option Mutex → Option (List ℕ × Pipe)
    go o = elim o [
      | none ↦ none
      | some l ↦ some (released (take_bytes (suc n) (record p { lock = l })))
    ]

write-open :
    (p : Pipe) (x : ℕ) (xs : List ℕ)
    → IsValid p
    → p.reader_closed ≡ false
    → write p (x ∷ xs) ≡ some (released (put_bytes (x ∷ xs) (held p)))
unfolding write
write-open p x xs v open_now =
    ap (λ (t : Bool). if t then some (0, p) else go (Mutex.lock p.lock)) open_now
    ∙ ap go (lock_free p v.free)
  where
    go : Option Mutex → Option (ℕ × Pipe)
    go o = elim o [
      | none ↦ none
      | some l ↦ some (released (put_bytes (x ∷ xs) (record p { lock = l })))
    ]

-- `pipe_read` always returns: with the oldest bytes of the pipe, as many as there are up to the
-- number that is asked for; the rest stays, and the lock is free again.
pub read_lem :
    {p : Pipe} (n : ℕ)
    → IsValid p
    → (q : Pipe) × (read p n ≡ some (take n (bytes p), q))
      × IsValid q
      × (bytes q ≡ drop n (bytes p))
read_lem {p} zero v = (p, unfold read in refl, v, refl)
read_lem {p} (suc n) v =
    let (out, left, rest) = take_bytes-drain (suc n) (held p) in
    let d = drain-Drained 0 (suc n) (queue p) v.ring in
    (
      (released (take_bytes (suc n) (held p))).1,
      read-open p n v
          ∙ ap (λ t. some (t, (released (take_bytes (suc n) (held p))).1)) (out ∙ d.out),
      record { ring = subst (IsQueue {A = ℕ}) (sym left) d.valid; free = unlocked rest.same_lock },
      ap (contents 0) left ∙ d.left,
    )

-- While the reader is open `pipe_write` always returns: it appends as much of the bytes as there is
-- room for, says how much that is, and leaves the lock free.
pub write_lem :
    {p : Pipe} (xs : List ℕ)
    → IsValid p
    → p.reader_closed ≡ false
    → (q : Pipe) × (write p xs ≡ some (min (length xs) (space p), q))
      × IsValid q
      × (bytes q ≡ bytes p ++ take (min (length xs) (space p)) xs)
unfolding space
write_lem {p} [] v open_now = (
  p,
  (unfold write in ap (λ (t : ℕ). some (t, p)) nothing),
  v,
  sym (ap (λ t. bytes p ++ t) (take-nil ℕ (min 0 (space p))) ∙ append-nil (bytes p)),
)
  where
    nothing : 0 ≡ min 0 (if leb p.size p.capacity then p.capacity - p.size else 0)
    nothing = omega arith
write_lem {p} (x ∷ xs) v open_now =
    let (out, left, rest) = put_bytes-fill (x ∷ xs) (held p) in
    let f = fill-Filled 0 (queue p) (x ∷ xs) v.ring in
    let now = released (put_bytes (x ∷ xs) (held p)) in
    (
      now.1,
      write-open p x xs v open_now ∙ ap (λ t. some (t, now.1)) (out ∙ f.written ∙ room),
      record { ring = subst (IsQueue {A = ℕ}) (sym left) f.valid; free = unlocked rest.same_lock },
      ap (contents 0) left ∙ f.now ∙ ap (λ k. bytes p ++ take k (x ∷ xs)) room,
    )
  where
    room :
        min (suc (length xs)) (p.capacity - p.size)
        ≡ min (suc (length xs)) (if leb p.size p.capacity then p.capacity - p.size else 0)
    room = ground (arith, v.ring.places.fits)
