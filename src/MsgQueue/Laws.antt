-- ===== src/MsgQueue/Laws.antt =====
-- What a message queue delivers.
use native.Mathlib.Decide.{dec_lt}
use nv0ken_linux.Prelude.{
  ℕ, zero, suc, ◌+◌, ◌-◌, ◌≤◌, ◌<◌, ◌≡◌, refl, sym, ap, ◌∙◌, arith, Bool, true, false, ◌||◌, List,
  [], ◌∷◌, ◌++◌, ltb, ◌==◌, if◌then◌else◌, is_empty, length, get_or, Option, none, some, inl, inr,
  ◌⊎◌, eq→==, ne→==, take, drop, overlay, take_all, take-append_le, length-take,
}
use nv0ken_linux.Queue.{IsQueue, put, pull, first, contents, items, put-contents, pull-contents}
use nv0ken_linux.Mutex
use nv0ken_linux.Mutex.{Mutex}
use nv0ken_linux.MsgQueue.{
  MsgQueue, Message, zeroed, max_payload, filled, send, send_locked, receive, receive_locked, queue,
}

-- Between calls nobody holds the lock.
pub record IsValid (q : MsgQueue) : Type 0 where
  pub ring : IsQueue (queue q)
  pub free : q.lock ≡ Mutex.init

abbrev pub waiting : MsgQueue → List Message
waiting q = contents zeroed (queue q)

abbrev taken : Mutex
taken = record { locked = 1; owner = 1; recursion = 1 }

lock_free : (q : MsgQueue) → q.lock ≡ Mutex.init → Mutex.lock q.lock ≡ some taken
lock_free q e = ap Mutex.lock e ∙ (unfold Mutex.lock Mutex.try_lock Mutex.init in refl)

unlocked : Mutex.unlock taken ≡ Mutex.init
unlocked = unfold Mutex.unlock Mutex.init in refl

stored : (q : MsgQueue) → IsQueue (queue q) → is_empty q.messages ≡ false
stored q v = go q.messages v.sized v.places.room
  where
    go : (xs : List Message) → length xs ≡ q.capacity → 0 < q.capacity → is_empty xs ≡ false
    go [] e h = absurd (omega arith)
    go (x ∷ xs) e h = refl

send-open :
    (q : MsgQueue) (type : ℕ) (payload : Option (List ℕ)) (size : ℕ)
    → IsValid q
    → size ≤ max_payload
    → send q type payload size ≡ some (send_locked (record q { lock = taken }) type payload size)
unfolding send
send-open q type payload size v h =
    ap (λ (t : Bool). if t then some (false, q) else go (Mutex.lock q.lock)) small
    ∙ ap go (lock_free q v.free)
  where
    small : (is_empty q.messages || ltb max_payload size) ≡ false
    small = ground (arith, stored q v.ring)

    go : Option Mutex → Option (Bool × MsgQueue)
    go o = elim o [
      | none ↦ none
      | some l ↦ some (send_locked (record q { lock = l }) type payload size)
    ]

receive-open :
    (q : MsgQueue) → IsValid q → receive q ≡ some (receive_locked (record q { lock = taken }))
unfolding receive
receive-open q v =
    ap (λ (t : Bool). if t then some (none, q) else go (Mutex.lock q.lock)) (stored q v.ring)
    ∙ ap go (lock_free q v.free)
  where
    go : Option Mutex → Option (Option Message × MsgQueue)
    go o = elim o [ none ↦ none | some l ↦ some (receive_locked (record q { lock = l })) ]

-- The cell that a message overwrites, and what it holds afterwards.
abbrev pub next_cell : MsgQueue → Message
next_cell q = get_or q.messages q.tail zeroed

abbrev message : MsgQueue → ℕ → Option (List ℕ) → ℕ → Message
message q type payload size = filled (next_cell q) type payload size

-- The caller's memory has the bytes that are to be sent.
abbrev pub Readable : Option (List ℕ) → ℕ → Type 0
Readable none size = Unit
Readable (some bytes) size = size ≤ length bytes

-- The first `size` bytes of a message are those of the payload; without one they are stale.
abbrev pub Carries : List ℕ → Option (List ℕ) → ℕ → Message → Type 0
Carries stale none size m = m.payload ≡ stale
Carries stale (some bytes) size m = take size m.payload ≡ take size bytes

filled-Carries :
    (old : Message) (type : ℕ) (payload : Option (List ℕ)) (size : ℕ)
    → Readable payload size
    → Carries old.payload payload size (filled old type payload size)
unfolding filled
filled-Carries old type none size r = refl
filled-Carries old type (some bytes) zero r = refl
filled-Carries old type (some bytes) (suc n) r =
    ap (λ (t : Bool). take (suc n) (if t then old.payload else overlay old.payload 0 sent_bytes))
      (ne→== (suc n) 0 (λ e. omega arith))
    ∙ take-append_le (suc n) sent_bytes (drop (0 + length sent_bytes) old.payload)
        (omega (arith, length-take (suc n) bytes))
    ∙ take_all (suc n) sent_bytes (omega (arith, length-take (suc n) bytes))
  where
    sent_bytes : List ℕ
    sent_bytes = take (suc n) bytes

abbrev sent : MsgQueue → ℕ → Option (List ℕ) → ℕ → MsgQueue
sent q type payload size = record q {
  messages = (put (queue q) (message q type payload size)).cells;
  tail = (put (queue q) (message q type payload size)).stop;
  count = suc q.count;
  lock = Mutex.init;
}

send_locked-eq :
    (q : MsgQueue) (type : ℕ) (payload : Option (List ℕ)) (size : ℕ)
    → q.lock ≡ Mutex.init
    → send_locked (record q { lock = taken }) type payload size
      ≡ (if q.count == q.capacity then (false, q) else (true, sent q type payload size))
unfolding send_locked
send_locked-eq q type payload size free =
    ap
      (λ l.
        if q.count == q.capacity
        then (false, record q { lock = l })
        else (true, record (sent q type payload size) { lock = l }))
      unlocked
    ∙ ap
        (λ l.
          if q.count == q.capacity
          then (false, record q { lock = l })
          else (true, sent q type payload size))
        (sym free)

abbrev received : MsgQueue → MsgQueue
received q = record q { head = (pull (queue q)).start; count = q.count - 1; lock = Mutex.init }

receive_locked-eq :
    (q : MsgQueue)
    → q.lock ≡ Mutex.init
    → receive_locked (record q { lock = taken })
      ≡ (if q.count == 0 then (none, q) else (some (first zeroed (queue q)), received q))
unfolding receive_locked
receive_locked-eq q free =
    ap
      (λ l.
        if q.count == 0
        then (none, record q { lock = l })
        else (some (first zeroed (queue q)), record (received q) { lock = l }))
      unlocked
    ∙ ap
        (λ l.
          if q.count == 0
          then (none, record q { lock = l })
          else (some (first zeroed (queue q)), received q))
        (sym free)

-- `msgqueue_send` with a length that fits, of a payload that is at least as long, always returns.
-- With room it puts one message at the end of the queue, with that type, that length and the bytes
-- of the payload. For a payload that is NULL the message has the length too, with the bytes that the
-- cell held before. When the queue is full it fails and changes nothing.
pub send_lem :
    {q : MsgQueue} (type : ℕ) (payload : Option (List ℕ)) (size : ℕ)
    → IsValid q
    → Readable payload size
    → size ≤ max_payload
    → (r : MsgQueue) × IsValid r
      × ((q.count < q.capacity)
            × (send q type payload size ≡ some (true, r))
            × ((m : Message) × (waiting r ≡ waiting q ++ (m ∷ []))
                × (m.type ≡ type)
                × (m.length ≡ size)
                × Carries (next_cell q).payload payload size m)
          ⊎ (q.count ≡ q.capacity) × (send q type payload size ≡ some (false, r)) × (r ≡ q))
send_lem {q} type payload size v readable h = elim (dec_lt q.count q.capacity) [
  | yes room ↦ (
    sent q type payload size,
    record { ring = (added room).0; free = refl },
    inl (
      room,
      opened ∙ ap some (ap choice (ne→== q.count q.capacity (λ e. omega arith))),
      (
        message q type payload size,
        (added room).1,
        (unfold filled in refl),
        (unfold filled in refl),
        filled-Carries (next_cell q) type payload size readable,
      ),
    ),
  )
  | no full ↦ (
    q,
    v,
    inr (
      omega (arith, v.ring.places.fits),
      opened ∙ ap some (ap choice (eq→== q.count q.capacity (omega (arith, v.ring.places.fits)))),
      refl,
    ),
  )
]
  where
    added :
        q.count < q.capacity
        → IsQueue (queue (sent q type payload size))
          × (waiting (sent q type payload size) ≡ waiting q ++ (message q type payload size ∷ []))
    added room = put-contents zeroed (message q type payload size) (queue q) v.ring room

    choice : Bool → Bool × MsgQueue
    choice t = if t then (false, q) else (true, sent q type payload size)

    opened : send q type payload size ≡ some (choice (q.count == q.capacity))
    opened = send-open q type payload size v h ∙ ap some (send_locked-eq q type payload size v.free)

-- `msgqueue_receive` always returns: the oldest message, which leaves the queue, or nothing when the
-- queue is empty.
pub receive_lem :
    {q : MsgQueue}
    → IsValid q
    → (r : MsgQueue) × IsValid r
      × (((m : Message) × (receive q ≡ some (some m, r)) × (waiting q ≡ m ∷ waiting r))
          ⊎ (waiting q ≡ []) × (receive q ≡ some (none, r)) × (r ≡ q))
receive_lem {q} v = elim (dec_lt 0 q.count) [
  | yes some_left ↦ (
    received q,
    record { ring = (gone some_left).0; free = refl },
    inl (
      first zeroed (queue q),
      opened ∙ ap some (ap choice (ne→== q.count 0 (λ e. omega arith))),
      (gone some_left).1,
    ),
  )
  | no empty ↦ (
    q,
    v,
    inr (
      ap (items zeroed q.messages q.capacity q.head) (at_zero empty) ∙ (unfold items in refl),
      opened ∙ ap some (ap choice (eq→== q.count 0 (at_zero empty))),
      refl,
    ),
  )
]
  where
    gone :
        0 < q.count
        → IsQueue (queue (received q)) × (waiting q ≡ first zeroed (queue q) ∷ waiting (received q))
    gone some_left = pull-contents zeroed (queue q) v.ring some_left

    at_zero : ¬ 0 < q.count → q.count ≡ 0
    at_zero empty = omega arith

    choice : Bool → Option Message × MsgQueue
    choice t = if t then (none, q) else (some (first zeroed (queue q)), received q)

    opened : receive q ≡ some (choice (q.count == 0))
    opened = receive-open q v ∙ ap some (receive_locked-eq q v.free)
