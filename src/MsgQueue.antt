-- ===== src/MsgQueue.antt =====
-- kernel/ipc/msgqueue.c: a bounded queue of typed messages, under a mutex.
-- `messages` that is NULL is the empty list, and a payload that is NULL is none. A call that would wait for the mutex for ever is none.
pub mod Laws
mod Tests
use nv0ken_linux.Prelude.{
  ℕ, zero, suc, ◌-◌, ◌≤◌, ◌<◌, ◌≡◌, Bool, true, false, not, ◌||◌, List, [], ◌∷◌, ltb, leb, ◌==◌,
  if◌then◌else◌, is_empty, take, get_or, set, Option, none, some, overlay, replicate,
}
use nv0ken_linux.Queue.{Queue, after}
use nv0ken_linux.Mutex
use nv0ken_linux.Mutex.{Mutex}

-- The payload is an array of `max_payload` bytes, of which `length` count.
pub record Message : Type 0 where
  pub type : ℕ
  pub length : ℕ
  pub payload : List ℕ

pub record MsgQueue : Type 0 where
  pub messages : List Message
  pub capacity : ℕ
  pub head : ℕ
  pub tail : ℕ
  pub count : ℕ
  pub lock : Mutex

abbrev pub max_payload : ℕ
max_payload = 256

-- A message that `kcalloc` has zeroed.
abbrev pub zeroed : Message
zeroed = record { type = 0; length = 0; payload = replicate max_payload 0 }

-- `granted` says whether `kcalloc` has memory.
unfoldable pub init : Bool → ℕ → Option MsgQueue
init granted capacity =
    if capacity == 0 || not granted
    then none
    else some (record {
      messages = replicate capacity zeroed;
      capacity = capacity;
      head = 0;
      tail = 0;
      count = 0;
      lock = Mutex.init;
    })

unfoldable pub destroy : MsgQueue → MsgQueue
destroy q = record q { messages = []; capacity = 0; count = 0 }

-- The payload of a cell after `memcpy(message->payload, payload, length)`, which is skipped for a
-- payload that is NULL: the cell keeps the bytes that it has.
abbrev pub copied : List ℕ → Option (List ℕ) → ℕ → List ℕ
copied old none size = old
copied old (some bytes) size = if size == 0 then old else overlay old 0 (take size bytes)

-- The message that a cell holds after the three stores of `msgqueue_send`.
unfoldable pub filled : Message → ℕ → Option (List ℕ) → ℕ → Message
filled old type payload size = record {
  type = type;
  length = size;
  payload = copied old.payload payload size;
}

-- `msgqueue_send` behind `mutex_lock`, with its `mutex_unlock` on both ways out.
unfoldable pub send_locked : MsgQueue → ℕ → Option (List ℕ) → ℕ → Bool × MsgQueue
send_locked q type payload size =
    let free = Mutex.unlock q.lock in
    if q.count == q.capacity then (false, record q { lock = free }) else (
      true,
      record q {
        messages =
            set q.messages q.tail (filled (get_or q.messages q.tail zeroed) type payload size);
        tail = after q.capacity q.tail;
        count = suc q.count;
        lock = free;
      },
    )

unfoldable pub send : MsgQueue → ℕ → Option (List ℕ) → ℕ → Option (Bool × MsgQueue)
send q type payload size =
    if is_empty q.messages || ltb max_payload size
    then some (false, q)
    else elim (Mutex.lock q.lock) [
      | none ↦ none
      | some l ↦ some (send_locked (record q { lock = l }) type payload size)
    ]

unfoldable pub receive_locked : MsgQueue → Option Message × MsgQueue
receive_locked q =
    let free = Mutex.unlock q.lock in
    if q.count == 0 then (none, record q { lock = free }) else (
      some (get_or q.messages q.head zeroed),
      record q { head = after q.capacity q.head; count = q.count - 1; lock = free },
    )

unfoldable pub receive : MsgQueue → Option (Option Message × MsgQueue)
receive q = if is_empty q.messages then some (none, q) else elim (Mutex.lock q.lock) [
  | none ↦ none
  | some l ↦ some (receive_locked (record q { lock = l }))
]

-- The circular array that the queue is.
abbrev pub queue : MsgQueue → Queue Message
queue q = record {
  cells = q.messages;
  capacity = q.capacity;
  start = q.head;
  stop = q.tail;
  count = q.count;
}
