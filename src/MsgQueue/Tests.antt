-- ===== src/MsgQueue/Tests.antt =====
-- A queue for two messages with one message in it.
use nv0ken_linux.Prelude.{
  ℕ, ◌<◌, ◌≡◌, refl, arith, [], ◌∷◌, ◌++◌, true, false, some, none, replicate, take, ◌⊎◌,
}
use nv0ken_linux.Mutex
use nv0ken_linux.Queue.{items}
use nv0ken_linux.MsgQueue.{MsgQueue, Message, send, receive, zeroed}
use nv0ken_linux.MsgQueue.Laws.{IsValid, waiting, send_lem, receive_lem}

abbrev hello : Message
hello = record { type = 4; length = 2; payload = 104 ∷ 105 ∷ replicate 254 0 }

abbrev sample : MsgQueue
sample = record {
  messages = zeroed ∷ hello ∷ [];
  capacity = 2;
  head = 1;
  tail = 0;
  count = 1;
  lock = record { locked = 0; owner = 0; recursion = 0 };
}

sample-IsValid : IsValid sample
unfolding Mutex.init
sample-IsValid = record {
  ring = record {
    places = record { room = omega arith; start_in = omega arith; fits = omega arith; ends = refl };
    sized = refl;
  };
  free = refl;
}

send_lem_example :
    (r : MsgQueue) × IsValid r
    × ((1 < 2)
          × (send sample 7 (some (120 ∷ 121 ∷ 122 ∷ [])) 2 ≡ some (true, r))
          × ((m : Message) × (waiting r ≡ waiting sample ++ (m ∷ []))
              × (m.type ≡ 7)
              × (m.length ≡ 2)
              × (take 2 m.payload ≡ 120 ∷ 121 ∷ []))
        ⊎ (◌≡◌ {A = ℕ} 1 2)
          × (send sample 7 (some (120 ∷ 121 ∷ 122 ∷ [])) 2 ≡ some (false, r))
          × (r ≡ sample))
send_lem_example =
    send_lem 7 (some (120 ∷ 121 ∷ 122 ∷ [])) 2 sample-IsValid (omega arith) (omega arith)

receive_lem_example :
    (r : MsgQueue) × IsValid r
    × (((m : Message) × (receive sample ≡ some (some m, r)) × (hello ∷ [] ≡ m ∷ waiting r))
        ⊎ (hello ∷ [] ≡ []) × (receive sample ≡ some (none, r)) × (r ≡ sample))
unfolding items
receive_lem_example = receive_lem sample-IsValid
