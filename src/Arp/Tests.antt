-- ===== src/Arp/Tests.antt =====
-- A table with one address, and a full one.
use nv0ken_linux.Prelude.{ℕ, ◌≡◌, refl, arith, true, false, List, [], ◌∷◌, none, some, length}
use nv0ken_linux.Arp.{Entry, init, slot_for, learn, lookup, request_packet, receive}
use nv0ken_linux.Arp.Laws.{lookup-learn, receive-request_packet}

abbrev address : List ℕ
address = 2 ∷ 0 ∷ 0 ∷ 0 ∷ 0 ∷ 7 ∷ []

abbrev used : Entry
used = record { ipv4 = 5; mac = address; valid = true }

abbrev unused : Entry
unused = record { ipv4 = 0; mac = []; valid = false }

init_runs : lookup 9 (learn 9 address init) ≡ some address
unfolding init lookup learn slot_for
init_runs = refl

packet_runs : length (request_packet address 3232235777 3232235778) ≡ 28
unfolding request_packet
packet_runs = refl

-- A full table forgets the address in its first slot.
forgotten_runs : lookup 5 (learn 9 (1 ∷ 1 ∷ 1 ∷ 1 ∷ 1 ∷ 1 ∷ []) (used ∷ [])) ≡ none
unfolding lookup learn slot_for
forgotten_runs = refl

lookup-learn_example : lookup 5 (learn 9 address (used ∷ unused ∷ [])) ≡ some address
unfolding slot_for lookup
lookup-learn_example = lookup-learn 9 address (used ∷ unused ∷ []) (λ e. cc) 5

receive-request_packet_example :
    lookup 3232235777 (receive (request_packet address 3232235777 3232235778) (used ∷ []))
    ≡ some address
receive-request_packet_example =
    receive-request_packet 2 0 0 0 0 7 3232235777 3232235778 used [] (omega arith)
