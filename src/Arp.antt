-- ===== src/Arp.antt =====
-- kernel/net/arp.c: the table of hardware addresses, and the packets that fill it. A hardware
-- address is the list of its six bytes; the processor stores a number with its lowest byte first.
pub mod Laws
mod Tests
use nv0ken_linux.Prelude.{
  ℕ, zero, suc, ◌+◌, ◌*◌, ◌/◌, ◌%◌, ◌^◌, ◌≡◌, Bool, true, false, not, ◌&&◌, ◌||◌, List, [], ◌∷◌,
  ◌++◌, ltb, ◌==◌, if◌then◌else◌, length, get_or, set, take, drop, replicate, Option, none, some,
}

pub record Entry : Type 0 where
  pub ipv4 : ℕ
  pub mac : List ℕ
  pub valid : Bool

abbrev pub table_size : ℕ
table_size = 32

unfoldable pub init : List Entry
init = replicate table_size (record { ipv4 = 0; mac = 0 ∷ 0 ∷ 0 ∷ 0 ∷ 0 ∷ 0 ∷ []; valid = false })

abbrev pub is_for : ℕ → Entry → Bool
is_for ipv4 e = e.valid && e.ipv4 == ipv4

-- The loop of `arp_learn`: the first entry that has the address or is not in use.
unfoldable pub slot_for : ℕ → List Entry → Option ℕ
slot_for ipv4 [] = none
slot_for ipv4 (e ∷ table) =
    let rest = slot_for ipv4 table in
    if is_for ipv4 e || not e.valid
    then some 0
    else elim rest [ none ↦ none | some i ↦ some (suc i) ]

-- Slot 0 when the table is full.
unfoldable pub learn : ℕ → List ℕ → List Entry → List Entry
learn ipv4 mac table =
    set table (elim (slot_for ipv4 table) [ none ↦ 0 | some i ↦ i ])
      (record { ipv4 = ipv4; mac = mac; valid = true })

unfoldable pub lookup : ℕ → List Entry → Option (List ℕ)
lookup ipv4 [] = none
lookup ipv4 (e ∷ table) = let rest = lookup ipv4 table in if is_for ipv4 e then some e.mac else rest

-- A `uint32_t` in memory.
abbrev pub bytes_of : ℕ → List ℕ
bytes_of n = n % 256 ∷ n / 2 ^ 8 % 256 ∷ n / 2 ^ 16 % 256 ∷ n / 2 ^ 24 % 256 ∷ []

abbrev pub number_at : ℕ → List ℕ → ℕ
number_at i bytes =
    get_or bytes i 0
    + 2 ^ 8 * get_or bytes (i + 1) 0
    + 2 ^ 16 * get_or bytes (i + 2) 0
    + 2 ^ 24 * get_or bytes (i + 3) 0

-- The packet that `arp_request` sends: Ethernet and IPv4, addresses of 6 and 4 bytes, a request.
unfoldable pub request_packet : List ℕ → ℕ → ℕ → List ℕ
request_packet mac ipv4 target =
    (0 ∷ 1 ∷ 8 ∷ 0 ∷ 6 ∷ 4 ∷ 0 ∷ 1 ∷ []) ++ mac ++ bytes_of ipv4 ++ replicate 6 0 ++ bytes_of target

-- `sizeof(arp_packet_t)`
abbrev pub packet_size : ℕ
packet_size = 28

unfoldable pub receive : List ℕ → List Entry → List Entry
receive packet table =
    if ltb (length packet) packet_size
    then table
    else learn (number_at 14 packet) (take 6 (drop 8 packet)) table
