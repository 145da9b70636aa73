-- ===== src/Checksum.antt =====
-- kernel/net/checksum.c: the checksum of the internet protocols, over a list of bytes.
pub mod Verifies
mod Tests
use nv0ken_linux.Prelude.{
  ℕ, zero, suc, ◌+◌, ◌-◌, ◌*◌, ◌/◌, ◌%◌, ◌^◌, ◌≡◌, Bool, true, false, List, [], ◌∷◌, ◌==◌,
  if◌then◌else◌, length, Option, none, some,
}

-- The sum of the 16-bit words in a `uint32_t`; a last byte alone is the upper half of a word.
unfoldable pub sum_words : ℕ → List ℕ → ℕ
sum_words sum [] = sum
sum_words sum (b ∷ []) = (sum + b * 256) % 2 ^ 32
sum_words sum (b ∷ c ∷ bytes) = sum_words ((sum + (b * 256 + c)) % 2 ^ 32) bytes

-- `while (sum >> 16)`, on fuel; none when it runs out.
unfoldable pub fold_carries : ℕ → ℕ → Option ℕ
fold_carries zero sum = none
fold_carries (suc fuel) sum =
    let rest = fold_carries fuel (sum % 2 ^ 16 + sum / 2 ^ 16) in
    if sum / 2 ^ 16 == 0 then some sum else rest

-- The loops over the bytes from a first sum on; three rounds take in all carries and leave.
unfoldable pub checksum_from : ℕ → List ℕ → Option ℕ
checksum_from start bytes = elim (fold_carries 3 (sum_words start bytes)) [
  | none ↦ none
  | some sum ↦ some (2 ^ 16 - 1 - sum)
]

unfoldable pub net_checksum : List ℕ → Option ℕ
unfolding checksum_from
net_checksum bytes = checksum_from 0 bytes

-- The sum of the pseudo header.
unfoldable pub pseudo_header : ℕ → ℕ → ℕ → ℕ → ℕ
pseudo_header src dst proto size =
    src / 2 ^ 16 % 2 ^ 16
    + src % 2 ^ 16
    + (dst / 2 ^ 16 % 2 ^ 16)
    + dst % 2 ^ 16
    + proto
    + size % 2 ^ 16

unfoldable pub net_checksum_pseudo_ipv4 : ℕ → ℕ → ℕ → List ℕ → Option ℕ
unfolding checksum_from pseudo_header
net_checksum_pseudo_ipv4 src dst proto bytes =
    checksum_from (pseudo_header src dst proto (length bytes)) bytes
