-- ===== src/Checksum/Tests.antt =====
-- The header of a request between two hosts, and a datagram below a pseudo header.
use nv0ken_linux.Prelude.{ℕ, ◌/◌, ◌%◌, ◌^◌, ◌<◌, ◌≡◌, refl, arith, List, [], ◌∷◌, ◌++◌, some}
use nv0ken_linux.Checksum.{
  sum_words, fold_carries, checksum_from, net_checksum, pseudo_header, net_checksum_pseudo_ipv4,
}
use nv0ken_linux.Checksum.Verifies.{checksum_lem}

sum_runs : net_checksum (69 ∷ 0 ∷ 255 ∷ 254 ∷ 64 ∷ []) ≡ some 31488
unfolding net_checksum checksum_from sum_words fold_carries
sum_runs = refl

abbrev front : List ℕ
front = 0 ∷ 53 ∷ 0 ∷ 54 ∷ []

pseudo_runs :
    net_checksum_pseudo_ipv4 3232235777 3232235778 17 (front ++ 0 ∷ 0 ∷ 7 ∷ []) ≡ some 29992
unfolding net_checksum_pseudo_ipv4 pseudo_header checksum_from sum_words fold_carries
pseudo_runs = refl

checksum_lem_example :
    (c : ℕ) × (checksum_from 99179 (front ++ 0 ∷ 0 ∷ 7 ∷ []) ≡ some c)
    × (c < 2 ^ 16)
    × (checksum_from 99179 (front ++ c / 256 ∷ c % 256 ∷ 7 ∷ []) ≡ some 0)
checksum_lem_example =
    checksum_lem 99179 front (7 ∷ []) refl
      (
        omega arith,
        (
          omega arith,
          (omega arith, (omega arith, (omega arith, (omega arith, (omega arith, tt))))),
        ),
      )
      (omega arith) (omega arith)
