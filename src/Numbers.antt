-- ===== src/Numbers.antt =====
-- kernel/lib/stdlib.c: reading numbers. A text is the list of its bytes before the zero; `unsigned
-- long` and `long` have 64 bits. What the code stores through `endptr` is the rest of the text.
pub mod RoundTrip
mod Tests
use nv0ken_linux.Prelude.{
  ℕ, zero, suc, ◌+◌, ◌-◌, ◌*◌, ◌%◌, ◌^◌, ◌≤◌, ◌<◌, ◌≡◌, Bool, true, false, not, ◌&&◌, ◌||◌, List,
  [], ◌∷◌, ltb, leb, ◌==◌, if◌then◌else◌, length, drop, get_or, Option, none, some,
}
use nv0ken_linux.Prelude.Int.{ℤ, pos, negsuc, ◌-ℤ◌}
use nv0ken_linux.Word.{add64, mul64}

abbrev between : ℕ → ℕ → ℕ → Bool
between low high c = leb low c && leb c high

-- The result -1 is none.
unfoldable pub digit_value : ℕ → Option ℕ
digit_value ch =
    if between b'0' b'9' ch
    then some (ch - b'0')
    else if between b'a' b'z' ch
    then some (ch - b'a' + 10)
    else if between b'A' b'Z' ch
    then some (ch - b'A' + 10)
    else none

-- The six characters that `skip_space` passes: a space, and tab to carriage return.
abbrev pub is_space : ℕ → Bool
is_space c = c == b' ' || between 9 13 c

unfoldable pub skip_space : List ℕ → List ℕ
skip_space [] = []
skip_space (c ∷ cs) = let rest = skip_space cs in if is_space c then rest else c ∷ cs

abbrev is_x : ℕ → Bool
is_x c = c == b'x' || c == b'X'

-- The base that counts, and the text behind a prefix. A text that has ended reads as zero bytes.
unfoldable pub prefix : ℕ → List ℕ → ℕ × List ℕ
prefix base p =
    let starts = get_or p 0 0 == b'0' in
    let marked = is_x (get_or p 1 0) in
    if base == 0
    then if starts then if marked then (16, drop 2 p) else (8, p) else (10, p)
    else if base == 16 && starts && marked
    then (16, drop 2 p)
    else (base, p)

-- The loop over the digits: the value so far, and the text that is left.
unfoldable pub digits_from : ℕ → ℕ → List ℕ → ℕ × List ℕ
digits_from base value [] = (value, [])
digits_from base value (c ∷ cs) =
    let next = λ (d : ℕ). digits_from base (add64 (mul64 value base) d) cs in
    elim (digit_value c) [
      | none ↦ (value, c ∷ cs)
      | some d ↦ if leb base d then (value, c ∷ cs) else next d
    ]

unfoldable pub strtoul : List ℕ → ℕ → ℕ × List ℕ
strtoul text base =
    let (b, p) = prefix base (skip_space text) in
    let (value, rest) = digits_from b 0 p in (value, if length rest == length p then text else rest)

-- A 64-bit pattern as a `long`.
abbrev pub to_long : ℕ → ℤ
to_long v = if ltb v (2 ^ 63) then pos v else negsuc (2 ^ 64 - 1 - v)

unfoldable pub strtol : List ℕ → ℕ → ℤ × List ℕ
strtol text base =
    let p = skip_space text in
    let negative = get_or p 0 0 == b'-' in
    let q = if get_or p 0 0 == b'+' || negative then drop 1 p else p in
    let (value, rest) = strtoul q base in
    (
      if negative then pos 0 -ℤ to_long value else to_long value,
      if length rest == length q then text else rest,
    )
