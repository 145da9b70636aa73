-- ===== src/Printf.antt =====
-- kernel/lib/kprintf.c: formatted output, as the list of the characters that go to `kputchar`. The
-- count that the functions return is the length of that list.
mod Tests
use nv0ken_linux.Prelude.{
  ℕ, zero, suc, ◌+◌, ◌-◌, ◌*◌, ◌/◌, ◌%◌, ◌^◌, ◌≤◌, ◌<◌, ◌≡◌, Bool, true, false, not, ◌&&◌, ◌||◌,
  List, [], ◌∷◌, ◌++◌, ltb, leb, ◌==◌, if◌then◌else◌, length, get_or, Option, none, some,
}

-- The table `digits`.
abbrev pub digit : Bool → ℕ → ℕ
digit uppercase d =
    get_or
      (b'0'
        ∷ b'1'
        ∷ b'2'
        ∷ b'3'
        ∷ b'4'
        ∷ b'5'
        ∷ b'6'
        ∷ b'7'
        ∷ b'8'
        ∷ b'9'
        ∷ (if uppercase
            then b'A' ∷ b'B' ∷ b'C' ∷ b'D' ∷ b'E' ∷ b'F' ∷ []
            else b'a' ∷ b'b' ∷ b'c' ∷ b'd' ∷ b'e' ∷ b'f' ∷ []))
      d 0

-- The loop that fills `buffer` from the last digit on, on fuel; `out` is what it prints afterwards.
unfoldable pub digits_of : ℕ → ℕ → ℕ → Bool → List ℕ → List ℕ
digits_of zero value base uppercase out = out
digits_of (suc fuel) value base uppercase out =
    let rest =
      digits_of fuel (value / base) base uppercase (digit uppercase (value % base) ∷ out) in
    if ltb 0 value then rest else out

-- A 64-bit value has no more than 64 digits; in a base of at least 4 they fit into the 32 cells of
-- `buffer`.
unfoldable pub emit_unsigned : ℕ → ℕ → Bool → List ℕ
emit_unsigned value base uppercase =
    if value == 0 then b'0' ∷ [] else digits_of 64 value base uppercase []

-- The argument is the pattern of an `int64_t`.
unfoldable pub emit_signed : ℕ → List ℕ
emit_signed value =
    if leb (2 ^ 63) value
    then b'-' ∷ emit_unsigned ((2 ^ 64 - value) % 2 ^ 64) 10 false
    else emit_unsigned value 10 false

abbrev pub emit_string : Option (List ℕ) → List ℕ
emit_string none = b'(' ∷ b'n' ∷ b'u' ∷ b'l' ∷ b'l' ∷ b')' ∷ []
emit_string (some text) = text

-- An argument: a 64-bit pattern, or a pointer to a text.
pub data Argument : Type 0 where
  number : ℕ → Argument
  string : Option (List ℕ) → Argument

-- The length modifier, as whether 64 bits are read, and the format behind it.
abbrev pub modifier : List ℕ → Bool × List ℕ
modifier [] = (false, [])
modifier (c ∷ []) = if c == b'z' || c == b'l' then (true, []) else (false, c ∷ [])
modifier (c ∷ d ∷ fmt) =
    if c == b'z'
    then (true, d ∷ fmt)
    else if c == b'l'
    then if d == b'l' then (true, fmt) else (true, d ∷ fmt)
    else (false, c ∷ d ∷ fmt)

-- `int` and `unsigned int` have 32 bits; an `int` is widened with its sign.
abbrev pub widened : Bool → ℕ → ℕ
widened true v = v % 2 ^ 64
widened false v = let low = v % 2 ^ 32 in if ltb low (2 ^ 31) then low else low + (2 ^ 64 - 2 ^ 32)

abbrev pub narrowed : Bool → ℕ → ℕ
narrowed long v = if long then v % 2 ^ 64 else v % 2 ^ 32

-- What a specifier prints and the arguments that it leaves; none for an argument that is missing or
-- of another type, whose reading is undefined.
unfoldable pub convert : ℕ → Bool → List Argument → Option (List ℕ × List Argument)
convert c long args =
    if c == b'%'
    then some (b'%' ∷ [], args)
    else if c == b's'
    then text args
    else if c == b'c' || c == b'd' || c == b'i' || c == b'u' || c == b'x' || c == b'X' || c == b'p'
    then word args
    else some (b'?' ∷ [], args)
  where
    text : List Argument → Option (List ℕ × List Argument)
    text (string t ∷ rest) = some (emit_string t, rest)
    text _ = none

    printed : ℕ → List ℕ
    printed v =
        if c == b'c'
        then (v % 256) ∷ []
        else if c == b'd' || c == b'i'
        then emit_signed (widened long v)
        else if c == b'u'
        then emit_unsigned (narrowed long v) 10 false
        else if c == b'x'
        then emit_unsigned (narrowed long v) 16 false
        else if c == b'X'
        then emit_unsigned (narrowed long v) 16 true
        else b'0' ∷ b'x' ∷ emit_unsigned (v % 2 ^ 64) 16 false

    word : List Argument → Option (List ℕ × List Argument)
    word (number v ∷ rest) = some (printed v, rest)
    word _ = none

-- `kvprintf` on fuel, one round for each character of the format. A format that ends behind `%` is
-- none: the code reads on behind the end of the format.
unfoldable pub kvprintf : ℕ → List ℕ → List Argument → Option (List ℕ)
kvprintf fuel [] args = some []
kvprintf zero (c ∷ fmt) args = none
kvprintf (suc fuel) (c ∷ fmt) args =
    let plain = kvprintf fuel fmt args in
    let (long, spec) = modifier fmt in
    if not (c == b'%') then elim plain [ none ↦ none | some out ↦ some (c ∷ out) ] else elim spec [
      | [] ↦ none
      | s ∷ rest ↦ elim (convert s long args) [
        | none ↦ none
        | some (out, left) ↦ elim (kvprintf fuel rest left) [
          | none ↦ none
          | some more ↦ some (out ++ more)
        ]
      ]
    ]
