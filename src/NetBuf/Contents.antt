-- ===== src/NetBuf/Contents.antt =====
-- kernel/net/net_buf.c: the bytes that a packet buffer holds.
use nv0ken_linux.Prelude.{
  ℕ, ◌+◌, ◌^◌, ◌≤◌, ◌<◌, ◌≡◌, refl, ap, ◌∙◌, arith, Bool, true, false, List, ◌++◌, ltb,
  if◌then◌else◌, length, take, drop, overlay, length-append, length-take, length-drop, take_past,
  append-nil, drop_past, Option, none, some,
}
use nv0ken_linux.Word.{add64}
use nv0ken_linux.NetBuf.{NetBuf, append, prepend}

-- The cells are as many as the capacity says, and the used ones among them.
abbrev pub IsValid : NetBuf → Type 0
IsValid b = (length b.cells ≡ b.capacity) × (b.used ≤ b.capacity) × (b.capacity < 2 ^ 63)

abbrev pub contents : NetBuf → List ℕ
contents b = take b.used b.cells

-- The result of an operation: a valid buffer of a given capacity with the given contents.
abbrev pub Holds : ℕ → Option NetBuf → List ℕ → Type 0
Holds capacity result now =
    (r : NetBuf) × (result ≡ some r) × IsValid r × (r.capacity ≡ capacity) × (contents r ≡ now)

sum_fits : (a b c : ℕ) → a ≤ c → c < 2 ^ 63 → b < 2 ^ 63 → add64 a b ≡ a + b
sum_fits a b c h k l = omega arith

overlay-length :
    (xs : List ℕ) (i : ℕ) (ys : List ℕ)
    → i + length ys ≤ length xs
    → length (overlay xs i ys) ≡ length xs
overlay-length xs i ys h =
    let a = length-append (take i xs) (ys ++ drop (i + length ys) xs) in
    let b = length-append ys (drop (i + length ys) xs) in
    let c = length-take i xs in let d = length-drop (i + length ys) xs in omega arith

-- The front of an array with a block written behind its first `i` cells.
overlay-front :
    (xs : List ℕ) (i : ℕ) (ys : List ℕ)
    → i ≤ length xs
    → take (i + length ys) (overlay xs i ys) ≡ take i xs ++ ys
overlay-front xs i ys h =
    take_past (i + length ys) (length ys) (take i xs) (ys ++ drop (i + length ys) xs) first
    ∙ ap (λ (l : List ℕ). take i xs ++ l)
        (take_past (length ys) 0 ys (drop (i + length ys) xs) (omega arith) ∙ append-nil ys)
  where
    first : i + length ys ≡ length (take i xs) + length ys
    first = let c = length-take i xs in omega arith

fits :
    (b : NetBuf) (n : ℕ)
    → IsValid b
    → n < 2 ^ 63
    → b.used + n ≤ b.capacity
    → ltb b.capacity (add64 b.used n) ≡ false
fits b n v l h = ground (arith, sum_fits b.used n b.capacity v.1 v.2 l)

full :
    (b : NetBuf) (n : ℕ)
    → IsValid b
    → n < 2 ^ 63
    → b.capacity < b.used + n
    → ltb b.capacity (add64 b.used n) ≡ true
full b n v l h = ground (arith, sum_fits b.used n b.capacity v.1 v.2 l)

-- Without room for the bytes, both fail.
pub append-none :
    (b : NetBuf) (bytes : List ℕ)
    → IsValid b
    → length bytes < 2 ^ 63
    → b.capacity < b.used + length bytes
    → append b bytes ≡ none
unfolding append
append-none b bytes v l h = rw (full b (length bytes) v l h) refl

pub prepend-none :
    (b : NetBuf) (bytes : List ℕ)
    → IsValid b
    → length bytes < 2 ^ 63
    → b.capacity < b.used + length bytes
    → prepend b bytes ≡ none
unfolding prepend
prepend-none b bytes v l h = rw (full b (length bytes) v l h) refl

-- With room, `net_buf_append` succeeds, and the bytes stand behind those of before.
pub append_lem :
    (b : NetBuf) (bytes : List ℕ)
    → IsValid b
    → length bytes < 2 ^ 63
    → b.used + length bytes ≤ b.capacity
    → Holds b.capacity (append b bytes) (contents b ++ bytes)
unfolding append
append_lem b bytes v l h = (
  result,
  ap choose (fits b (length bytes) v l h),
  (overlay-length b.cells b.used bytes (omega arith) ∙ v.0, omega (arith, total), v.2),
  refl,
  ap (λ (n : ℕ). take n (overlay b.cells b.used bytes)) total
      ∙ overlay-front b.cells b.used bytes (omega arith),
)
  where
    total : add64 b.used (length bytes) ≡ b.used + length bytes
    total = sum_fits b.used (length bytes) b.capacity v.1 v.2 l

    result : NetBuf
    result = record b { cells = overlay b.cells b.used bytes; used = add64 b.used (length bytes) }

    choose : Bool → Option NetBuf
    choose t = if t then none else some result

-- `net_buf_prepend` likewise, with the bytes in front of those that the buffer held.
pub prepend_lem :
    (b : NetBuf) (bytes : List ℕ)
    → IsValid b
    → length bytes < 2 ^ 63
    → b.used + length bytes ≤ b.capacity
    → Holds b.capacity (prepend b bytes) (bytes ++ contents b)
unfolding prepend
prepend_lem b bytes v l h = (
  result,
  ap choose (fits b (length bytes) v l h),
  (size h ∙ v.0, omega (arith, total), v.2),
  refl,
  ap (λ (n : ℕ). take n (overlay moved 0 bytes)) total ∙ front h,
)
  where
    total : add64 b.used (length bytes) ≡ b.used + length bytes
    total = sum_fits b.used (length bytes) b.capacity v.1 v.2 l

    moved : List ℕ
    moved = overlay b.cells (length bytes) (contents b)

    result : NetBuf
    result = record b { cells = overlay moved 0 bytes; used = add64 b.used (length bytes) }

    choose : Bool → Option NetBuf
    choose t = if t then none else some result

    held : length (contents b) ≡ b.used
    held = let c = length-take b.used b.cells in omega arith

    moved_size : b.used + length bytes ≤ b.capacity → length moved ≡ length b.cells
    moved_size h = let k = held in overlay-length b.cells (length bytes) (contents b) (omega arith)

    size : b.used + length bytes ≤ b.capacity → length (overlay moved 0 bytes) ≡ length b.cells
    size h = let m = moved_size h in overlay-length moved 0 bytes (omega arith) ∙ m

    rest :
        b.used + length bytes ≤ b.capacity
        → drop (length bytes) moved
          ≡ contents b ++ drop (length bytes + length (contents b)) b.cells
    rest h =
        let c = length-take (length bytes) b.cells in
        drop_past (length bytes) 0 (take (length bytes) b.cells)
          (contents b ++ drop (length bytes + length (contents b)) b.cells) (omega arith)

    front :
        b.used + length bytes ≤ b.capacity
        → take (b.used + length bytes) (overlay moved 0 bytes) ≡ bytes ++ contents b
    front h =
        take_past (b.used + length bytes) b.used bytes (drop (0 + length bytes) moved) (omega arith)
        ∙ ap (λ (n : ℕ). bytes ++ take b.used (drop n moved)) zero_more
        ∙ ap (λ (l : List ℕ). bytes ++ take b.used l) (rest h)
        ∙ ap (λ (l : List ℕ). bytes ++ l) kept
      where
        zero_more : 0 + length bytes ≡ length bytes
        zero_more = omega arith

        kept :
            take b.used (contents b ++ drop (length bytes + length (contents b)) b.cells)
            ≡ contents b
        kept =
            let k = held in
            take_past b.used 0 (contents b) (drop (length bytes + length (contents b)) b.cells)
              (omega arith)
            ∙ append-nil (contents b)

-- A payload is appended to a valid buffer and a header put in front, as the layers of the network do:
-- when there is room for both, both calls succeed, and the buffer, valid again, holds the header, its
-- own bytes and the payload in this order.
pub prepend-append :
    (b : NetBuf) (payload front : List ℕ)
    → IsValid b
    → length payload + length front < 2 ^ 63
    → b.used + (length payload + length front) ≤ b.capacity
    → Holds b.capacity
        (elim (append b payload) [ none ↦ none | some s ↦ prepend s front ])
        (front ++ (contents b ++ payload))
prepend-append b payload front v l h = go (append_lem b payload v (omega arith) (omega arith))
  where
    next : Option NetBuf → Option NetBuf
    next o = elim o [ none ↦ none | some s ↦ prepend s front ]

    size :
        (s : NetBuf)
        → IsValid s
        → contents s ≡ contents b ++ payload
        → s.used ≡ b.used + length payload
    size s w e =
        let a = ap length e ∙ length-append (contents b) payload in
        let c = length-take s.used s.cells in let d = length-take b.used b.cells in omega arith

    go :
        Holds b.capacity (append b payload) (contents b ++ payload)
        → Holds b.capacity (next (append b payload)) (front ++ (contents b ++ payload))
    go (s, e, w, q, c) =
        finish (prepend_lem s front w (omega arith) (let z = size s w c in omega arith))
      where
        finish :
            Holds s.capacity (prepend s front) (front ++ contents s)
            → Holds b.capacity (next (append b payload)) (front ++ (contents b ++ payload))
        finish (r, f, x, y, d) = (r, ap next e ∙ f, x, y ∙ q, d ∙ ap (λ (l : List ℕ). front ++ l) c)
