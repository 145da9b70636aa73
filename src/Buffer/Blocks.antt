-- ===== src/Buffer/Blocks.antt =====
-- The blocks that the gap buffer copies: what an overlay of one shows.

use nv0ken_linux.Prelude.{
  ℕ, ◌+◌, ◌-◌, ◌≤◌, ◌≡◌, sym, ap, ◌∙◌, arith, List, ◌++◌, length, take, drop, slice, overlay,
  length-append, length-take, length-drop, append-nil, take-append_le, take_past, drop_past,
  take-take, drop-drop, take_split, drop_split, append_assoc,
}

pub length-overlay :
    (xs : List ℕ) (i : ℕ) (ys : List ℕ)
    → i + length ys ≤ length xs
    → length (overlay xs i ys) ≡ length xs
length-overlay xs i ys h = omega (
  arith,
  length-append (take i xs) (ys ++ drop (i + length ys) xs),
  length-append ys (drop (i + length ys) xs),
  length-take i xs,
  length-drop (i + length ys) xs,
)

-- Before the block an overlay shows the array, at its start the block, and behind it the array.
pub take-overlay :
    (xs : List ℕ) (i k : ℕ) (ys : List ℕ)
    → k ≤ i
    → i ≤ length xs
    → take k (overlay xs i ys) ≡ take k xs
take-overlay xs i k ys h h' =
    take-append_le k (take i xs) (ys ++ drop (i + length ys) xs) (omega (arith, length-take i xs))
    ∙ take-take k i xs h

pub drop-overlay :
    (xs : List ℕ) (i : ℕ) (ys : List ℕ)
    → i ≤ length xs
    → drop i (overlay xs i ys) ≡ ys ++ drop (i + length ys) xs
drop-overlay xs i ys h =
    drop_past i 0 (take i xs) (ys ++ drop (i + length ys) xs) (omega (arith, length-take i xs))

pub take-overlay_block :
    (xs : List ℕ) (i : ℕ) (ys : List ℕ)
    → i ≤ length xs
    → take (i + length ys) (overlay xs i ys) ≡ take i xs ++ ys
take-overlay_block xs i ys h =
    take_past (i + length ys) (length ys) (take i xs) (ys ++ drop (i + length ys) xs)
      (omega (arith, length-take i xs))
    ∙ ap (λ t. take i xs ++ t)
        (take_past (length ys) 0 ys (drop (i + length ys) xs) (omega arith) ∙ append-nil ys)

pub drop-overlay_beyond :
    (xs : List ℕ) (i k : ℕ) (ys : List ℕ)
    → i + length ys ≤ k
    → i ≤ length xs
    → drop k (overlay xs i ys) ≡ drop k xs
drop-overlay_beyond xs i k ys h h' =
    drop_past k (k - i) (take i xs) (ys ++ drop (i + length ys) xs)
      (omega (arith, length-take i xs))
    ∙ drop_past (k - i) (k - i - length ys) ys (drop (i + length ys) xs) (omega arith)
    ∙ drop-drop (k - i - length ys) (i + length ys) xs
    ∙ back
  where
    back : drop (i + length ys + (k - i - length ys)) xs ≡ drop k xs
    back = ap (λ t. drop t xs) sum
      where
        sum : i + length ys + (k - i - length ys) ≡ k
        sum = omega arith

pub length-slice : (xs : List ℕ) (i n : ℕ) → i + n ≤ length xs → length (slice xs i n) ≡ n
length-slice xs i n h = omega (arith, length-take n (drop i xs), length-drop i xs)

-- Moving the gap down by `m`: the block before the gap goes behind it.
pub move_down :
    (xs : List ℕ) (p m e : ℕ)
    → p + m ≤ e
    → e ≤ length xs
    → let ys = overlay xs (e - m) (slice xs p m) in
      take p ys ++ drop (e - m) ys ≡ take (p + m) xs ++ drop e xs
move_down xs p m e h h' =
    ap (λ t. t ++ drop (e - m) (overlay xs (e - m) (slice xs p m)))
      (take-overlay xs (e - m) p (slice xs p m) (omega arith) (omega arith))
    ∙ ap (λ t. take p xs ++ t)
        (drop-overlay xs (e - m) (slice xs p m) (omega arith)
          ∙ ap (λ k. slice xs p m ++ drop k xs) end)
    ∙ sym (append_assoc (take p xs) (slice xs p m) (drop e xs))
    ∙ ap (λ t. t ++ drop e xs) (sym front)
  where
    end : e - m + length (slice xs p m) ≡ e
    end = omega (arith, length-slice xs p m (omega arith))

    width : p + m - p ≡ m
    width = omega arith

    front : take (p + m) xs ≡ take p xs ++ slice xs p m
    front = take_split p (p + m) xs (omega arith) ∙ ap (λ k. take p xs ++ slice xs p k) width

-- Moving it up by `m`: the block behind the gap goes before it.
pub move_up :
    (xs : List ℕ) (p m e : ℕ)
    → p ≤ e
    → e + m ≤ length xs
    → let ys = overlay xs p (slice xs e m) in
      take (p + m) ys ++ drop (e + m) ys ≡ take p xs ++ drop e xs
move_up xs p m e h h' =
    ap (λ t. t ++ drop (e + m) ys)
      (ap (λ k. take k ys) len ∙ take-overlay_block xs p (slice xs e m) (omega arith))
    ∙ ap (λ t. (take p xs ++ slice xs e m) ++ t)
        (drop-overlay_beyond xs p (e + m) (slice xs e m) (omega (arith, len)) (omega arith))
    ∙ append_assoc (take p xs) (slice xs e m) (drop (e + m) xs)
    ∙ ap (λ t. take p xs ++ t) (sym (drop_split e m xs))
  where
    ys : List ℕ
    ys = overlay xs p (slice xs e m)

    len : p + m ≡ p + length (slice xs e m)
    len = omega (arith, length-slice xs e m (omega arith))
