-- ===== src/Buffer/Cursor.antt =====
-- The cursor, the selection and the clipboard of the gap buffer.
-- A function that returns NULL where it has no text returns `none`.

use nv0ken_linux.Prelude.{
  ℕ, zero, suc, ◌+◌, ◌-◌, ◌≤◌, ◌≡◌, refl, arith, Bool, true, false, not, ◌&&◌, List, [], ◌∷◌, ltb,
  leb, ◌==◌, if◌then◌else◌, length, Option, none, some, is_empty,
}
use nv0ken_linux.Prelude.Int.{ℤ, pos, negsuc}
use nv0ken_linux.Word.{add64}
use nv0ken_linux.Buffer.{Buffer, Memory, buf_length, char_at, chars_from, insert, delete}

unfoldable pub cursor_set : Buffer → ℕ → Buffer
cursor_set b p = record b { cursor = if ltb (buf_length b) p then buf_length b else p }

unfoldable pub cursor_move : Buffer → ℤ → Buffer
cursor_move b (negsuc d) = record b {
  cursor = if leb (suc d) b.cursor then b.cursor - suc d else 0;
}
cursor_move b (pos d) = record b {
  cursor = let c = add64 b.cursor d in if ltb (buf_length b) c then buf_length b else c;
}

abbrev space : ℕ
space = b' '

abbrev newline : ℕ
newline = 10

-- The two loops of `buffer_cursor_word_forward`, with `n` characters left from `p` on.
skip_spaces : Buffer → ℕ → ℕ → ℕ
skip_spaces b zero p = p
skip_spaces b (suc n) p =
    let rest = skip_spaces b n (p + 1) in if char_at b p == space then rest else p

skip_word : Buffer → ℕ → ℕ → ℕ
skip_word b zero p = p
skip_word b (suc n) p =
    let rest = skip_word b n (p + 1) in
    if not (char_at b p == space) && not (char_at b p == newline) then rest else p

unfoldable pub cursor_word_forward : Buffer → Buffer
unfolding skip_spaces skip_word
cursor_word_forward b =
    let p = skip_spaces b (buf_length b - b.cursor) b.cursor in
    record b { cursor = skip_word b (buf_length b - p) p }

-- The two loops of `buffer_cursor_word_back`.
back_spaces : Buffer → ℕ → ℕ
back_spaces b zero = 0
back_spaces b (suc p) =
    let rest = back_spaces b p in if char_at b (suc p) == space then rest else suc p

back_word : Buffer → ℕ → ℕ
back_word b zero = 0
back_word b (suc p) =
    let rest = back_word b p in
    if not (char_at b p == space) && not (char_at b p == newline) then rest else suc p

unfoldable pub cursor_word_back : Buffer → Buffer
unfolding back_spaces back_word
cursor_word_back b =
    if b.cursor == 0 then b else record b { cursor = back_word b (back_spaces b (b.cursor - 1)) }

unfoldable pub delete_range : Memory → Buffer → ℕ → ℕ → Bool × Buffer
delete_range mem b start end =
    if leb end start then (false, b) else delete mem b start (end - start)

unfoldable pub delete_char_before : Memory → Buffer → ℕ → Bool × Buffer
delete_char_before mem b p = if p == 0 then (false, b) else delete mem b (p - 1) 1

unfoldable pub delete_char_after : Memory → Buffer → ℕ → Bool × Buffer
delete_char_after mem b p = delete mem b p 1

unfoldable pub mark_set : Buffer → ℕ → Buffer
mark_set b p = record b { mark = p; mark_active = true }

unfoldable pub mark_clear : Buffer → Buffer
mark_clear b = record b { mark_active = false }

unfoldable pub has_selection : Buffer → Bool
has_selection b = b.mark_active && not (b.mark == b.cursor)

unfoldable pub selection_range : Buffer → ℕ × ℕ
selection_range b = if ltb b.cursor b.mark then (b.cursor, b.mark) else (b.mark, b.cursor)

-- `granted` says whether the copy gets its memory.
unfoldable pub selection_text : Bool → Buffer → Option (List ℕ)
selection_text granted b =
    let (start, end) = selection_range b in
    if has_selection b && granted then some (chars_from b start (end - start)) else none

unfoldable pub delete_selection : Memory → Buffer → Bool × Buffer
delete_selection mem b =
    let (start, end) = selection_range b in
    if has_selection b
    then delete mem (record (mark_clear b) { cursor = start }) start (end - start)
    else (false, b)

-- `strlen`: the text stops at its first zero.
pub text_length : List ℕ → ℕ
text_length [] = 0
text_length (c ∷ cs) = let rest = text_length cs in if c == 0 then 0 else rest + 1

-- The text that `buffer_copy` hands out, with the length that it stores.
unfoldable pub copy : Bool → Buffer → Option (List ℕ × ℕ)
unfolding text_length
copy granted b = elim (selection_text granted b) [ none ↦ none | some t ↦ some (t, text_length t) ]

unfoldable pub cut : Bool → Memory → Buffer → Option (List ℕ × ℕ) × Buffer
cut granted mem b = elim (copy granted b) [
  | none ↦ (none, b)
  | some c ↦ (some c, (delete_selection mem b).1)
]

-- `buffer_paste` adds the length to the cursor that `buffer_insert` has already moved.
unfoldable pub paste_at : Memory → List ℕ → Buffer → Bool × Buffer
paste_at mem text c =
    let (done, d) = insert mem c c.cursor text in
    if done then (true, record d { cursor = add64 d.cursor (length text) }) else (false, d)

unfoldable pub paste : Memory → Memory → Buffer → List ℕ → Bool × Buffer
paste mem mem' b text =
    if is_empty text
    then (false, b)
    else paste_at mem' text (if has_selection b then (delete_selection mem b).1 else b)

-- The cursor lies inside the text.
abbrev pub CursorIn : Buffer → Type 0
CursorIn b = b.cursor ≤ buf_length b

skip_spaces-le : (b : Buffer) (n p : ℕ) → (p ≤ skip_spaces b n p) × (skip_spaces b n p ≤ p + n)
unfolding skip_spaces
skip_spaces-le b zero p = omega arith
skip_spaces-le b (suc n) p = ground (arith, skip_spaces-le b n (p + 1))

skip_word-le : (b : Buffer) (n p : ℕ) → (p ≤ skip_word b n p) × (skip_word b n p ≤ p + n)
unfolding skip_word
skip_word-le b zero p = omega arith
skip_word-le b (suc n) p = ground (arith, skip_word-le b n (p + 1))

back_spaces-le : (b : Buffer) (p : ℕ) → back_spaces b p ≤ p
unfolding back_spaces
back_spaces-le b zero = omega arith
back_spaces-le b (suc p) = ground (arith, back_spaces-le b p)

back_word-le : (b : Buffer) (p : ℕ) → back_word b p ≤ p
unfolding back_word
back_word-le b zero = omega arith
back_word-le b (suc p) = ground (arith, back_word-le b p)

module _ (b : Buffer) (inside : CursorIn b) where
  word_forward_bounds :
      (b.cursor ≤ (cursor_word_forward b).cursor) × ((cursor_word_forward b).cursor ≤ buf_length b)
  unfolding cursor_word_forward
  word_forward_bounds =
      let p = skip_spaces b (buf_length b - b.cursor) b.cursor in
      omega (
        arith,
        inside,
        skip_spaces-le b (buf_length b - b.cursor) b.cursor,
        skip_word-le b (buf_length b - p) p,
      )

  word_back_bounds : (cursor_word_back b).cursor ≤ b.cursor
  unfolding cursor_word_back
  word_back_bounds =
      ground (arith, back_spaces-le b (b.cursor - 1), back_word-le b (back_spaces b (b.cursor - 1)))

  length-cursor : (k : ℕ) → buf_length (record b { cursor = k }) ≡ buf_length b
  unfolding buf_length
  length-cursor k = refl

  length-word_forward : buf_length (cursor_word_forward b) ≡ buf_length b
  unfolding cursor_word_forward
  length-word_forward = length-cursor _

  length-word_back : buf_length (cursor_word_back b) ≡ buf_length b
  unfolding cursor_word_back buf_length
  length-word_back = ground arith

-- The cursor movements never leave the text: setting and moving the cursor end inside it wherever
-- they aim, and from inside the text a word movement stays there, forward not before and back not
-- behind where it began.
pub cursor-CursorIn :
    (b : Buffer) (p : ℕ) (delta : ℤ)
    → CursorIn b
    → CursorIn (cursor_set b p)
      × CursorIn (cursor_move b delta)
      × CursorIn (cursor_word_forward b)
      × (b.cursor ≤ (cursor_word_forward b).cursor)
      × CursorIn (cursor_word_back b)
      × ((cursor_word_back b).cursor ≤ b.cursor)
cursor-CursorIn b p delta h = (
  set_in,
  move_in delta,
  omega (arith, word_forward_bounds b h, length-word_forward b h),
  omega (arith, word_forward_bounds b h),
  omega (arith, word_back_bounds b h, length-word_back b h),
  word_back_bounds b h,
)
  where
    set_in : CursorIn (cursor_set b p)
    set_in = unfold cursor_set buf_length in ground arith

    move_in : (d : ℤ) → CursorIn (cursor_move b d)
    move_in (pos d) = unfold cursor_move buf_length in ground arith
    move_in (negsuc d) = unfold cursor_move buf_length in ground arith
