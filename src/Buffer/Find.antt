-- ===== src/Buffer/Find.antt =====
-- Searching the text.
use native.Mathlib.Decide.{dec_le}
use nv0ken_linux.Prelude.{
  ℕ, zero, suc, ◌+◌, ◌^◌, ◌≤◌, ◌<◌, ◌≡◌, refl, sym, ap, ◌∙◌, arith, Bool, true, false, ◌&&◌, List,
  [], ◌∷◌, ltb, leb, ◌==◌, if◌then◌else◌, length, Option, none, some, is_empty, slice, inl, inr,
  ◌⊎◌, map, slice-suc, Bool-cases,
}
use nv0ken_linux.Word.{add64}
use nv0ken_linux.Buffer.{Buffer, IsValid, content, buf_length, char_at}
use nv0ken_linux.Buffer.Gap.{length-content}
use nv0ken_linux.Buffer.Read.{char_at_lem}

-- An ASCII capital in lower case, unless the case counts.
unfoldable pub fold : Bool → ℕ → ℕ
fold true c = c
fold false c = if leb b'A' c && leb c b'Z' then c + 32 else c

-- The inner loop: the needle stands at position `i`.
unfoldable pub matches : Buffer → Bool → ℕ → List ℕ → Bool
matches b cased i [] = true
matches b cased i (c ∷ cs) =
    let rest = matches b cased (add64 i 1) cs in
    if fold cased (char_at b i) == fold cased c then rest else false

-- The outer loop of `buffer_find`, on fuel: one round for each position and one for the last test.
unfoldable pub find_from : ℕ → Buffer → Bool → ℕ → List ℕ → Option ℕ
find_from zero b cased i needle = none
find_from (suc fuel) b cased i needle =
    let rest = find_from fuel b cased (add64 i 1) needle in
    if leb (add64 i (length needle)) (buf_length b)
    then if matches b cased i needle then some i else rest
    else none

unfoldable pub find : Buffer → ℕ → List ℕ → Bool → Option ℕ
unfolding find_from matches
find b from needle cased =
    if is_empty needle
    then none
    else if ltb (buf_length b) (add64 from (length needle))
    then none
    else find_from (buf_length b + 1) b cased from needle

-- The needle stands in the text at `i`, up to the case where that does not count.
abbrev pub Occurs : Buffer → Bool → ℕ → List ℕ → Type 0
Occurs b cased i needle =
    map (fold cased) (slice (content b) i (length needle)) ≡ map (fold cased) needle

-- The text from `i` on, one character at a time.
slice_step :
    (b : Buffer) (i n : ℕ)
    → IsValid b
    → i < buf_length b
    → slice (content b) i (suc n) ≡ char_at b i ∷ slice (content b) (i + 1) n
slice_step b i n v h =
    slice-suc (content b) i n 0 (omega (arith, length-content v))
    ∙ ap (λ c. c ∷ slice (content b) (i + 1) n) (sym (char_at_lem i v))

pub length-below : {b : Buffer} → IsValid b → buf_length b < 2 ^ 63
unfolding buf_length
length-below v = omega arith

next_at : {b : Buffer} (i : ℕ) → IsValid b → i < buf_length b → add64 i 1 ≡ i + 1
next_at i v h = omega (arith, length-below v)

head_of : List ℕ → ℕ
head_of [] = 0
head_of (c ∷ cs) = c

tail_of : List ℕ → List ℕ
tail_of [] = []
tail_of (c ∷ cs) = cs

module _ (b : Buffer) (cased : Bool) (v : IsValid b) where
  matches-Occurs :
      (i : ℕ) (needle : List ℕ)
      → i + length needle ≤ buf_length b
      → matches b cased i needle ≡ true
      → Occurs b cased i needle
  unfolding matches
  matches-Occurs i [] h e = refl
  matches-Occurs i (c ∷ cs) h e =
      ap (map (fold cased)) (slice_step b i (length cs) v (omega arith))
      ∙ ap (λ t. t ∷ map (fold cased) (slice (content b) (i + 1) (length cs))) same
      ∙ ap (λ t. fold cased c ∷ t) (matches-Occurs (i + 1) cs (omega arith) more)
    where
      same : fold cased (char_at b i) ≡ fold cased c
      same = ground arith

      tail : matches b cased (add64 i 1) cs ≡ true
      tail = ground arith

      more : matches b cased (i + 1) cs ≡ true
      more = ap (λ k. matches b cased k cs) (sym (next_at i v (omega arith))) ∙ tail

  Occurs-matches :
      (i : ℕ) (needle : List ℕ)
      → i + length needle ≤ buf_length b
      → Occurs b cased i needle
      → matches b cased i needle ≡ true
  unfolding matches
  Occurs-matches i [] h e = refl
  Occurs-matches i (c ∷ cs) h e =
      ground (arith, same, tail (Occurs-matches (i + 1) cs (omega arith) more))
    where
      split :
          fold cased (char_at b i) ∷ map (fold cased) (slice (content b) (i + 1) (length cs))
          ≡ fold cased c ∷ map (fold cased) cs
      split = sym (ap (map (fold cased)) (slice_step b i (length cs) v (omega arith))) ∙ e

      same : fold cased (char_at b i) ≡ fold cased c
      same = unfold head_of in ap head_of split

      more : Occurs b cased (i + 1) cs
      more = unfold tail_of in ap tail_of split

      tail : matches b cased (i + 1) cs ≡ true → matches b cased (add64 i 1) cs ≡ true
      tail later = ap (λ k. matches b cased k cs) (next_at i v (omega arith)) ∙ later

  module _ (needle : List ℕ) (k : ℕ) where
    find_from-some :
        (fuel i : ℕ) {r : ℕ}
        → i + length needle ≤ 2 ^ 63
        → buf_length b < 2 ^ 63
        → find_from fuel b cased i needle ≡ some r
        → (i ≤ r)
          × (r + length needle ≤ buf_length b)
          × (matches b cased r needle ≡ true)
          × ((k < i) ⊎ (r ≤ k) ⊎ (matches b cased k needle ≡ false))
    unfolding find_from
    find_from-some zero i h small e = absurd (ground arith)
    find_from-some (suc fuel) i {r} h small e = elim (Bool-cases (matches b cased i needle)) [
      | inl hit ↦ ground arith
      | inr miss ↦ ground (
        arith,
        find_from-some fuel (i + 1) {r = r},
        ap (λ t. find_from fuel b cased t needle) next,
      )
    ]
      where
        next : add64 i 1 ≡ i + 1
        next = omega arith

    find_from-none :
        (fuel i : ℕ)
        → i + length needle ≤ 2 ^ 63
        → buf_length b < 2 ^ 63
        → buf_length b < fuel + i
        → find_from fuel b cased i needle ≡ none
        → i ≤ k
        → k + length needle ≤ buf_length b
        → matches b cased k needle ≡ false
    unfolding find_from
    find_from-none zero i h small enough e low high = absurd (omega arith)
    find_from-none (suc fuel) i h small enough e low high =
        elim (Bool-cases (matches b cased i needle)) [
          | inl hit ↦ absurd (ground arith)
          | inr miss ↦
              ground
                (arith, find_from-none fuel (i + 1), ap (λ t. find_from fuel b cased t needle) next)
        ]
      where
        next : add64 i 1 ≡ i + 1
        next = omega arith

found :
    (b : Buffer) (from : ℕ) (needle : List ℕ) (cased : Bool)
    → 0 < length needle
    → from + length needle ≤ buf_length b
    → buf_length b < 2 ^ 63
    → find b from needle cased ≡ find_from (buf_length b + 1) b cased from needle
unfolding find
found b from [] cased h fits small = absurd (omega arith)
found b from (c ∷ cs) cased h fits small = ground arith

refused :
    (b : Buffer) (from : ℕ) (needle : List ℕ) (cased : Bool)
    → (needle ≡ []) ⊎ (buf_length b < from + length needle)
    → from + length needle < 2 ^ 64
    → find b from needle cased ≡ none
unfolding find
refused b from [] cased h small = refl
refused b from (c ∷ cs) cased (inl e) small = absurd (cc)
refused b from (c ∷ cs) cased (inr h) small = ground arith

-- What `buffer_find` returns is the first place, at or behind where it starts, at which the needle
-- stands in the text, up to the case where that does not count.
pub find-some :
    {b : Buffer} (from k : ℕ) (needle : List ℕ) (cased : Bool) {r : ℕ}
    → IsValid b
    → from + length needle < 2 ^ 64
    → find b from needle cased ≡ some r
    → (from ≤ r)
      × (r + length needle ≤ buf_length b)
      × Occurs b cased r needle
      × ((k < from) ⊎ (r ≤ k) ⊎ (buf_length b < k + length needle) ⊎ ¬ Occurs b cased k needle)
find-some {b} from k [] cased {r} v fits e = absurd (cc (refused b from [] cased (inl refl) fits))
find-some {b} from k (c ∷ cs) cased {r} v fits e =
    elim (dec_le (from + length (c ∷ cs)) (buf_length b)) [
      | yes inside ↦ in_range inside
      | no outside ↦ absurd (cc (refused b from (c ∷ cs) cased (inr (omega arith)) fits))
    ]
  where
    in_range :
        from + length (c ∷ cs) ≤ buf_length b
        → (from ≤ r)
          × (r + length (c ∷ cs) ≤ buf_length b)
          × Occurs b cased r (c ∷ cs)
          × ((k < from)
              ⊎ (r ≤ k)
              ⊎ (buf_length b < k + length (c ∷ cs))
              ⊎ ¬ Occurs b cased k (c ∷ cs))
    in_range inside =
        let (low, high, hit, first) =
          find_from-some b cased v (c ∷ cs) k (buf_length b + 1) from
            (omega (arith, length-below v)) (length-below v)
            (sym (found b from (c ∷ cs) cased (omega arith) inside (length-below v)) ∙ e) in
        (
          low,
          high,
          matches-Occurs b cased v r (c ∷ cs) high hit,
          elim (dec_le (k + length (c ∷ cs)) (buf_length b)) [
            | yes fits_k ↦ elim first [
              | inl before ↦ inl before
              | inr (inl after) ↦ inr (inl after)
              | inr (inr miss) ↦
                  inr (inr (inr (λ o. absurd (cc (Occurs-matches b cased v k (c ∷ cs) fits_k o)))))
            ]
            | no out ↦ inr (inr (inl (omega arith)))
          ],
        )

-- When `buffer_find` returns none for a needle that is not empty, the needle stands nowhere at or
-- behind where it starts.
pub find-none :
    {b : Buffer} (from k : ℕ) (needle : List ℕ) (cased : Bool)
    → IsValid b
    → 0 < length needle
    → find b from needle cased ≡ none
    → from ≤ k
    → k + length needle ≤ buf_length b
    → ¬ Occurs b cased k needle
find-none {b} from k needle cased v h e low high o = cc (
  Occurs-matches b cased v k needle high o,
  find_from-none b cased v needle k (buf_length b + 1) from (omega (arith, length-below v))
      (length-below v) (omega arith)
      (sym (found b from needle cased h (omega arith) (length-below v)) ∙ e) low high,
)
