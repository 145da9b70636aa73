-- ===== src/Numbers/RoundTrip.antt =====
-- What is printed is read back.
use native.Mathlib.Omega.{div_any, mod_fact}
use nv0ken_linux.Prelude.{
  ℕ, zero, suc, ◌+◌, ◌-◌, ◌*◌, ◌/◌, ◌%◌, ◌^◌, ◌≤◌, ◌<◌, ◌≡◌, refl, ap, ◌∙◌, arith, Bool, true,
  false, List, [], ◌∷◌, ltb, leb, ◌==◌, if◌then◌else◌, length, get_or, Option, none, some,
  Bool-cases, inl, inr, all_below, all_below_sound, lt→ltb,
}
use nv0ken_linux.Word.{add64, mul64}
use nv0ken_linux.Word.Bits.{two-pow-suc}
use nv0ken_linux.Printf.{digit, digits_of, emit_unsigned}
use nv0ken_linux.Numbers.{digit_value, is_space, is_x, skip_space, prefix, digits_from, strtoul}

-- A character that is a digit in base 16.
abbrev good : ℕ → Bool
good c = elim (digit_value c) [ none ↦ false | some d ↦ ltb d 16 ]

abbrev AllGood : List ℕ → Type 0
AllGood [] = Unit
AllGood (c ∷ cs) = (good c ≡ true) × AllGood cs

good-is_space : (c : ℕ) → good c ≡ true → is_space c ≡ false
unfolding digit_value
good-is_space c h = ground arith

good-is_x : (c : ℕ) → good c ≡ true → is_x c ≡ false
unfolding digit_value
good-is_x c h = ground arith

reads_digit : Bool → ℕ → Bool
reads_digit u d = elim (digit_value (digit u d)) [ none ↦ false | some e ↦ e == d ]

table : (u : Bool) → all_below 16 (reads_digit u) ≡ true
unfolding reads_digit digit_value all_below
table true = refl
table false = refl

digit_value-digit : (u : Bool) (d : ℕ) → d < 16 → digit_value (digit u d) ≡ some d
unfolding reads_digit
digit_value-digit u d h =
    go (digit_value (digit u d)) (all_below_sound 16 (reads_digit u) d (table u) h)
  where
    go :
        (o : Option ℕ)
        → elim o as (λ x. Bool) [ none ↦ false | some e ↦ e == d ] ≡ true
        → o ≡ some d
    go none e = absurd (cc)
    go (some x) e = ap some (ground arith)

good-digit : (u : Bool) (d : ℕ) → d < 16 → good (digit u d) ≡ true
good-digit u d h =
    ap (λ o. elim o as (λ x. Bool) [ none ↦ false | some e ↦ ltb e 16 ]) (digit_value-digit u d h)
    ∙ lt→ltb d 16 h

read_digit :
    (base value d c : ℕ) (cs : List ℕ)
    → digit_value c ≡ some d
    → d < base
    → digits_from base value (c ∷ cs) ≡ digits_from base (add64 (mul64 value base) d) cs
unfolding digits_from
read_digit base value d c cs e h =
    ap
      (λ o. elim o as (λ x. ℕ × List ℕ) [
        | none ↦ (value, c ∷ cs)
        | some x ↦
            if leb base x then (value, c ∷ cs) else digits_from base (add64 (mul64 value base) x) cs
      ])
      e
    ∙ ap
        (λ (b : Bool).
          if b then (value, c ∷ cs) else digits_from base (add64 (mul64 value base) d) cs)
        below
  where
    below : leb base d ≡ false
    below = ground arith

-- A base from 2 to 16.
module _ (u : Bool) (k : ℕ) (small : k < 15) where
  abbrev base : ℕ
  base = suc (suc k)

  rejoined : (v : ℕ) → v < 2 ^ 64 → add64 (mul64 (v / base) base) (v % base) ≡ v
  rejoined v h = omega (arith, whole (v / base) (v % base) (div_any v base))
    where
      whole : (q r : ℕ) → base * q + r ≡ v → (q * base ≡ v - r) × (r ≤ v)
      whole q r e = omega (arith, e)

  halved : (v n : ℕ) → v < 2 ^ suc n → v / base < 2 ^ n
  halved v n h = omega (arith, go (v / base) (v % base) (div_any v base), two-pow-suc n)
    where
      go : (q r : ℕ) → base * q + r ≡ v → 2 * q ≤ v
      go q r e = grind (arith, e)

  -- Reading what the loop printed goes on from the value.
  read-digits_of :
      (fuel v : ℕ) (out : List ℕ)
      → v < 2 ^ fuel
      → v < 2 ^ 64
      → digits_from base 0 (digits_of fuel v base u out) ≡ digits_from base v out
  unfolding digits_of
  read-digits_of zero v out h w = ap (λ n. digits_from base n out) (omega arith)
  read-digits_of (suc fuel) v out h w = elim (Bool-cases (ltb 0 v)) [
    | inl e ↦ rw e (
        read-digits_of fuel (v / base) (digit u (v % base) ∷ out) (halved v fuel h)
          (omega (arith, smaller (v / base) (v % base) (div_any v base)))
        ∙ read_digit base (v / base) (v % base) (digit u (v % base)) out
            (digit_value-digit u (v % base) (omega (arith, mod_fact v (suc k))))
            (mod_fact v (suc k))
        ∙ ap (λ n. digits_from base n out) (rejoined v w))
    | inr e ↦ rw e (ap (λ n. digits_from base n out) (ground arith))
  ]
    where
      smaller : (q r : ℕ) → base * q + r ≡ v → q ≤ v
      smaller q r e = grind (arith, e)

  good-digits_of : (fuel v : ℕ) (out : List ℕ) → AllGood out → AllGood (digits_of fuel v base u out)
  unfolding digits_of
  good-digits_of zero v out g = g
  good-digits_of (suc fuel) v out g = elim (Bool-cases (ltb 0 v)) [
    | inl e ↦ rw e (
        good-digits_of fuel (v / base) (digit u (v % base) ∷ out)
          (good-digit u (v % base) (omega (arith, mod_fact v (suc k))), g))
    | inr e ↦ rw e g
  ]

  good-emit : (v : ℕ) → AllGood (emit_unsigned v base u)
  unfolding emit_unsigned
  good-emit v = elim (Bool-cases (v == 0)) [
    | inl e ↦ rw e (good-digit u 0 (omega arith), tt)
    | inr e ↦ rw e (good-digits_of 64 v [] tt)
  ]

  read-emit : (v : ℕ) → v < 2 ^ 64 → digits_from base 0 (emit_unsigned v base u) ≡ (v, [])
  unfolding emit_unsigned
  read-emit v w = elim (Bool-cases (v == 0)) [
    | inl e ↦ rw e (
        read_digit base 0 0 (digit u 0) [] (digit_value-digit u 0 (omega arith)) (omega arith)
        ∙ (unfold digits_from in ap (λ n. (n, [])) (ground arith)))
    | inr e ↦ rw e (read-digits_of 64 v [] w w ∙ (unfold digits_from in refl))
  ]

AllGood-skip_space : (cs : List ℕ) → AllGood cs → skip_space cs ≡ cs
unfolding skip_space
AllGood-skip_space [] g = refl
AllGood-skip_space (c ∷ cs) g = rw (good-is_space c g.0) refl

AllGood-prefix : (base : ℕ) (cs : List ℕ) → 0 < base → AllGood cs → prefix base cs ≡ (base, cs)
unfolding prefix
AllGood-prefix base cs h g = ground (arith, unmarked cs g)
  where
    unmarked : (xs : List ℕ) → AllGood xs → is_x (get_or xs 1 0) ≡ false
    unmarked [] a = refl
    unmarked (x ∷ []) a = refl
    unmarked (x ∷ y ∷ xs) a = good-is_x y a.1.0

-- A number below 2^64 that `kprintf` prints in a base from 4 to 16 is read back by `strtoul` in that
-- base, to the end of the text.
pub strtoul-emit_unsigned :
    (v base : ℕ) (uppercase : Bool)
    → v < 2 ^ 64
    → 4 ≤ base
    → base ≤ 16
    → strtoul (emit_unsigned v base uppercase) base ≡ (v, [])
strtoul-emit_unsigned v zero u w low high = absurd (omega arith)
strtoul-emit_unsigned v (suc zero) u w low high = absurd (omega arith)
strtoul-emit_unsigned v (suc (suc k)) u w low high =
    go (emit_unsigned v (suc (suc k)) u) (good-emit u k (omega arith) v)
      (read-emit u k (omega arith) v w)
  where
    go :
        (cs : List ℕ)
        → AllGood cs
        → digits_from (suc (suc k)) 0 cs ≡ (v, [])
        → strtoul cs (suc (suc k)) ≡ (v, [])
    go cs g e =
        unfold strtoul in
        (ap (λ p. finish (prefix (suc (suc k)) p)) (AllGood-skip_space cs g)
          ∙ ap finish (AllGood-prefix (suc (suc k)) cs (omega arith) g)
          ∙ ap (λ (r : ℕ × List ℕ). (r.0, if length r.1 == length cs then cs else r.1)) e
          ∙ ap (λ t. (v, t)) (rest cs))
      where
        finish : ℕ × List ℕ → ℕ × List ℕ
        finish (b, p) = (
          (digits_from b 0 p).0,
          if length (digits_from b 0 p).1 == length p then cs else (digits_from b 0 p).1,
        )

        rest : (xs : List ℕ) → (if 0 == length xs then xs else []) ≡ []
        rest [] = refl
        rest (x ∷ xs) = ground arith
