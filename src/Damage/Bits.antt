-- ===== src/Damage/Bits.antt =====
-- Truth values, for the tests of graphics/server/damage.c.
use nv0ken_linux.Prelude.{◌≡◌, refl, arith, Bool, true, false, not, ◌&&◌, ◌||◌}

pub or_first : (a b c d : Bool) → (a && b || c && d) ≡ true → (a || c) ≡ true
or_first a b c d h = ground arith

pub or_second : (a b c d : Bool) → (a && b || c && d) ≡ true → (b || d) ≡ true
or_second a b c d h = ground arith

pub and_true : (u v : Bool) → u ≡ true → v ≡ true → (u && v) ≡ true
and_true u v e f = ground arith

pub and_parts : (u v : Bool) → (u && v) ≡ true → (u ≡ true) × (v ≡ true)
and_parts u v e = (ground arith, ground arith)

pub or_swap : (a b c : Bool) → (a || (b || c)) ≡ (b || (a || c))
or_swap a b c = ground arith

pub or_cases :
    (r e rs u : Bool) → ((e || r) ≡ true → u ≡ true) → (r || (e || rs)) ≡ true → (u || rs) ≡ true
or_cases r e rs true k h = refl
or_cases true true rs false k h = absurd (cc (k refl))
or_cases true false rs false k h = absurd (cc (k refl))
or_cases false true rs false k h = absurd (cc (k refl))
or_cases false false rs false k h = h

pub or_later :
    (r e rs qs : Bool) → ((r || rs) ≡ true → qs ≡ true) → (r || (e || rs)) ≡ true → (e || qs) ≡ true
or_later r true rs qs k h = refl
or_later r false rs qs k h = k h

pub or_right : (a b : Bool) → b ≡ true → (a || b) ≡ true
or_right a b h = ground (arith, h)

pub idle_bits :
    (r full any w h c : Bool)
    → (r ≡ true → (w && h && c) ≡ true)
    → (r || (full || any)) ≡ true
    → (full || not w || not h) ≡ true
    → (full || any) ≡ true
idle_bits r true any w h c k e t = refl
idle_bits false false any w h c k e t = e
idle_bits true false any w h c k e t = let i = k refl in ground (arith, i, t)

pub covered_bits :
    (r full any w h c : Bool)
    → (r ≡ true → (w && h && c) ≡ true)
    → (r || (full || any)) ≡ true
    → (full || not w || not h) ≡ false
    → (c || any) ≡ true
covered_bits r true any w h c k e t = absurd cc
covered_bits false false any w h c k e t = or_right c any e
covered_bits true false any w h c k e t = let i = k refl in ground (arith, i)

pub or_next :
    (r rs d e : Bool) → ((r || d) ≡ true → e ≡ true) → ((r || rs) || d) ≡ true → (rs || e) ≡ true
or_next r true d e k h = refl
or_next true false d e k h = k refl
or_next false false d e k h = k h
