-- ===== src/Arp/Laws.antt =====
-- kernel/net/arp.c: what is looked up after an address was learned.
use nv0ken_linux.Prelude.{
  ℕ, zero, suc, ◌^◌, ◌<◌, ◌≡◌, ◌≢◌, refl, sym, ap, ◌∙◌, arith, Bool, true, false, not, ◌||◌, List,
  [], ◌∷◌, ◌==◌, if◌then◌else◌, set, Option, none, some, Bool-cases, Option-cases, inl, inr, eq→==,
}
use nv0ken_linux.Arp.{Entry, is_for, slot_for, learn, lookup, number_at, request_packet, receive}

abbrev entry : ℕ → List ℕ → Entry
entry ipv4 mac = record { ipv4 = ipv4; mac = mac; valid = true }

lookup-here :
    (a : ℕ) (e : Entry) (table : List Entry) → is_for a e ≡ true → lookup a (e ∷ table) ≡ some e.mac
unfolding lookup
lookup-here a e table h = ap (λ (b : Bool). if b then some e.mac else lookup a table) h

lookup-on :
    (a : ℕ) (e : Entry) (table : List Entry)
    → is_for a e ≡ false
    → lookup a (e ∷ table) ≡ lookup a table
unfolding lookup
lookup-on a e table h = ap (λ (b : Bool). if b then some e.mac else lookup a table) h

abbrev one_on : Option ℕ → Option ℕ
one_on o = elim o [ none ↦ none | some i ↦ some (suc i) ]

slot_on :
    (a : ℕ) (e : Entry) (table : List Entry)
    → (is_for a e || not e.valid) ≡ false
    → slot_for a (e ∷ table) ≡ one_on (slot_for a table)
unfolding slot_for
slot_on a e table h = ap (λ (b : Bool). if b then some 0 else one_on (slot_for a table)) h

is_for-entry : (a : ℕ) (mac : List ℕ) → is_for a (entry a mac) ≡ true
is_for-entry a mac = eq→== a a refl

slot_first :
    (a : ℕ) (e : Entry) (table : List Entry)
    → slot_for a (e ∷ table) ≡ some 0
    → (is_for a e || not e.valid) ≡ true
unfolding slot_for
slot_first a e table h = elim (Bool-cases (is_for a e || not e.valid)) [
  | inl c ↦ c
  | inr c ↦ absurd (never (slot_for a table) (sym (slot_on a e table c) ∙ h))
]
  where
    never : (o : Option ℕ) → one_on o ≡ some 0 → ⊥
    never none k = cc
    never (some i) k = impossible (cc k)
      where
        impossible : suc i ≡ 0 → ⊥
        impossible q = omega arith

-- The slot of an address and what is found after writing there.
slot_for-lookup :
    (a : ℕ) (mac : List ℕ) (table : List Entry) (i : ℕ)
    → slot_for a table ≡ some i
    → (b : ℕ) → lookup b (set table i (entry a mac)) ≡ (if a == b then some mac else lookup b table)
unfolding slot_for
slot_for-lookup a mac [] i h b = absurd cc
slot_for-lookup a mac (e ∷ table) zero h b = elim (Bool-cases (a == b)) [
  | inl s ↦
      lookup-here b (entry a mac) table s
      ∙ ap (λ (t : Bool). if t then some mac else lookup b (e ∷ table)) (sym s)
  | inr s ↦
      lookup-on b (entry a mac) table s
      ∙ sym (lookup-on b e table (other s (slot_first a e table h)))
      ∙ ap (λ (t : Bool). if t then some mac else lookup b (e ∷ table)) (sym s)
]
  where
    other : (a == b) ≡ false → (is_for a e || not e.valid) ≡ true → is_for b e ≡ false
    other s t = ground arith
slot_for-lookup a mac (e ∷ table) (suc i) h b = elim (Bool-cases (is_for a e || not e.valid)) [
  | inl c ↦
      absurd
        (zero_slot (sym (ap (λ (b : Bool). if b then some 0 else one_on (slot_for a table)) c) ∙ h))
  | inr c ↦ elim (Bool-cases (is_for b e)) [
    | inl k ↦
        lookup-here b e (set table i (entry a mac)) k
        ∙ sym (lookup-here b e table k)
        ∙ ap (λ (t : Bool). if t then some mac else lookup b (e ∷ table)) (sym (differ c k))
    | inr k ↦
        lookup-on b e (set table i (entry a mac)) k
        ∙ slot_for-lookup a mac table i (back (slot_for a table) (sym (slot_on a e table c) ∙ h)) b
        ∙ ap (λ (o : Option (List ℕ)). if a == b then some mac else o) (sym (lookup-on b e table k))
  ]
]
  where
    differ : (is_for a e || not e.valid) ≡ false → is_for b e ≡ true → (a == b) ≡ false
    differ c k = ground arith

    zero_slot : ◌≡◌ {A = Option ℕ} (some 0) (some (suc i)) → ⊥
    zero_slot q = cc

    back : (o : Option ℕ) → one_on o ≡ some (suc i) → o ≡ some i
    back none k = absurd cc
    back (some j) k = ap some (before (cc k))
      where
        before : suc j ≡ suc i → j ≡ i
        before q = omega arith

-- After `arp_learn` with a table that has a place for the address, its own or one not in use,
-- `arp_lookup` finds what was learned, and for every other address what it found before.
pub lookup-learn :
    (a : ℕ) (mac : List ℕ) (table : List Entry)
    → slot_for a table ≢ none
    → (b : ℕ) → lookup b (learn a mac table) ≡ (if a == b then some mac else lookup b table)
unfolding learn
lookup-learn a mac table n b = elim (Option-cases (slot_for a table)) [
  | inl e ↦ absurd (n e)
  | inr (i, e) ↦
      ap (λ (o : Option ℕ). lookup b (set table (elim o [ none ↦ 0 | some j ↦ j ]) (entry a mac))) e
      ∙ slot_for-lookup a mac table i e b
]

-- Also a full table takes the address in, in its first slot.
lookup-learn_self :
    (a : ℕ) (mac : List ℕ) (e : Entry) (table : List Entry)
    → lookup a (learn a mac (e ∷ table)) ≡ some mac
unfolding learn
lookup-learn_self a mac e table = elim (Option-cases (slot_for a (e ∷ table))) [
  | inl none_left ↦
      ap
        (λ (o : Option ℕ).
          lookup a (set (e ∷ table) (elim o [ none ↦ 0 | some j ↦ j ]) (entry a mac)))
        none_left
      ∙ lookup-here a (entry a mac) table (eq→== a a refl)
  | inr (i, k) ↦
      ap
        (λ (o : Option ℕ).
          lookup a (set (e ∷ table) (elim o [ none ↦ 0 | some j ↦ j ]) (entry a mac)))
        k
      ∙ slot_for-lookup a mac (e ∷ table) i k a
      ∙ rw (eq→== a a refl) refl
]

-- A host that receives the request of another finds the sender's hardware address under the sender's
-- IPv4 address afterwards, also when its table was full.
pub receive-request_packet :
    (b0 b1 b2 b3 b4 b5 ipv4 target : ℕ) (e : Entry) (table : List Entry)
    → ipv4 < 2 ^ 32
    → lookup ipv4
        (receive (request_packet (b0 ∷ b1 ∷ b2 ∷ b3 ∷ b4 ∷ b5 ∷ []) ipv4 target) (e ∷ table))
      ≡ some (b0 ∷ b1 ∷ b2 ∷ b3 ∷ b4 ∷ b5 ∷ [])
unfolding receive request_packet
receive-request_packet b0 b1 b2 b3 b4 b5 ipv4 target e table h =
    ap (λ (a : ℕ). lookup ipv4 (learn a mac (e ∷ table))) sender
    ∙ lookup-learn_self ipv4 mac e table
  where
    mac : List ℕ
    mac = b0 ∷ b1 ∷ b2 ∷ b3 ∷ b4 ∷ b5 ∷ []

    sender : number_at 14 (request_packet mac ipv4 target) ≡ ipv4
    sender = omega arith
