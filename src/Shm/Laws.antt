-- ===== src/Shm/Laws.antt =====
-- kernel/ipc/shm.c: the segments by their names, and the counts of their users.
use nv0ken_linux.Prelude.{
  ℕ, zero, suc, ◌+◌, ◌-◌, ◌%◌, ◌^◌, ◌≤◌, ◌<◌, ◌≡◌, ◌≢◌, refl, sym, ap, ◌∙◌, arith, Bool, true,
  false, not, ◌&&◌, ◌||◌, List, [], ◌∷◌, ◌==◌, if◌then◌else◌, length, get_or, set, take, take_all,
  get_or-set_self, Option, none, some, Bool-cases, inl, inr, ne→==,
}
use nv0ken_linux.Shm.{
  Segment, Table, cleared, same_name, one_on, find, free_slot, segment, change, counted, create,
  attach, detach,
}

same_name-eq : (cs ds : List ℕ) → same_name cs ds ≡ true → cs ≡ ds
unfolding same_name
same_name-eq [] [] h = refl
same_name-eq [] (d ∷ ds) h = absurd cc
same_name-eq (c ∷ cs) [] h = absurd cc
same_name-eq (c ∷ cs) (d ∷ ds) h = joined (ground arith) (same_name-eq cs ds (ground arith))
  where
    joined : c ≡ d → cs ≡ ds → c ∷ cs ≡ d ∷ ds
    joined e f = cc

abbrev matches : Segment → List ℕ → Bool
matches g name = not (g.id == 0) && same_name g.name name

find-here :
    (h : Segment) (hs : List Segment) (q : List ℕ) → matches h q ≡ true → find (h ∷ hs) q ≡ some 0
unfolding find
find-here h hs q m = ap (λ (b : Bool). if b then some 0 else one_on (find hs q)) m

find-on :
    (h : Segment) (hs : List Segment) (q : List ℕ)
    → matches h q ≡ false
    → find (h ∷ hs) q ≡ one_on (find hs q)
unfolding find
find-on h hs q m = ap (λ (b : Bool). if b then some 0 else one_on (find hs q)) m

slot_here : (h : Segment) (hs : List Segment) → (h.id == 0) ≡ true → free_slot (h ∷ hs) ≡ some 0
unfolding free_slot
slot_here h hs z = ap (λ (b : Bool). if not b then one_on (free_slot hs) else some 0) z

slot_on :
    (h : Segment) (hs : List Segment)
    → (h.id == 0) ≡ false
    → free_slot (h ∷ hs) ≡ one_on (free_slot hs)
unfolding free_slot
slot_on h hs z = ap (λ (b : Bool). if not b then one_on (free_slot hs) else some 0) z

one_on-suc : (o : Option ℕ) (i : ℕ) → one_on o ≡ some (suc i) → o ≡ some i
one_on-suc none i h = absurd cc
one_on-suc (some j) i h = ap some (before (cc h))
  where
    before : suc j ≡ suc i → j ≡ i
    before e = omega arith

one_on-zero : (o : Option ℕ) → one_on o ≡ some 0 → ⊥
one_on-zero none h = cc
one_on-zero (some j) h = never (cc h)
  where
    never : suc j ≡ 0 → ⊥
    never e = omega arith

one_on-none : (o : Option ℕ) → one_on o ≡ none → o ≡ none
one_on-none none h = refl
one_on-none (some j) h = absurd cc

-- A segment that is put into the first free place.
find-set :
    (gs : List Segment) (i : ℕ) (g : Segment) (q : List ℕ)
    → free_slot gs ≡ some i
    → (matches g q ≡ true → find gs q ≡ none)
    → find (set gs i g) q ≡ (if matches g q then some i else find gs q)
unfolding free_slot
find-set [] i g q e n = absurd cc
find-set (h ∷ hs) zero g q e n = elim (Bool-cases (h.id == 0)) [
  | inl z ↦ elim (Bool-cases (matches g q)) [
    | inl m ↦ find-here g hs q m ∙ ap (λ (b : Bool). if b then some 0 else find (h ∷ hs) q) (sym m)
    | inr m ↦
        find-on g hs q m
        ∙ sym (find-on h hs q (idle z))
        ∙ ap (λ (b : Bool). if b then some 0 else find (h ∷ hs) q) (sym m)
  ]
  | inr z ↦ absurd (one_on-zero (free_slot hs) (sym (slot_on h hs z) ∙ e))
]
  where
    idle : (h.id == 0) ≡ true → matches h q ≡ false
    idle z = ground arith
find-set (h ∷ hs) (suc i) g q e n = elim (Bool-cases (h.id == 0)) [
  | inl z ↦ absurd (first (sym (slot_here h hs z) ∙ e))
  | inr z ↦ elim (Bool-cases (matches h q)) [
    | inl m ↦ elim (Bool-cases (matches g q)) [
      | inl k ↦ absurd (cc (sym (find-here h hs q m) ∙ n k))
      | inr k ↦
          find-here h (set hs i g) q m
          ∙ sym (find-here h hs q m)
          ∙ ap (λ (b : Bool). if b then some (suc i) else find (h ∷ hs) q) (sym k)
    ]
    | inr m ↦
        find-on h (set hs i g) q m
        ∙ ap one_on (
            find-set hs i g q (one_on-suc (free_slot hs) i (sym (slot_on h hs z) ∙ e))
              (λ k. one_on-none (find hs q) (sym (find-on h hs q m) ∙ n k)))
        ∙ moved (matches g q)
        ∙ ap (λ (o : Option ℕ). if matches g q then some (suc i) else o) (sym (find-on h hs q m))
  ]
]
  where
    first : ◌≡◌ {A = Option ℕ} (some 0) (some (suc i)) → ⊥
    first f = cc

    moved :
        (b : Bool)
        → one_on (if b then some i else find hs q)
          ≡ (if b then some (suc i) else one_on (find hs q))
    moved true = refl
    moved false = refl

set-back : {A : Type 0} (xs : List A) (i : ℕ) (a d : A) → set (set xs i a) i (get_or xs i d) ≡ xs
set-back [] i a d = refl
set-back (x ∷ xs) zero a d = refl
set-back {A = A} (x ∷ xs) (suc i) a d = ap (λ (l : List A). x ∷ l) (set-back xs i a d)

-- A new segment of a size above 0, under a name of at most 31 bytes that no segment has, where a
-- place is free, memory is given and `next_id`, which numbers the segments, is not 0: `shm_create` returns its place, and afterwards `shm_find` returns that place for
-- this name, and for every other name what it returned before.
pub create-find :
    (name : List ℕ) (size p : ℕ) (t : Table) (i : ℕ)
    → 0 < size
    → length name ≤ 31
    → t.next_id ≢ 0
    → find t.segments name ≡ none
    → free_slot t.segments ≡ some i
    → ((create name size (some p) t).1 ≡ some i)
      × ((q : List ℕ)
          → find (create name size (some p) t).0.segments q
            ≡ (if same_name name q then some i else find t.segments q))
unfolding create
create-find name size p t i large short live absent slot =
    (ap (λ (r : Table × Option ℕ). r.1) made, found)
  where
    new : Segment
    new = record { id = t.next_id; name = take 31 name; base = p; size = size; refs = 1 }

    result : Table × Option ℕ
    result =
        (record { segments = set t.segments i new; next_id = (t.next_id + 1) % 2 ^ 32 }, some i)

    made : create name size (some p) t ≡ result
    made = rw (ne→== size 0 (λ e. omega arith), absent, slot) refl

    known : (q : List ℕ) → matches new q ≡ same_name name q
    known q =
        ap (λ (b : Bool). not b && same_name (take 31 name) q) (ne→== t.next_id 0 live)
        ∙ ap (λ (n : List ℕ). same_name n q) (take_all 31 name short)

    found :
        (q : List ℕ)
        → find (create name size (some p) t).0.segments q
          ≡ (if same_name name q then some i else find t.segments q)
    found q =
        ap (λ (r : Table × Option ℕ). find r.0.segments q) made
        ∙ find-set t.segments i new q slot
            (λ m. ap (find t.segments) (sym (same_name-eq name q (sym (known q) ∙ m))) ∙ absent)
        ∙ ap (λ (b : Bool). if b then some i else find t.segments q) (known q)

in_range : (gs : List Segment) (i : ℕ) → (get_or gs i cleared).id ≢ 0 → i < length gs
in_range [] i n = absurd (n refl)
in_range (g ∷ gs) zero n = omega arith
in_range (g ∷ gs) (suc i) n = let r = in_range gs i n in omega arith

-- A user who detaches again: as long as the count does not wrap and a user is there, `shm_detach`
-- undoes `shm_attach` and nothing is freed.
pub detach-attach :
    (t : Table) (i : ℕ)
    → (segment t i).id ≢ 0
    → 0 < (segment t i).refs
    → (segment t i).refs + 1 < 2 ^ 32
    → detach i (attach i t).0 ≡ (t, none)
unfolding attach detach
detach-attach t i live held small =
    ap (λ (r : Table × Option ℕ). detach i r.0) attached
    ∙ ap leave (get_or-set_self t.segments i (counted g) cleared (in_range t.segments i live))
    ∙ rw
        (
          ne→== g.id 0 live,
          ne→== (counted g).refs 0 (λ e. omega arith),
          ne→== ((counted g).refs - 1) 0 (λ e. omega arith),
        )
        refl
    ∙ ap (λ (n : ℕ). (change more i (record g { refs = n }), none)) less
    ∙ ap (λ (l : List Segment). (record t { segments = l }, none))
        (set-back t.segments i (counted g) cleared)
  where
    g : Segment
    g = segment t i

    more : Table
    more = change t i (counted g)

    result : Bool → Table × Option ℕ
    result b = if b then (t, none) else (more, some g.base)

    attached : attach i t ≡ (more, some g.base)
    attached = ap result (ne→== g.id 0 live)

    leave : Segment → Table × Option ℕ
    leave h =
        if h.id == 0 || h.refs == 0
        then (more, none)
        else if h.refs - 1 == 0
        then (change more i cleared, some h.base)
        else (change more i (record h { refs = h.refs - 1 }), none)

    less : (g.refs + 1) % 2 ^ 32 - 1 ≡ g.refs
    less = omega arith
