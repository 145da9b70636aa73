-- ===== src/FdTable/Laws.antt =====
-- What allocating and duplicating a descriptor do to the table.

use nv0ken_linux.Prelude.{
  ℕ, ◌+◌, ◌≤◌, ◌<◌, ◌≡◌, ◌≢◌, refl, sym, ap, ◌∙◌, arith, Bool, true, false, ◌&&◌, List, ltb,
  if◌then◌else◌, set, length, Option, none, some, ◌⊎◌, inl, inr, Bool-cases, Option-cases,
  length-set, get_or-set_self, get_or-set_ne,
}
use nv0ken_linux.Prelude.Int.{pos}
use nv0ken_linux.FdTable.{
  Entry, table_max, first_fd, closed, is_open, get, free_slot, opened, alloc, copied, dup,
}
use nv0ken_linux.FdTable.Slots.{entry, free_slot-some, free_slot-none}

pub record IsValid (t : List Entry) : Type 0 where
  pub sized : length t ≡ table_max

module _ (t : List Entry) (n k : ℕ) (e : Entry) where
  get-set_self :
      length t ≡ table_max → n < table_max → is_open e ≡ true → get (set t n e) (pos n) ≡ some e
  unfolding get
  get-set_self sized h o =
      ap (λ (x : Entry). if ltb n table_max && is_open x then some x else none)
        (get_or-set_self t n e closed (omega (arith, sized)))
      ∙ ap (λ (b : Bool). if b then some e else none) (in_table)
    where
      in_table : (ltb n table_max && is_open e) ≡ true
      in_table = ground (arith, o)

  get-set_other : n ≢ k → get (set t n e) (pos k) ≡ get t (pos k)
  unfolding get
  get-set_other ne =
      ap (λ (x : Entry). if ltb k table_max && is_open x then some x else none)
        (get_or-set_ne t n k e closed ne)

get-eq :
    (t : List Entry) (fd : ℕ) {e : Entry}
    → get t (pos fd) ≡ some e
    → (fd < table_max) × (entry t fd ≡ e) × (is_open e ≡ true)
unfolding get
get-eq t fd {e} g = elim (Bool-cases (ltb fd table_max && is_open (entry t fd))) [
  | inl yes_open ↦ found yes_open (sym (branch true yes_open) ∙ g)
  | inr shut ↦ absurd (cc (sym (branch false shut) ∙ g))
]
  where
    choice : Bool → Option Entry
    choice b = if b then some (entry t fd) else none

    branch :
        (b : Bool)
        → (ltb fd table_max && is_open (entry t fd)) ≡ b
        → choice (ltb fd table_max && is_open (entry t fd)) ≡ choice b
    branch b h = ap choice h

    found :
        (ltb fd table_max && is_open (entry t fd)) ≡ true
        → some (entry t fd) ≡ some e
        → (fd < table_max) × (entry t fd ≡ e) × (is_open e ≡ true)
    found h same =
        let here = some_inj same in (ground arith, here, ap is_open (sym here) ∙ ground arith)
      where
        some_inj : some (entry t fd) ≡ some e → entry t fd ≡ e
        some_inj h = cc

-- `fd_alloc` gives the lowest descriptor from 3 on that is free, opens it at offset 0 with one
-- reference and leaves every other descriptor as it was; it fails, and changes nothing, only when
-- all of these descriptors are open.
pub alloc_lem :
    {t : List Entry} (node flags k : ℕ)
    → IsValid t
    → ((fd : ℕ) × (alloc t node flags ≡ (some fd, set t fd (opened node flags)))
        × (first_fd ≤ fd)
        × (fd < table_max)
        × (is_open (entry t fd) ≡ false)
        × (first_fd ≤ k → k < fd → is_open (entry t k) ≡ true)
        × (get (alloc t node flags).1 (pos fd) ≡ some (opened node flags))
        × (k ≢ fd → get (alloc t node flags).1 (pos k) ≡ get t (pos k)))
      ⊎ (alloc t node flags ≡ (none, t))
        × (first_fd ≤ k → k < table_max → is_open (entry t k) ≡ true)
alloc_lem {t} node flags k v = elim (Option-cases (free_slot t)) [
  | inl full ↦ inr (result none full, free_slot-none t k full)
  | inr (fd, slot) ↦
      (let f = free_slot-some t k slot in
        let r = result (some fd) slot in
        inl (
          fd,
          r,
          f.0,
          f.1,
          f.2,
          f.3,
          ap (λ (x : Option ℕ × List Entry). get x.1 (pos fd)) r
              ∙ get-set_self t fd k (opened node flags) v.sized f.1 refl,
          λ ne.
              ap (λ (x : Option ℕ × List Entry). get x.1 (pos k)) r
              ∙ get-set_other t fd k (opened node flags) (λ e. ne (sym e)),
        ))
]
  where
    choice : Option ℕ → Option ℕ × List Entry
    choice o = elim o [ none ↦ (none, t) | some fd ↦ (some fd, set t fd (opened node flags)) ]

    result : (o : Option ℕ) → free_slot t ≡ o → alloc t node flags ≡ choice o
    result o e = unfold alloc in ap choice e

-- `fd_dup` of an open descriptor finds the lowest one from 3 on that was free, within the table,
-- gives it a copy of the entry as it was, and then counts one more reference on the old one only;
-- other descriptors stay as they were. It fails, and changes nothing, only when none of these
-- descriptors is free.
pub dup_lem :
    {t : List Entry} (fd k : ℕ) {e : Entry}
    → IsValid t
    → get t (pos fd) ≡ some e
    → ((newfd : ℕ) × ((dup t (pos fd)).0 ≡ some newfd)
        × (first_fd ≤ newfd)
        × (newfd < table_max)
        × (is_open (entry t newfd) ≡ false)
        × (newfd ≢ fd)
        × (first_fd ≤ k → k < newfd → is_open (entry t k) ≡ true)
        × (get (dup t (pos fd)).1 (pos newfd) ≡ some e)
        × (get (dup t (pos fd)).1 (pos fd) ≡ some (record e { refs = e.refs + 1 }))
        × (k ≢ fd → k ≢ newfd → get (dup t (pos fd)).1 (pos k) ≡ get t (pos k)))
      ⊎ (dup t (pos fd) ≡ (none, t)) × (first_fd ≤ k → k < table_max → is_open (entry t k) ≡ true)
dup_lem {t} fd k {e} v g = elim (Option-cases (free_slot t)) [
  | inl full ↦ inr (result none full, free_slot-none t k full)
  | inr (newfd, slot) ↦
      (let f = free_slot-some t k slot in
        let r = result (some newfd) slot in
        let o = get-eq t fd g in
        let apart = different newfd f.2 in
        let sized = length-set t newfd e ∙ v.sized in
        let more = record e { refs = e.refs + 1 } in
        inl (
          newfd,
          ap (λ (x : Option ℕ × List Entry). x.0) r,
          f.0,
          f.1,
          f.2,
          apart,
          f.3,
          ap (λ (x : Option ℕ × List Entry). get x.1 (pos newfd)) r
              ∙ get-set_other (set t newfd e) fd newfd more (λ s. apart (sym s))
              ∙ get-set_self t newfd k e v.sized f.1 o.2,
          ap (λ (x : Option ℕ × List Entry). get x.1 (pos fd)) r
              ∙ get-set_self (set t newfd e) fd k more sized o.0 o.2,
          λ ne ne'.
              ap (λ (x : Option ℕ × List Entry). get x.1 (pos k)) r
              ∙ get-set_other (set t newfd e) fd k more (λ s. ne (sym s))
              ∙ get-set_other t newfd k e (λ s. ne' (sym s)),
        ))
]
  where
    choice : Option ℕ → Option ℕ × List Entry
    choice o = elim o [ none ↦ (none, t) | some newfd ↦ (some newfd, copied t fd newfd e) ]

    outer : Option Entry → Option ℕ × List Entry
    outer o = elim o [
      | none ↦ (none, t)
      | some x ↦ elim (free_slot t) [
        | none ↦ (none, t)
        | some newfd ↦ (some newfd, copied t fd newfd x)
      ]
    ]

    result : (o : Option ℕ) → free_slot t ≡ o → dup t (pos fd) ≡ choice o
    result o s = unfold dup in ap outer g ∙ ap choice s

    different : (newfd : ℕ) → is_open (entry t newfd) ≡ false → newfd ≢ fd
    different newfd shut same =
        let o = get-eq t fd g in
        absurd (cc (sym (ap (λ j. is_open (entry t j)) same ∙ ap is_open o.1 ∙ o.2) ∙ shut))
