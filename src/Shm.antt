-- ===== src/Shm.antt =====
-- kernel/ipc/shm.c: segments of shared memory. A name is the list of its bytes before the zero, and a
-- pointer to a segment is its index in the array `segments`.
pub mod Laws
mod Tests
use nv0ken_linux.Prelude.{
  ℕ, zero, suc, ◌+◌, ◌-◌, ◌%◌, ◌^◌, ◌≡◌, Bool, true, false, not, ◌&&◌, ◌||◌, List, [], ◌∷◌, ◌==◌,
  if◌then◌else◌, get_or, set, take, replicate, Option, none, some,
}

pub record Segment : Type 0 where
  pub id : ℕ
  pub name : List ℕ
  pub base : ℕ
  pub size : ℕ
  pub refs : ℕ

pub record Table : Type 0 where
  pub segments : List Segment
  pub next_id : ℕ

abbrev pub max_segments : ℕ
max_segments = 64

abbrev pub name_max : ℕ
name_max = 32

-- A segment filled with zeros.
abbrev pub cleared : Segment
cleared = record { id = 0; name = []; base = 0; size = 0; refs = 0 }

unfoldable pub init : Table
init = record { segments = replicate max_segments cleared; next_id = 1 }

-- `strcmp(...) == 0`
unfoldable pub same_name : List ℕ → List ℕ → Bool
same_name [] [] = true
same_name [] (d ∷ ds) = false
same_name (c ∷ cs) [] = false
same_name (c ∷ cs) (d ∷ ds) = let rest = same_name cs ds in c == d && rest

-- The index of an element behind one more.
abbrev pub one_on : Option ℕ → Option ℕ
one_on none = none
one_on (some i) = some (suc i)

unfoldable pub find : List Segment → List ℕ → Option ℕ
find [] name = none
find (g ∷ gs) name =
    let rest = find gs name in
    if not (g.id == 0) && same_name g.name name then some 0 else one_on rest

unfoldable pub find_id : List Segment → ℕ → Option ℕ
find_id [] id = none
find_id (g ∷ gs) id = let rest = find_id gs id in if g.id == id then some 0 else one_on rest

-- The loop of `shm_create` that looks for a free segment.
unfoldable pub free_slot : List Segment → Option ℕ
free_slot [] = none
free_slot (g ∷ gs) = let rest = free_slot gs in if not (g.id == 0) then one_on rest else some 0

abbrev pub segment : Table → ℕ → Segment
segment t i = get_or t.segments i cleared

abbrev pub change : Table → ℕ → Segment → Table
change t i g = record t { segments = set t.segments i g }

-- `++segment->refs`
abbrev pub counted : Segment → Segment
counted g = record g { refs = (g.refs + 1) % 2 ^ 32 }

-- `shm_create` with the memory that `kcalloc` gives, where it is asked.
unfoldable pub create : List ℕ → ℕ → Option ℕ → Table → Table × Option ℕ
create name size memory t = if size == 0 then (t, none) else elim (find t.segments name) [
  | some i ↦ (change t i (counted (segment t i)), some i)
  | none ↦ elim (free_slot t.segments) [
    | none ↦ (t, none)
    | some i ↦ elim memory [
      | none ↦ (t, none)
      | some p ↦ (
        record {
          segments = set t.segments i (record {
            id = t.next_id;
            name = take (name_max - 1) name;
            base = p;
            size = size;
            refs = 1;
          });
          next_id = (t.next_id + 1) % 2 ^ 32;
        },
        some i,
      )
    ]
  ]
]

unfoldable pub attach : ℕ → Table → Table × Option ℕ
attach i t =
    if (segment t i).id == 0
    then (t, none)
    else (change t i (counted (segment t i)), some (segment t i).base)

-- With the pointer that goes to `kfree`.
unfoldable pub detach : ℕ → Table → Table × Option ℕ
detach i t =
    let g = segment t i in
    if g.id == 0 || g.refs == 0
    then (t, none)
    else if g.refs - 1 == 0
    then (change t i cleared, some g.base)
    else (change t i (record g { refs = g.refs - 1 }), none)
