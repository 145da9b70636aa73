-- ===== src/Queue/Loops.antt =====
-- The loops over a circular array, on the queue that it holds.
use native.Mathlib.Decide.{dec_lt}
use nv0ken_linux.Prelude.{
  ℕ, zero, suc, ◌-◌, ◌≤◌, ◌<◌, ◌≡◌, refl, sym, ap, ◌∙◌, arith, Bool, min, subst, lt→ltb,
  le→ltb_false, append_assoc, append-nil, List, [], ◌∷◌, ◌++◌, if◌then◌else◌, length, take, drop,
}
use nv0ken_linux.Queue.{
  Queue, IsQueue, put, pull, first, fill, drain, contents, items, put-contents, pull-contents,
}

-- `k` elements of `xs` are written.
pub record Filled {ℓ} {A : Type ℓ} (d : A) (q : Queue A) (xs : List A) (k : ℕ) (r : ℕ × Queue A)
    : Type ℓ where
  pub valid : IsQueue r.1
  pub written : r.0 ≡ k
  pub now : contents d r.1 ≡ contents d q ++ take k xs
  pub same_capacity : r.1.capacity ≡ q.capacity

-- The oldest `n` elements are read, or all.
pub record Drained {ℓ} {A : Type ℓ} (d : A) (q : Queue A) (n : ℕ) (r : List A × Queue A)
    : Type ℓ where
  pub valid : IsQueue r.1
  pub out : r.0 ≡ take n (contents d q)
  pub left : contents d r.1 ≡ drop n (contents d q)

module _ {ℓ} {A : Type ℓ} (d : A) where
  pub fill_on :
      (q : Queue A) (x : A) (xs : List A)
      → q.count < q.capacity
      → fill q (x ∷ xs) ≡ (suc (fill (put q x) xs).0, (fill (put q x) xs).1)
  unfolding fill
  fill_on q x xs h =
      ap (λ (t : Bool). if t then (suc (fill (put q x) xs).0, (fill (put q x) xs).1) else (0, q))
        (lt→ltb q.count q.capacity h)

  pub fill_off :
      (q : Queue A) (x : A) (xs : List A) → q.capacity ≤ q.count → fill q (x ∷ xs) ≡ (0, q)
  unfolding fill
  fill_off q x xs h =
      ap (λ (t : Bool). if t then (suc (fill (put q x) xs).0, (fill (put q x) xs).1) else (0, q))
        (le→ltb_false q.count q.capacity h)

  pub drain_on :
      (q : Queue A) (n : ℕ)
      → 0 < q.count
      → drain d (suc n) q ≡ (first d q ∷ (drain d n (pull q)).0, (drain d n (pull q)).1)
  unfolding drain
  drain_on q n h =
      ap
        (λ (t : Bool).
          if t then (first d q ∷ (drain d n (pull q)).0, (drain d n (pull q)).1) else ([], q))
        (lt→ltb 0 q.count h)

  pub drain_off : (q : Queue A) (n : ℕ) → q.count ≤ 0 → drain d (suc n) q ≡ ([], q)
  unfolding drain
  drain_off q n h =
      ap
        (λ (t : Bool).
          if t then (first d q ∷ (drain d n (pull q)).0, (drain d n (pull q)).1) else ([], q))
        (le→ltb_false 0 q.count h)

  nothing_written : (q : Queue A) (xs : List A) (k : ℕ) → IsQueue q → k ≡ 0 → Filled d q xs k (0, q)
  nothing_written q xs k v e =
      subst (λ t. Filled d q xs t (0, q)) (sym e)
        (record {
          valid = v;
          written = refl;
          now = sym (append-nil (contents d q));
          same_capacity = refl;
        })

  pub fill-Filled :
      (q : Queue A) (xs : List A)
      → IsQueue q
      → Filled d q xs (min (length xs) (q.capacity - q.count)) (fill q xs)
  fill-Filled q [] v =
      unfold fill in nothing_written q [] (min 0 (q.capacity - q.count)) v (omega arith)
  fill-Filled q (x ∷ xs) v = elim (dec_lt q.count q.capacity) [
    | yes h ↦
        subst (Filled d q (x ∷ xs) k) (sym (fill_on q x xs h))
          (more h (fill-Filled (put q x) xs (put-contents d x q v h).0))
    | no h ↦
        subst (Filled d q (x ∷ xs) k) (sym (fill_off q x xs (omega arith)))
          (nothing_written q (x ∷ xs) k v (omega arith))
  ]
    where
      k : ℕ
      k = min (suc (length xs)) (q.capacity - q.count)

      k' : ℕ
      k' = min (length xs) (q.capacity - suc q.count)

      more :
          q.count < q.capacity
          → Filled d (put q x) xs k' (fill (put q x) xs)
          → Filled d q (x ∷ xs) k (suc (fill (put q x) xs).0, (fill (put q x) xs).1)
      more h rest =
          let p = put-contents d x q v h in
          subst (λ t. Filled d q (x ∷ xs) t (suc (fill (put q x) xs).0, (fill (put q x) xs).1))
            (omega arith)
            (record {
              valid = rest.valid;
              written = ap suc rest.written;
              now =
                  rest.now
                  ∙ ap (λ t. t ++ take k' xs) p.1
                  ∙ append_assoc (contents d q) (x ∷ []) (take k' xs);
              same_capacity = rest.same_capacity;
            })

  pub drain-Drained : (n : ℕ) (q : Queue A) → IsQueue q → Drained d q n (drain d n q)
  drain-Drained zero q v = unfold drain in record { valid = v; out = refl; left = refl }
  drain-Drained (suc n) q v = elim (dec_lt 0 q.count) [
    | yes h ↦
        subst (Drained d q (suc n)) (sym (drain_on q n h))
          (more h (drain-Drained n (pull q) (pull-contents d q v h).0))
    | no h ↦
        subst (Drained d q (suc n)) (sym (drain_off q n (omega arith))) (none_left (omega arith))
  ]
    where
      more :
          0 < q.count
          → Drained d (pull q) n (drain d n (pull q))
          → Drained d q (suc n) (first d q ∷ (drain d n (pull q)).0, (drain d n (pull q)).1)
      more h rest =
          let p = pull-contents d q v h in
          record {
            valid = rest.valid;
            out = ap (λ t. first d q ∷ t) rest.out ∙ sym (ap (take (suc n)) p.1);
            left = rest.left ∙ sym (ap (drop (suc n)) p.1);
          }

      empty : q.count ≡ 0 → contents d q ≡ []
      empty e = ap (items d q.cells q.capacity q.start) e ∙ (unfold items in refl)

      none_left : q.count ≡ 0 → Drained d q (suc n) ([], q)
      none_left e = record {
        valid = v;
        out = sym (ap (take (suc n)) (empty e));
        left = empty e ∙ sym (ap (drop (suc n)) (empty e));
      }
