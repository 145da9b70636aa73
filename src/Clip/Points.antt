-- ===== src/Clip/Points.antt =====
-- The clipping operations on the points of the surface.
use nv0ken_linux.Prelude.{
  ℕ, ◌+◌, ◌-◌, ◌≤◌, ◌<◌, ◌≡◌, refl, sym, ap, ◌∙◌, arith, Bool, true, false, not, ◌&&◌, ◌||◌, ◌==◌,
  if◌then◌else◌, get_or, set, length, ◌≢◌, Bool-cases, inl, inr, get_or-set_self, get_or-set_ne,
  lt→ltb, ne→==,
}
use nv0ken_linux.Prelude.Int.{ℤ, pos, ◌+ℤ◌, ◌-ℤ◌, ltb_ℤ, +ℤ_parts, -ℤ_parts}
use nv0ken_linux.Clip.{
  Rect, ClipStack, Span, stack_depth, no_rect, surface, at_least_zero, meet, from_zero, up_to,
  clipped_span, clipped, push, pop, recompute_active, span_has, contains,
}

pub shuffle_ends : (a b c d : Bool) → (not (a || b) && (c && d)) ≡ ((not a && c) && (not b && d))
shuffle_ends a b c d = ground arith

module _ (p : ℤ) where
  -- A span from one place to another.
  between :
      (x1 x2 : ℤ) → span_has (x1, at_least_zero (x2 -ℤ x1)) p ≡ (not (ltb_ℤ p x1) && ltb_ℤ p x2)
  unfolding at_least_zero
  between x1 x2 = ground (arith, -ℤ_parts x2 x1, +ℤ_parts x1 (x2 -ℤ x1), +ℤ_parts x1 (pos 0))

  pub behind_both : (a b : ℤ) → ltb_ℤ p (if ltb_ℤ b a then a else b) ≡ (ltb_ℤ p a || ltb_ℤ p b)
  behind_both a b = ground arith

  pub before_both : (a b : ℤ) → ltb_ℤ p (if ltb_ℤ a b then a else b) ≡ (ltb_ℤ p a && ltb_ℤ p b)
  before_both a b = ground arith

  meet_points : (s t : Span) → span_has (meet s t) p ≡ (span_has s p && span_has t p)
  unfolding meet
  meet_points (x, w) (cx, cw) =
      between (if ltb_ℤ cx x then x else cx)
        (if ltb_ℤ (x +ℤ w) (cx +ℤ cw) then x +ℤ w else cx +ℤ cw)
      ∙ ap (λ (b : Bool). not b && ltb_ℤ p (if ltb_ℤ (x +ℤ w) (cx +ℤ cw) then x +ℤ w else cx +ℤ cw))
          (behind_both x cx)
      ∙ ap (λ (b : Bool). not (ltb_ℤ p x || ltb_ℤ p cx) && b) (before_both (x +ℤ w) (cx +ℤ cw))
      ∙ shuffle_ends (ltb_ℤ p x) (ltb_ℤ p cx) (ltb_ℤ p (x +ℤ w)) (ltb_ℤ p (cx +ℤ cw))

  zero_points : (s : Span) → (ltb_ℤ p (pos 0) ≡ false) → span_has (from_zero s) p ≡ span_has s p
  unfolding from_zero at_least_zero
  zero_points (x, w) inside =
      ground
        (arith, +ℤ_parts x w, +ℤ_parts w x, +ℤ_parts (pos 0) (w +ℤ x), +ℤ_parts (pos 0) (pos 0))

  limit_points :
      (limit : ℤ) (s : Span) → ltb_ℤ p limit ≡ true → span_has (up_to limit s) p ≡ span_has s p
  unfolding up_to at_least_zero
  limit_points limit (x, w) inside =
      ground (arith, +ℤ_parts x w, -ℤ_parts limit x, +ℤ_parts x (limit -ℤ x), +ℤ_parts x (pos 0))

  -- The span that `clip_push` computes has the points of the new one, of the active one unless the
  -- stack is empty, and of the surface.
  clipped_points :
      (first : Bool) (limit : ℤ) (s t : Span)
      → ltb_ℤ p (pos 0) ≡ false
      → ltb_ℤ p limit ≡ true
      → span_has (clipped_span first limit s t) p ≡ (span_has s p && (first || span_has t p))
  clipped_points first limit s t low high =
      limit_points limit (from_zero (if first then s else meet s t)) high
      ∙ zero_points (if first then s else meet s t) low
      ∙ go first
    where
      go :
          (f : Bool)
          → span_has (if f then s else meet s t) p ≡ (span_has s p && (f || span_has t p))
      go true = ground arith
      go false = meet_points s t

-- The active rectangle is the top of the stack, or the surface when the stack is empty.
pub record IsValid (cs : ClipStack) : Type 0 where
  pub sized : length cs.stack ≡ stack_depth
  pub within : cs.depth ≤ stack_depth
  pub current : cs.active ≡ (recompute_active cs).active

abbrev pub OnSurface : ClipStack → ℤ → ℤ → Type 0
OnSurface cs px py =
    (ltb_ℤ px (pos 0) ≡ false)
    × (ltb_ℤ px cs.surface_w ≡ true)
    × (ltb_ℤ py (pos 0) ≡ false)
    × (ltb_ℤ py cs.surface_h ≡ true)

abbrev pub rect_has : Rect → ℤ → ℤ → Bool
rect_has r px py = span_has (r.x, r.w) px && span_has (r.y, r.h) py

-- The stack after a push that finds room.
abbrev stacked : ClipStack → Rect → ClipStack
stacked cs r = record cs { stack = set cs.stack cs.depth (clipped cs r); depth = cs.depth + 1 }

push-eq :
    (cs : ClipStack) (r : Rect)
    → cs.depth < stack_depth
    → push cs r ≡ recompute_active (stacked cs r)
unfolding push
push-eq cs r h =
    ap (λ (b : Bool). recompute_active (if b then stacked cs r else cs))
      (lt→ltb cs.depth stack_depth h)

recompute_top :
    (cs : ClipStack) (k : ℕ)
    → recompute_active (record cs { depth = k + 1 })
      ≡ record cs { depth = k + 1; active = get_or cs.stack k no_rect }
unfolding recompute_active
recompute_top cs k =
    ap
      (λ (b : Bool).
        if b
        then record cs { depth = k + 1; active = surface cs.surface_w cs.surface_h }
        else record cs { depth = k + 1; active = get_or cs.stack (k + 1 - 1) no_rect })
      (ne→== (k + 1) 0 (λ e. omega arith))
    ∙ ap (λ j. record cs { depth = k + 1; active = get_or cs.stack j no_rect }) (omega arith)

-- The state after a push.
abbrev pushed : ClipStack → Rect → ClipStack
pushed cs r = record (stacked cs r) { active = clipped cs r }

module _ {cs : ClipStack} (r : Rect) (v : IsValid cs) (room : cs.depth < stack_depth) where
  push-pushed : push cs r ≡ pushed cs r
  push-pushed =
      push-eq cs r room
      ∙ recompute_top (stacked cs r) cs.depth
      ∙ ap (λ a. record (stacked cs r) { active = a })
          (get_or-set_self cs.stack cs.depth (clipped cs r) no_rect (omega (arith, v.sized)))

  -- While the stack has room, a push leaves of the surface the points of the new rectangle, and of
  -- those, unless the stack was empty, only the ones that were visible before.
  pub contains-push :
      (px py : ℤ)
      → OnSurface cs px py
      → contains (push cs r) px py ≡ (rect_has r px py && (cs.depth == 0 || contains cs px py))
  contains-push px py (a, b, c, d) =
      ap (λ t. contains t px py) push-pushed ∙ (unfold contains clipped in both)
    where
      first : Bool
      first = cs.depth == 0

      merge :
          (s t f s' t' : Bool)
          → ((s && (f || t)) && (s' && (f || t'))) ≡ ((s && s') && (f || (t && t')))
      merge s t f s' t' = ground arith

      xs : Bool
      xs = span_has (clipped_span first cs.surface_w (r.x, r.w) (cs.active.x, cs.active.w)) px

      ys : Bool
      ys = span_has (clipped_span first cs.surface_h (r.y, r.h) (cs.active.y, cs.active.h)) py

      both : (xs && ys) ≡ (rect_has r px py && (first || rect_has cs.active px py))
      both =
          ap (λ t. t && ys)
            (clipped_points px first cs.surface_w (r.x, r.w) (cs.active.x, cs.active.w) a b)
          ∙ ap
              (λ t.
                (span_has (r.x, r.w) px && (first || span_has (cs.active.x, cs.active.w) px)) && t)
              (clipped_points py first cs.surface_h (r.y, r.h) (cs.active.y, cs.active.h) c d)
          ∙ merge (span_has (r.x, r.w) px) (span_has (cs.active.x, cs.active.w) px) first
              (span_has (r.y, r.h) py) (span_has (cs.active.y, cs.active.h) py)

  below_push :
      (recompute_active (record (pushed cs r) { depth = cs.depth })).active
      ≡ (recompute_active cs).active
  unfolding recompute_active
  below_push = elim (Bool-cases (cs.depth == 0)) [
    | inl e ↦ rw e refl
    | inr e ↦ rw e (get_or-set_ne cs.stack cs.depth (cs.depth - 1) (clipped cs r) no_rect (apart e))
  ]
    where
      apart : (cs.depth == 0) ≡ false → cs.depth ≢ cs.depth - 1
      apart e same = ground arith

  pop-pushed : pop (pushed cs r) ≡ recompute_active (record (pushed cs r) { depth = cs.depth })
  unfolding pop
  pop-pushed =
      ap
        (λ (b : Bool).
          if b
          then pushed cs r
          else recompute_active (record (pushed cs r) { depth = cs.depth + 1 - 1 }))
        (ne→== (cs.depth + 1) 0 (λ e. omega arith))
      ∙ ap (λ k. recompute_active (record (pushed cs r) { depth = k })) (omega arith)

  kept_depth : (c : ClipStack) → (recompute_active c).depth ≡ c.depth
  unfolding recompute_active
  kept_depth c = elim (Bool-cases (c.depth == 0)) [ inl e ↦ rw e refl | inr e ↦ rw e refl ]

  -- While the stack has room, the pop that answers a push brings back the rectangle that was active
  -- before, and the depth of the stack.
  pub pop-push : ((pop (push cs r)).active ≡ cs.active) × ((pop (push cs r)).depth ≡ cs.depth)
  pop-push = (
    ap (λ c. (pop c).active) push-pushed
        ∙ ap (λ c. c.active) pop-pushed
        ∙ below_push
        ∙ sym v.current,
    ap (λ c. (pop c).depth) push-pushed
        ∙ ap (λ c. c.depth) pop-pushed
        ∙ kept_depth (record (pushed cs r) { depth = cs.depth }),
  )
