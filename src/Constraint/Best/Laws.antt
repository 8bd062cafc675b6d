-- ===== src/Constraint/Best/Laws.antt =====
-- Which Operating Points `get_closest` and `narrow` keep.
use margot_project.Base.{
  ℕ, ◌+◌, ◌<◌, ◌≡◌, refl, ◌==◌, if◌then◌else◌, b2n, ◌&&◌, [], ◌∷◌, arith, count, OpPtr, OpStream,
  Value, count-append, Bool, true, false, not, ◌++◌, is_empty, ◌||◌,
}
use margot_project.Goal.{check, compare}
use margot_project.View.{evaluate_op}
use margot_project.Constraint.Best.{
  closest_loop, closest_of, get_closest, Narrowed, narrow_step, narrow_loop, narrow_from, narrow,
}
use margot_project.Constraint.{Constraint, achieves}

-- The value of an Operating Point for the constraint, and that a value is strictly closer to the goal.
abbrev pub value_of : Constraint → OpPtr → Value
value_of c p = evaluate_op c.knowledge_view p

abbrev pub closer : Constraint → Value → Value → Bool
closer c v w = not (v == w) && check c.target_goal v w

is_empty-snoc : (xs : OpStream) (op : OpPtr) → is_empty (xs ++ (op ∷ [])) ≡ false
is_empty-snoc [] op = refl
is_empty-snoc (x ∷ xs) op = refl

closer_trans :
    (c : Constraint) (u v w : Value)
    → closer c v w ≡ true
    → closer c u w ≡ false
    → closer c u v ≡ false
unfolding check compare
closer_trans c u v w h k = ground arith

module _ (p : OpPtr) where
  closest_loop_lem :
      (c : Constraint) (closest_ops : OpStream) (w : Value) (ops : OpStream) (seen : ℕ)
      → count p closest_ops ≡ (if value_of c p == w then seen else 0)
      → (0 < seen → closer c (value_of c p) w ≡ false)
      → let (out, w') = closest_loop c closest_ops w ops in
        (count p out ≡ (if value_of c p == w' then seen + count p ops else 0))
        × (0 < seen + count p ops → closer c (value_of c p) w' ≡ false)
  unfolding closest_loop
  closest_loop_lem c closest_ops w [] seen h k = ground arith
  closest_loop_lem c closest_ops w (op ∷ ops) seen h k = ground (
    arith,
    count-append p closest_ops (op ∷ []),
    closest_loop_lem c (closest_ops ++ (op ∷ [])) w ops (b2n (op == p) + seen),
    closest_loop_lem c (op ∷ []) (value_of c op) ops (b2n (op == p) + seen),
    closest_loop_lem c closest_ops w ops (b2n (op == p) + seen),
    closer_trans c (value_of c p) (value_of c op) w,
  )

  -- What the loop has kept of the `seen` occurrences of a pointer.
  abbrev NarrowKept : Constraint → Narrowed → ℕ → Type 0
  NarrowKept c n seen =
      (count p n.best_ops ≡ (
        if n.best_is_valid
        then if achieves c c.last_check_value p then seen else 0
        else if value_of c p == n.best_value
        then seen
        else 0))
      × (n.best_is_valid ≡ false
          → 0 < seen
          → (achieves c c.last_check_value p ≡ false)
            × (closer c (value_of c p) n.best_value ≡ false))

  narrow_step_lem :
      (c : Constraint) (n : Narrowed) (op : OpPtr) (seen : ℕ)
      → NarrowKept c n seen
      → NarrowKept c (narrow_step c n op) (b2n (op == p) + seen)
  unfolding narrow_step
  narrow_step_lem c n op seen h = ground (
    arith,
    count-append p n.best_ops (op ∷ []),
    closer_trans c (value_of c p) (value_of c op) n.best_value,
  )

  narrow_loop_lem :
      (c : Constraint) (n : Narrowed) (ops : OpStream) (seen : ℕ)
      → NarrowKept c n seen
      → NarrowKept c (narrow_loop c n ops) (count p ops + seen)
  unfolding narrow_loop
  narrow_loop_lem c n [] seen h = ground arith
  narrow_loop_lem c n (op ∷ ops) seen h = ground (
    arith,
    narrow_loop_lem c (narrow_step c n op) ops (b2n (op == p) + seen)
        (narrow_step_lem c n op seen h),
  )

closest_loop-nonempty :
    (c : Constraint) (closest_ops : OpStream) (w : Value) (ops : OpStream)
    → is_empty closest_ops ≡ false
    → is_empty (closest_loop c closest_ops w ops).0 ≡ false
unfolding closest_loop
closest_loop-nonempty c closest_ops w [] h = h
closest_loop-nonempty c closest_ops w (op ∷ ops) h = ground (
  arith,
  closest_loop-nonempty c (closest_ops ++ (op ∷ [])) w ops (is_empty-snoc closest_ops op),
  closest_loop-nonempty c (op ∷ []) (value_of c op) ops refl,
  closest_loop-nonempty c closest_ops w ops h,
)

-- What is closest to the goal among some Operating Points: those of one value, and no value of them is
-- strictly closer.
abbrev pub ClosestAt : Constraint → OpStream → OpStream → Value → OpPtr → Type 0
ClosestAt c ops out w p =
    (count p out ≡ (if value_of c p == w then count p ops else 0))
    × (0 < count p ops → closer c (value_of c p) w ≡ false)

closest_of_lem :
    (c : Constraint) (ops : OpStream)
    → (w : Value) × ((p : OpPtr) → ClosestAt c ops (closest_of c ops) w p)
      × (is_empty (closest_of c ops) ≡ is_empty ops)
unfolding closest_of
closest_of_lem c [] = (0, (λ p. ground arith), refl)
closest_of_lem c (op ∷ ops) = (
  (closest_loop c (op ∷ []) (value_of c op) ops).1,
  (λ p. ground (arith, closest_loop_lem p c (op ∷ []) (value_of c op) ops (b2n (op == p)))),
  closest_loop-nonempty c (op ∷ []) (value_of c op) ops refl,
)

-- `get_closest` returns the blocked Operating Points that are closest to the goal, all of them, and at
-- least one if anything is blocked.
pub get_closest_lem :
    (c : Constraint)
    → (w : Value) × ((p : OpPtr) → ClosestAt c c.blocked_ops (get_closest c) w p)
      × (is_empty (get_closest c) ≡ is_empty c.blocked_ops)
unfolding get_closest
get_closest_lem c = closest_of_lem c c.blocked_ops

-- Some Operating Point of the stream achieves the goal as it was last checked.
abbrev pub some_valid : Constraint → OpStream → Bool
some_valid c [] = false
some_valid c (op ∷ ops) = achieves c c.last_check_value op || some_valid c ops

narrow_loop-nonempty :
    (c : Constraint) (n : Narrowed) (ops : OpStream)
    → is_empty n.best_ops ≡ false
    → is_empty (narrow_loop c n ops).best_ops ≡ false
unfolding narrow_loop narrow_step
narrow_loop-nonempty c n [] h = h
narrow_loop-nonempty c n (op ∷ ops) h =
    narrow_loop-nonempty c (narrow_step c n op) ops
      (ground (arith, is_empty-snoc n.best_ops op, is_empty-snoc [] op))

narrow_loop-some_valid :
    (c : Constraint) (n : Narrowed) (ops : OpStream)
    → (narrow_loop c n ops).best_is_valid ≡ (n.best_is_valid || some_valid c ops)
unfolding narrow_loop narrow_step
narrow_loop-some_valid c n [] = ground arith
narrow_loop-some_valid c n (op ∷ ops) =
    ground (arith, narrow_loop-some_valid c (narrow_step c n op) ops)

-- `narrow` keeps exactly the valid Operating Points of a stream if it has some; otherwise exactly those
-- closest to the goal. It returns nothing only for the empty stream.
narrow_lem :
    (c : Constraint) (ops : OpStream)
    → (w : Value) × ((p : OpPtr)
        → (some_valid c ops ≡ true
            → count p (narrow c ops) ≡ (if achieves c c.last_check_value p then count p ops else 0))
          × (some_valid c ops ≡ false → ClosestAt c ops (narrow c ops) w p))
      × (is_empty (narrow c ops) ≡ is_empty ops)
unfolding narrow narrow_from
narrow_lem c [] = (0, (λ p. ground arith), refl)
narrow_lem c (op ∷ ops) = (
  (narrow_loop c start ops).best_value,
  (λ p.
      ground
        (arith, narrow_loop_lem p c start ops (b2n (op == p)), narrow_loop-some_valid c start ops)),
  narrow_loop-nonempty c start ops refl,
)
  where
    start : Narrowed
    start = record {
      best_ops = op ∷ [];
      best_value = value_of c op;
      best_is_valid = achieves c c.last_check_value op;
    }
