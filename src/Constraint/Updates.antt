-- ===== src/Constraint/Updates.antt =====
-- `update` of a constraint: what it blocks, releases and reports when the value to compare with changes.
use margot_project.Base.{
  ℕ, ◌≤◌, ◌<◌, ◌≡◌, ◌==◌, leb, if◌then◌else◌, b2n, ◌&&◌, arith, count, OpPtr, Value, min, max,
  Enumerates, Bool, true, false, not, ◌≢◌, inl, inr, Bool-cases,
}
use margot_project.Enums.{ComparisonFunctions}
use margot_project.Goal.{Environment, check, compare}
use margot_project.View.{View, range, range_between}
use margot_project.View
use margot_project.View.Laws.{IsSorted, count-range_between}
use margot_project.Constraint.{Constraint, Update, achieves, final_goal_value, update_to, update}
use margot_project.Constraint.Filters.{passes, count-invalidate, count-validate}

ne_of_== : (a b : ℕ) → (a == b) ≡ false → a ≡ b → true ≡ false
ne_of_== a b h e = ground arith

-- Where a new goal is stricter, what it lets pass the old one did; and what the change concerns lies
-- between the two values.
pub compare_stricter :
    (cf : ComparisonFunctions) (old final e : Value)
    → compare cf final old ≡ true
    → (compare cf e final ≡ true → compare cf e old ≡ true)
      × (compare cf e old ≡ true
          → compare cf e final ≡ false
          → (min old final ≤ e) × (e ≤ max old final))
unfolding compare
compare_stricter cf old final e h = ground arith

pub compare_looser :
    (cf : ComparisonFunctions) (old final e : Value)
    → final ≢ old
    → compare cf final old ≡ false
    → (compare cf e old ≡ true → compare cf e final ≡ true)
      × (compare cf e old ≡ false
          → compare cf e final ≡ true
          → (min old final ≤ e) × (e ≤ max old final))
unfolding compare
compare_looser cf old final e n h = ground arith

-- What a constraint that blocks `f` less what passes must give for a pointer when it is updated.
pub record Adjusts (K f : OpPtr → Bool) (c : Constraint) (u : Update) (p : OpPtr) : Type 0 where
  pub blocked :
      count p u.constraint.blocked_ops
      ≡ b2n (f p && not (passes c p) && not (passes u.constraint p))
  pub validated : count p u.validated_ops ≡ b2n (f p && not (passes c p) && passes u.constraint p)
  pub invalidated_once : count p u.invalidated_ops ≤ 1
  pub invalidated_fails : 0 < count p u.invalidated_ops → passes u.constraint p ≡ false
  pub invalidated_known : 0 < count p u.invalidated_ops → K p ≡ true
  pub invalidated_all :
      f p ≡ true → passes c p ≡ true → passes u.constraint p ≡ false → count p u.invalidated_ops ≡ 1

module _ (K f : OpPtr → Bool) (c : Constraint) (sorted : IsSorted c.knowledge_view)
    (all : Enumerates (range c.knowledge_view) K)
    (blocks : Enumerates c.blocked_ops (λ p. f p && not (passes c p)))
    (inside : (p : OpPtr) → f p ≡ true → K p ≡ true) where
  -- The facts that the two branches share, at one pointer.
  in_slice :
      (final : Value) (p : OpPtr)
      → count p (range_between c.knowledge_view c.last_check_value final) ≡ (
          if leb (min c.last_check_value final) (c.knowledge_view.evaluate p)
            && leb (c.knowledge_view.evaluate p) (max c.last_check_value final)
          then b2n (K p)
          else 0)
  in_slice final p =
      ground (arith, count-range_between c.knowledge_view c.last_check_value final p sorted, all p)

  update_to-Adjusts :
      (final : Value)
      → final ≢ c.last_check_value
      → (p : OpPtr) → Adjusts K f c (update_to c final) p
  unfolding update_to achieves check View.evaluate_op
  update_to-Adjusts final n p = ground (
    arith,
    in_slice final p,
    blocks p,
    inside p,
    count-invalidate p c final (range_between c.knowledge_view c.last_check_value final),
    count-validate p c final (range_between c.knowledge_view c.last_check_value final),
    compare_stricter c.target_goal.comparison_function c.last_check_value final
        (c.knowledge_view.evaluate p),
    compare_looser c.target_goal.comparison_function c.last_check_value final
        (c.knowledge_view.evaluate p),
  )

  pub update-Adjusts : (env : Environment) (p : OpPtr) → Adjusts K f c (update env c) p
  unfolding update
  update-Adjusts env p = elim (Bool-cases (final_goal_value env c == c.last_check_value)) [
    | inl same ↦ rw same (ground (arith, blocks p))
    | inr changed ↦ rw changed (
        update_to-Adjusts (final_goal_value env c)
          (λ e. cc (ne_of_== (final_goal_value env c) c.last_check_value changed e)) p)
  ]

-- After `update` the constraint was checked against the current goal, and is otherwise the same filter.
pub update-final_goal_value :
    (env : Environment) (c : Constraint)
    → ((update env c).constraint.last_check_value ≡ final_goal_value env c)
      × ((update env c).constraint.target_goal ≡ c.target_goal)
      × ((update env c).constraint.knowledge_view ≡ c.knowledge_view)
      × ((update env c).constraint.knowledge_adaptor ≡ c.knowledge_adaptor)
unfolding update update_to
update-final_goal_value env c = ground (
  arith,
  count-validate 0 c (final_goal_value env c)
      (range_between c.knowledge_view c.last_check_value (final_goal_value env c)),
)

-- What `update` makes of a constraint: it is checked against the goal value times the error coefficient of
-- that moment, and is otherwise the same filter; and, by that new value, it adjusts what it blocks.
pub record IsUpdated (K f : OpPtr → Bool) (env : Environment) (c : Constraint) (u : Update)
    : Type 0 where
  pub current : u.constraint.last_check_value ≡ final_goal_value env c
  pub same_goal : u.constraint.target_goal ≡ c.target_goal
  pub same_view : u.constraint.knowledge_view ≡ c.knowledge_view
  pub same_adaptor : u.constraint.knowledge_adaptor ≡ c.knowledge_adaptor
  pub adjusts : (p : OpPtr) → Adjusts K f c u p

-- For a sorted view of the knowledge and a constraint that blocks what fails it of the Operating Points that
-- come down to it: after `update` it is checked against the goal value times the error coefficient of that
-- moment, with the same goal, view and adaptor; by that new value, `update` releases exactly the blocked
-- ones that pass, goes on to block exactly the others, and reports, once and only from the knowledge, all
-- that passed and now fail and none that passes now.
pub update-IsUpdated :
    (K f : OpPtr → Bool) (env : Environment) (c : Constraint)
    → IsSorted c.knowledge_view
    → Enumerates (range c.knowledge_view) K
    → Enumerates c.blocked_ops (λ p. f p && not (passes c p))
    → ((p : OpPtr) → f p ≡ true → K p ≡ true)
    → IsUpdated K f env c (update env c)
update-IsUpdated K f env c sorted all blocks inside =
    let same = update-final_goal_value env c in
    record {
      current = same.0;
      same_goal = same.1;
      same_view = same.2;
      same_adaptor = same.3;
      adjusts = update-Adjusts K f c sorted all blocks inside env;
    }
