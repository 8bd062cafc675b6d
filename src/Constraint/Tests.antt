-- ===== src/Constraint/Tests.antt =====
-- A constraint, a rank and a view at concrete data, and the theorems at them.
use margot_project.Base.{
  ◌*◌, ◌==◌, Bool, false, ◌||◌, [], ◌∷◌, none, OpPtr, ◌≡◌, arith, Value, is_empty, ◌&&◌,
  if◌then◌else◌, leb, min, max, count,
}
use margot_project.Enums.{less, maximize}
use margot_project.Goal.{Environment, check, compare}
use margot_project.View.{View, range, range_between, evaluate_op}
use margot_project.View.Laws.{count-range_between}
use margot_project.Constraint.{Constraint, achieves, update}
use margot_project.Constraint.Updates.{IsUpdated, update-IsUpdated}
use margot_project.Constraint.Best.{get_closest}
use margot_project.Constraint.Best.Laws.{ClosestAt, get_closest_lem}
use margot_project.Rank.{Rank}

-- The Operating Points 1, 2 and 3 of the values 10, 20 and 30.
abbrev tens : View
tens = record { evaluate = λ p. 10 * p; sorted_knowledge = (10, 1) ∷ (20, 2) ∷ (30, 3) ∷ [] }

count-range_between_example : count 2 (range_between tens 30 15) ≡ (
    if leb (min 30 15) (tens.evaluate 2) && leb (tens.evaluate 2) (max 30 15)
    then count 2 (range tens)
    else 0)
count-range_between_example = count-range_between tens 30 15 2 (omega arith)

-- Less than 25: the Operating Point 3 is blocked.
abbrev below_25 : Constraint
below_25 = record {
  target_field = 0;
  target_goal = record { comparison_function = less; goal_value = 0 };
  last_check_value = 25;
  knowledge_view = tens;
  blocked_ops = 3 ∷ [];
  knowledge_adaptor = none;
}

-- The goal goes down to 15.
abbrev env : Environment
env = record { goal_value_at = λ a. 15; coefficient_at = λ a. 1; times = λ v w. v * w; one = 1 }

abbrev known : OpPtr → Bool
known p = p == 1 || p == 2 || p == 3

update-IsUpdated_example : IsUpdated known known env below_25 (update env below_25)
unfolding achieves check compare evaluate_op range
update-IsUpdated_example =
    update-IsUpdated known known env below_25 (omega arith) (λ p. ground arith) (λ p. ground arith)
      (λ p h. h)

get_closest_lem_example :
    (w : Value) × ((p : OpPtr) → ClosestAt below_25 (3 ∷ []) (get_closest below_25) w p)
    × (is_empty (get_closest below_25) ≡ false)
get_closest_lem_example = get_closest_lem below_25

abbrev highest : Rank
highest = record { objective = maximize; view = tens }
