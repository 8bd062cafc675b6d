-- ===== src/State/Tests.antt =====
-- A state with two constraints, runs of it, and the theorems at it.
use margot_project.Base.{
  ◌-◌, ◌*◌, ◌==◌, if◌then◌else◌, Bool, true, not, ◌&&◌, ◌||◌, [], ◌∷◌, none, some, OpPtr, OpStream,
  ◌≡◌, refl, arith, Value,
}
use margot_project.Enums.{less, less_or_equal}
use margot_project.Goal.{Goal, Environment, check}
use margot_project.Goal
use margot_project.PtrSet.{contains}
use margot_project.PtrSet
use margot_project.Multimap
use margot_project.View
use margot_project.Constraint.{Constraint}
use margot_project.Constraint
use margot_project.Constraint.Best.{get_closest, closest_of, closest_loop}
use margot_project.Rank
use margot_project.Rank.{Rank}
use margot_project.State.{
  State, default, set_knowledge_base, add_operating_points, remove_operating_points, add_constraint,
  remove_constraint, insert_constraint, new_constraint, place_constraint, drop_constraint,
  remove_found,
}
use margot_project.State.Stack
use margot_project.State.Update
use margot_project.State.Solve
use margot_project.State.Solve.{update, remember, solve, get_best_operating_point}
use margot_project.State.Knowledge.{
  Splits, set_knowledge_base-Splits, add_operating_points-Splits, remove_operating_points-Splits,
}
use margot_project.State.Removal.{settings, without, remove_constraint-settings}
use margot_project.State.Insertion.{add_constraint-Splits}
use margot_project.State.Overlap.{insert_constraint_overlap, insert_constraint_lost}
use margot_project.State.Current.{IsCurrent, update-Splits}
use margot_project.State.Problem.{achieves_all}
use margot_project.State.Optimum.{Remembers, get_best_operating_point_optimal}
use margot_project.Rank.Laws.{IsBetter}

-- The Operating Points 1 to 4: their execution time is 10 times their number, their error 50 less 10
-- times it. The goals are at the addresses 0 (time) and 1 (error), the error coefficient at 0.
abbrev knowledge : OpStream
knowledge = 1 ∷ 2 ∷ 3 ∷ 4 ∷ []

abbrev known : OpPtr → Bool
known p = p == 1 || p == 2 || p == 3 || p == 4

abbrev time : OpPtr → Value
time p = 10 * p

abbrev error : OpPtr → Value
error p = 50 - 10 * p

abbrev env : Environment
env = record {
  goal_value_at = λ a. if a == 0 then 35 else 25;
  coefficient_at = λ a. 1;
  times = λ v w. v * w;
  one = 1;
}

abbrev time_goal : Goal
time_goal = record { comparison_function = less; goal_value = 0 }

abbrev error_goal : Goal
error_goal = record { comparison_function = less_or_equal; goal_value = 1 }

-- The time is to be less than 35 and, with a lower priority, the error at most 25. The rank minimises
-- the time.
abbrev empty_state : State
empty_state =
    add_constraint env error_goal 1 error 20 [] (λ f. none)
      (add_constraint env time_goal 0 time 10 [] (λ f. none) (default time))

abbrev start : State
start = set_knowledge_base knowledge empty_state

-- The Operating Points in the rank of a state, and what it returns as the best one.
valid_ops : State → OpStream
unfolding default add_constraint insert_constraint new_constraint place_constraint Stack.before
    Stack.lower_bound Stack.upper_bound Stack.append_blocked Stack.push_down Stack.remove_lower
    Stack.repeat_filter_remove Stack.reset_all Constraint.make Constraint.set
    Constraint.set_field_adaptor Constraint.clear Constraint.append_to Constraint.filter_initialize
    Constraint.filter_add Constraint.filter_remove Constraint.achieves Constraint.block check
    Goal.compare Goal.get PtrSet.emplace PtrSet.erase View.evaluate_op View.add View.add_all
    View.clear View.range View.remove View.erase_in_range Multimap.emplace Rank.make Rank.add
    Rank.remove Rank.clear Rank.to_stream Rank.best Multimap.front Multimap.back View.front
    View.back set_knowledge_base update Update.update_all Update.update_from Update.update_round
    Update.take_validated Update.take_invalidated Update.block_invalidated Constraint.update
    Constraint.update_to Constraint.final_goal_value Constraint.invalidate Constraint.validate
    Constraint.remove_blocked_ops_from View.range_between Multimap.lower_bound Multimap.until_upper
    Stack.remove_down Stack.prune_higher remember solve get_best_operating_point remove_constraint
    remove_found drop_constraint Constraint.to_stream
valid_ops st = Rank.to_stream st.rank

start_valid : valid_ops start ≡ 3 ∷ []
unfolding valid_ops
start_valid = refl

start_best : (get_best_operating_point env start).1 ≡ some 3
unfolding valid_ops
start_best = refl

-- A stricter goal for the time, so that nothing is valid.
strict_best : (get_best_operating_point (Goal.set env time_goal 15) start).1 ≡ some 1
unfolding valid_ops Goal.set Solve.last_closest Solve.get_best_from_stream Solve.first get_closest
    closest_of closest_loop
strict_best = refl

-- Without the constraint on the time the Operating Points 3 and 4 are valid.
relaxed_valid : valid_ops (remove_constraint 10 start) ≡ 3 ∷ 4 ∷ []
unfolding valid_ops
relaxed_valid = refl

start-Splits : Splits known start
start-Splits = set_knowledge_base-Splits known knowledge empty_state (λ p. ground arith)

start-Remembers : Remembers start
unfolding set_knowledge_base
start-Remembers p e b = cc

get_best_operating_point_optimal_example :
    (q : OpPtr) × ((get_best_operating_point env start).1 ≡ some q)
    × (known q ≡ true)
    × (achieves_all env start.constraints q ≡ true)
    × ((o : OpPtr)
        → known o ≡ true
        → achieves_all env start.constraints o ≡ true
        → ¬ IsBetter start.rank o q)
unfolding valid_ops
get_best_operating_point_optimal_example =
    get_best_operating_point_optimal known env start 3 start-Splits start-Remembers refl refl

update-Splits_example :
    Splits known (update (Goal.set env time_goal 15) start)
    × IsCurrent (Goal.set env time_goal 15) (update (Goal.set env time_goal 15) start).constraints
update-Splits_example = update-Splits known (Goal.set env time_goal 15) start start-Splits

set_knowledge_base-Splits_example : Splits known (set_knowledge_base knowledge start)
set_knowledge_base-Splits_example =
    set_knowledge_base-Splits known knowledge start (λ p. ground arith)

add_operating_points-Splits_example :
    Splits (λ p. known p || p == 7) (add_operating_points (7 ∷ []) start)
add_operating_points-Splits_example =
    add_operating_points-Splits known (λ p. p == 7) (7 ∷ []) start (λ p h. ground arith)
      (λ p. ground arith) start-Splits

remove_operating_points-Splits_example :
    Splits (λ p. known p && not (p == 2 || p == 9)) (remove_operating_points (2 ∷ 9 ∷ []) start)
remove_operating_points-Splits_example =
    remove_operating_points-Splits known (λ p. p == 2 || p == 9) (2 ∷ 9 ∷ []) start
      (λ p. ground arith) start-Splits

remove_constraint-settings_example :
    Splits known (remove_constraint 10 start)
    × (settings (State.constraints (remove_constraint 10 start))
        ≡ without 10 (settings (State.constraints start)))
unfolding valid_ops
remove_constraint-settings_example =
    remove_constraint-settings known 10 start start-Splits ((omega arith, tt), (tt, tt))

-- A third constraint between the two others.
add_constraint-Splits_example :
    Splits known (add_constraint env time_goal 0 error 15 knowledge (λ f. none) start)
unfolding valid_ops
add_constraint-Splits_example =
    add_constraint-Splits known env time_goal 0 error 15 knowledge (λ f. none) start
      (λ p. ground arith) (refl, (refl, tt)) tt start-Splits

-- The error is to be less than 35, before the two others: that rejects the Operating Point 1, which the
-- second of them blocks.
abbrev first_of_all : Constraint
first_of_all =
    new_constraint (Goal.set env time_goal 35)
      (record { comparison_function = less; goal_value = 0 }) 1 error knowledge (λ f. none)

insert_constraint_overlap_example : ¬ Splits known (insert_constraint 5 first_of_all start)
unfolding valid_ops Goal.set
insert_constraint_overlap_example =
    insert_constraint_overlap known 5 first_of_all start 10 _ _ 1 start-Splits (refl, (refl, tt))
      refl (omega arith) refl

-- The constraint on the time is replaced by one that lets all times pass.
abbrev all_times : Constraint
all_times = new_constraint (Goal.set env time_goal 99) time_goal 0 time knowledge (λ f. none)

insert_constraint_lost_example : ¬ Splits known (insert_constraint 10 all_times start)
unfolding valid_ops Goal.set
insert_constraint_lost_example =
    insert_constraint_lost known 10 all_times start _ _ 4 start-Splits refl refl (omega arith) refl
