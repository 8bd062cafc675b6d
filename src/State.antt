-- ===== src/State.antt =====
-- margot/include/margot/state.hpp: class State, a constrained optimisation problem. Each constraint
-- keeps the Operating Points that fail it and pass the ones of higher priority; the rank holds the rest.
pub mod Stack
pub mod Pipeline
pub mod Knowledge
pub mod Priorities
pub mod Removal
pub mod Insertion
pub mod Refresh
pub mod Current
pub mod Overlap
pub mod Problem
pub mod Settings
pub mod Memory
pub mod Optimum
mod Tests
pub mod Update
pub mod Solve
use margot_project.Base.{
  ℕ, ◌==◌, if◌then◌else◌, Bool, true, false, is_empty, List, [], ◌∷◌, ◌++◌, Option, none, some,
  OpPtr, OpStream, Value,
}
use margot_project.Enums.{RankObjective, minimize}
use margot_project.Goal.{Goal, Environment}
use margot_project.Constraint.{Constraint, FieldAdaptors}
use margot_project.Constraint
use margot_project.Rank.{Rank}
use margot_project.Rank
use Stack.{
  ConstraintStack, before, lower_bound, upper_bound, append_blocked, push_down, remove_lower,
  add_to_views, remove_from_all, reset_all, set_adaptors, siblings,
}

pub record State : Type 0 where
  pub constraints : ConstraintStack
  pub rank : Rank
  pub problem_is_changed : Bool
  pub best_operating_point_found : Option OpPtr

-- The constructor; the evaluator is that of the dummy field, the first software knob.
unfoldable pub default : (OpPtr → Value) → State
unfolding Rank.make
default dummy_field = record {
  constraints = [];
  rank = Rank.make minimize dummy_field;
  problem_is_changed = true;
  best_operating_point_found = none;
}

-- `create_sibling()`
unfoldable pub create_sibling : Environment → State → State
unfolding siblings
create_sibling env st = record {
  constraints = siblings env st.constraints;
  rank = Rank.create_sibling st.rank;
  problem_is_changed = true;
  best_operating_point_found = none;
}

-- The constraint that `add_constraint` creates, before it filters: it views the whole knowledge.
unfoldable pub new_constraint :
    Environment → Goal → ℕ → (OpPtr → Value) → OpStream → FieldAdaptors → Constraint
new_constraint env goal field evaluate kb adaptors =
    Constraint.set_field_adaptor (Constraint.set (Constraint.make env goal field evaluate) kb)
      adaptors

-- The end of `add_constraint`, once the new constraint has blocked `filtered_ops`.
unfoldable pub place_constraint :
    ℕ → ConstraintStack → Constraint → ConstraintStack → OpStream → State → State
place_constraint priority higher new lower filtered_ops st =
    if is_empty filtered_ops
    then record st { constraints = higher ++ ((priority, new) ∷ lower) }
    else let (lower', to_remove) = remove_lower lower filtered_ops in
      record st {
        constraints = higher ++ ((priority, new) ∷ lower');
        rank = Rank.remove st.rank to_remove;
        problem_is_changed = true;
      }

-- `add_constraint(goal_value, priority, kb, adaptor)`, from the point where the constraint exists.
unfoldable pub insert_constraint : ℕ → Constraint → State → State
insert_constraint priority fresh st =
    let available_ops =
      append_blocked (lower_bound priority st.constraints) (Rank.to_stream st.rank) in
    let (new, filtered_ops) = Constraint.filter_initialize fresh available_ops in
    place_constraint priority (before priority st.constraints) new
      (upper_bound priority st.constraints) filtered_ops st

unfoldable pub add_constraint :
    Environment → Goal → ℕ → (OpPtr → Value) → ℕ → OpStream → FieldAdaptors → State → State
add_constraint env goal field evaluate priority kb adaptors st =
    insert_constraint priority (new_constraint env goal field evaluate kb adaptors) st

-- The body of `remove_constraint`, once the constraint is found in front of `lower`.
unfoldable pub drop_constraint : ConstraintStack → Constraint → ConstraintStack → State → State
drop_constraint higher found lower st =
    if is_empty (Constraint.to_stream found)
    then record st { constraints = higher ++ lower }
    else let (lower', available_ops) = push_down lower (Constraint.to_stream found) in
      record st {
        constraints = higher ++ lower';
        rank = Rank.add st.rank available_ops;
        problem_is_changed = true;
      }

-- `remove_constraint(priority)`, over the entries from `lower_bound` on: `find` succeeds if the first of
-- them has the priority.
unfoldable pub remove_found : ℕ → ConstraintStack → State → State
remove_found priority [] st = st
remove_found priority ((k, found) ∷ lower) st =
    if k == priority then drop_constraint (before priority st.constraints) found lower st else st

unfoldable pub remove_constraint : ℕ → State → State
remove_constraint priority st = remove_found priority (lower_bound priority st.constraints) st

-- `set_rank(values...)`
unfoldable pub set_rank : RankObjective → (OpPtr → Value) → State → State
unfolding Rank.make
set_rank objective evaluate st =
    let valid_ops = Rank.to_stream st.rank in
    if is_empty valid_ops then record st { rank = Rank.make objective evaluate } else record st {
      rank = Rank.add (Rank.make objective evaluate) valid_ops;
      problem_is_changed = true;
    }

-- `add_operating_points(new_ops)`
unfoldable pub add_operating_points : OpStream → State → State
add_operating_points new_ops st =
    let (constraints', ops) = push_down (add_to_views st.constraints new_ops) new_ops in
    record st { constraints = constraints'; rank = Rank.add st.rank ops; problem_is_changed = true }

-- `remove_operating_points(ops)`
unfoldable pub remove_operating_points : OpStream → State → State
remove_operating_points ops st = record st {
  constraints = remove_from_all st.constraints ops;
  rank = Rank.remove st.rank ops;
  problem_is_changed = true;
}

-- `set_knowledge_base(kb)`
unfoldable pub set_knowledge_base : OpStream → State → State
set_knowledge_base kb st =
    let (constraints', available_ops) = push_down (reset_all st.constraints kb) kb in
    record st {
      constraints = constraints';
      rank = Rank.add (Rank.clear st.rank) available_ops;
      problem_is_changed = true;
    }

-- `set_knowledge_adaptor(adaptor)`
unfoldable pub set_knowledge_adaptor : FieldAdaptors → State → State
set_knowledge_adaptor adaptors st = record st {
  constraints = set_adaptors st.constraints adaptors;
  problem_is_changed = true;
}
