-- ===== src/State/Memory.antt =====
-- The methods of a state keep what it remembers up to date: where no change is noted, the remembered
-- Operating Point is the best one of the rank.
use margot_project.Base.{ℕ, [], ◌∷◌, some, OpPtr, OpStream, Value, ◌≡◌, arith}
use margot_project.Enums.{RankObjective}
use margot_project.Goal.{Goal, Environment}
use margot_project.Constraint.{Constraint, FieldAdaptors}
use margot_project.View
use margot_project.View.{range}
use margot_project.Multimap
use margot_project.Rank.{Rank, to_stream}
use margot_project.Rank
use margot_project.State.{
  State, set_rank, set_knowledge_adaptor, create_sibling, add_operating_points, place_constraint,
  remove_operating_points, set_knowledge_base, add_constraint, insert_constraint, drop_constraint,
  remove_found, remove_constraint,
}
use margot_project.State.Stack.{ConstraintStack, before, lower_bound}
use margot_project.State.Optimum.{Remembers, update-Remembers}
use margot_project.State.Solve.{update, remember, solve, get_best_operating_point}

pub set_knowledge_base-Remembers :
    (kb : OpStream) (st : State) → Remembers (set_knowledge_base kb st)
unfolding set_knowledge_base
set_knowledge_base-Remembers kb st p unchanged found = ground arith

pub add_operating_points-Remembers :
    (ops : OpStream) (st : State) → Remembers (add_operating_points ops st)
unfolding add_operating_points
add_operating_points-Remembers ops st p unchanged found = ground arith

pub remove_operating_points-Remembers :
    (ops : OpStream) (st : State) → Remembers (remove_operating_points ops st)
unfolding remove_operating_points
remove_operating_points-Remembers ops st p unchanged found = ground arith

pub create_sibling-Remembers : (env : Environment) (st : State) → Remembers (create_sibling env st)
unfolding create_sibling
create_sibling-Remembers env st p unchanged found = ground arith

pub set_knowledge_adaptor-Remembers :
    (adaptors : FieldAdaptors) (st : State)
    → Remembers st
    → Remembers (set_knowledge_adaptor adaptors st)
unfolding set_knowledge_adaptor
set_knowledge_adaptor-Remembers adaptors st h p unchanged found = ground (arith, h p)

best-make :
    (objective : RankObjective) (evaluate : OpPtr → Value) (p : OpPtr)
    → Rank.best (Rank.make objective evaluate) ≡ some p
    → ⊥
unfolding Rank.make Rank.best View.make View.front View.back Multimap.front Multimap.back
best-make objective evaluate p e = ground arith

pub set_rank-Remembers :
    (objective : RankObjective) (evaluate : OpPtr → Value) (st : State)
    → Remembers st
    → Remembers (set_rank objective evaluate st)
unfolding set_rank
set_rank-Remembers objective evaluate st h p unchanged found =
    ground (arith, best-make objective evaluate p)

place_constraint-Remembers :
    (priority : ℕ) (higher : ConstraintStack) (new : Constraint) (lower : ConstraintStack)
    (filtered_ops : OpStream) (st : State)
    → Remembers st
    → Remembers (place_constraint priority higher new lower filtered_ops st)
unfolding place_constraint
place_constraint-Remembers priority higher new lower filtered_ops st h p unchanged found =
    ground (arith, h p)

pub add_constraint-Remembers :
    (env : Environment) (goal : Goal) (field : ℕ) (evaluate : OpPtr → Value) (priority : ℕ)
    (kb : OpStream) (adaptors : FieldAdaptors) (st : State)
    → Remembers st
    → Remembers (add_constraint env goal field evaluate priority kb adaptors st)
unfolding add_constraint insert_constraint
add_constraint-Remembers env goal field evaluate priority kb adaptors st h =
    place_constraint-Remembers priority _ _ _ _ st h

drop_constraint-Remembers :
    (higher : ConstraintStack) (found : Constraint) (lower : ConstraintStack) (st : State)
    → Remembers st
    → Remembers (drop_constraint higher found lower st)
unfolding drop_constraint
drop_constraint-Remembers higher found lower st h p unchanged best_found = ground (arith, h p)

remove_found-Remembers :
    (priority : ℕ) (cs : ConstraintStack) (st : State)
    → Remembers st
    → Remembers (remove_found priority cs st)
unfolding remove_found
remove_found-Remembers priority [] st h p unchanged best_found = h p unchanged best_found
remove_found-Remembers priority ((k, found) ∷ lower) st h p unchanged best_found =
    ground
      (arith, h p, drop_constraint-Remembers (before priority st.constraints) found lower st h p)

pub remove_constraint-Remembers :
    (priority : ℕ) (st : State) → Remembers st → Remembers (remove_constraint priority st)
unfolding remove_constraint
remove_constraint-Remembers priority st h =
    remove_found-Remembers priority (lower_bound priority st.constraints) st h

remember-Remembers : (st : State) → Remembers st → Remembers (remember st).0
unfolding remember solve
remember-Remembers st h p unchanged found = ground (arith, h p)

pub get_best_operating_point-Remembers :
    (env : Environment) (st : State) → Remembers st → Remembers (get_best_operating_point env st).0
unfolding get_best_operating_point
get_best_operating_point-Remembers env st h =
    remember-Remembers (update env st) (update-Remembers env st h)
