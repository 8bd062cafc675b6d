-- ===== src/State/Solve.antt =====
-- margot/include/margot/state.hpp: `get_best_operating_point`, with `update` run first.
use margot_project.Base.{
  ◌==◌, if◌then◌else◌, false, is_empty, [], ◌∷◌, Option, none, some, OpPtr, OpStream, length,
}
use margot_project.Goal.{Environment}
use margot_project.Constraint.Best.{get_closest, narrow}
use margot_project.Rank.{Rank}
use margot_project.Rank
use margot_project.State.{State}
use margot_project.State.Stack.{ConstraintStack}
use margot_project.State.Update.{update_all}

-- `update()`
unfoldable pub update : Environment → State → State
update env st =
    let u = update_all env st.constraints st.rank st.problem_is_changed in
    record st { constraints = u.constraints; rank = u.rank; problem_is_changed = u.changed }

-- `front()` of a stream that is known to have one element.
unfoldable pub first : OpStream → Option OpPtr
first [] = none
first (op ∷ ops) = some op

-- The loop of `get_best_from_stream` over the constraints of lower priority.
unfoldable pub narrow_down : Rank → ConstraintStack → OpStream → Option OpPtr
narrow_down rank [] ops = Rank.best_of rank ops
narrow_down rank ((k, c) ∷ cs) ops =
    let narrowed = narrow c ops in
    let rest = narrow_down rank cs narrowed in if length narrowed == 1 then first narrowed else rest

-- `get_best_from_stream(input_ops, constraint_it)`
unfoldable pub get_best_from_stream : Rank → ConstraintStack → OpStream → Option OpPtr
get_best_from_stream rank lower ops =
    if length ops == 1 then first ops else narrow_down rank lower ops

-- The loop from the last constraint to the first one: the first stream that is not empty, and the
-- constraints behind the one that it comes from.
unfoldable pub last_closest : ConstraintStack → Option (OpStream × ConstraintStack)
last_closest [] = none
last_closest ((k, c) ∷ cs) = elim (last_closest cs) [
  | some found ↦ some found
  | none ↦ if is_empty (get_closest c) then none else some (get_closest c, cs)
]

-- What `get_best_operating_point` finds when the problem has changed: `none` is the null pointer.
unfoldable pub solve : State → Option OpPtr
solve st = elim (Rank.best st.rank) [
  | some best_op ↦ some best_op
  | none ↦ elim (last_closest st.constraints) [
    | some (ops, lower) ↦ get_best_from_stream st.rank lower ops
    | none ↦ none
  ]
]

-- The part of `get_best_operating_point` behind `update()`.
unfoldable pub remember : State → State × Option OpPtr
remember st =
    if st.problem_is_changed
    then (record st { problem_is_changed = false; best_operating_point_found = solve st }, solve st)
    else (st, st.best_operating_point_found)

-- `get_best_operating_point()`
unfoldable pub get_best_operating_point : Environment → State → State × Option OpPtr
get_best_operating_point env st = remember (update env st)
