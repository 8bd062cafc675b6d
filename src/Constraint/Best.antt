-- ===== src/Constraint/Best.antt =====
-- margot/include/margot/constraint.hpp: the streams that a constraint offers when no Operating Point is
-- valid, `get_closest` and `narrow`.
pub mod Laws
use margot_project.Base.{
  ℕ, ◌+◌, ◌-◌, ◌≤◌, ◌<◌, ◌≡◌, refl, suc, ◌==◌, leb, if◌then◌else◌, b2n, ◌&&◌, List, [], ◌∷◌, Option,
  none, some, arith, count, OpPtr, OpStream, Value, min, max, count-append, Enumerates, Bool, true,
  false, not, ◌≢◌, ◌++◌, is_empty, ◌||◌, ◌⊎◌,
}
use margot_project.Goal.{check, compare}
use margot_project.View.{evaluate_op}
use margot_project.Constraint.{Constraint, achieves}

-- The loop of `get_closest`: the closest ones so far, and their value.
unfoldable pub closest_loop : Constraint → OpStream → Value → OpStream → OpStream × Value
closest_loop c closest_ops closest_value [] = (closest_ops, closest_value)
closest_loop c closest_ops closest_value (op ∷ ops) =
    let op_value = evaluate_op c.knowledge_view op in
    let better = check c.target_goal op_value closest_value in
    closest_loop c
      (if op_value == closest_value
        then closest_ops ++ (op ∷ [])
        else if better
        then op ∷ []
        else closest_ops)
      (if op_value == closest_value
        then closest_value
        else if better
        then op_value
        else closest_value)
      ops

-- `get_closest()`, over a list of what is blocked.
unfoldable pub closest_of : Constraint → OpStream → OpStream
closest_of c [] = []
closest_of c (op ∷ ops) = (closest_loop c (op ∷ []) (evaluate_op c.knowledge_view op) ops).0

unfoldable pub get_closest : Constraint → OpStream
get_closest c = closest_of c c.blocked_ops

-- The variables of the loop of `narrow`.
pub record Narrowed : Type 0 where
  pub best_ops : OpStream
  pub best_value : Value
  pub best_is_valid : Bool

-- One round of the loop of `narrow`.
unfoldable pub narrow_step : Constraint → Narrowed → OpPtr → Narrowed
narrow_step c n op =
    let op_value = evaluate_op c.knowledge_view op in
    if achieves c c.last_check_value op
    then record n {
      best_ops = (if n.best_is_valid then n.best_ops else []) ++ (op ∷ []);
      best_is_valid = true;
    }
    else if not n.best_is_valid && op_value == n.best_value
    then record n { best_ops = n.best_ops ++ (op ∷ []) }
    else if not n.best_is_valid && check c.target_goal op_value n.best_value
    then record n { best_ops = op ∷ []; best_value = op_value }
    else n

unfoldable pub narrow_loop : Constraint → Narrowed → OpStream → Narrowed
narrow_loop c n [] = n
narrow_loop c n (op ∷ ops) = narrow_loop c (narrow_step c n op) ops

unfoldable pub narrow_from : Constraint → OpPtr → OpStream → Narrowed
narrow_from c op ops =
    narrow_loop c
      (record {
        best_ops = op ∷ [];
        best_value = evaluate_op c.knowledge_view op;
        best_is_valid = achieves c c.last_check_value op;
      })
      ops

-- `narrow(ops)`
unfoldable pub narrow : Constraint → OpStream → OpStream
narrow c [] = []
narrow c (op ∷ ops) = (narrow_from c op ops).best_ops
