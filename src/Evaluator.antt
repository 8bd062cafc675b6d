-- ===== src/Evaluator.antt =====
-- margot/include/margot/evaluator.hpp: the value of an Operating Point that ranks and constraints compare.
mod Tests
use margot_project.Base.{ℕ, List, [], ◌∷◌, Option, none, some, Value, ◌>>=◌}
use margot_project.Enums.{
  OperatingPointSegments, BoundType, FieldComposer, simple, linear, geometric,
}
use margot_project.OperatingPoint.{OperatingPoint, BoundNumbers, op_utils_get}

-- `OPField<segment, bound, field, sigma_std, T>`
pub record OpField : Type 0 where
  pub target_segment : OperatingPointSegments
  pub target_bound : BoundType
  pub field_index : ℕ
  pub sigma : ℕ
  pub coefficient : Value

-- The arithmetic of the promoted types: the operators between a field, a coefficient and a result.
pub record Arithmetic : Type 0 where
  pub weigh : Value → Value → Value
  pub pow : Value → Value → Value
  pub plus : Value → Value → Value
  pub times : Value → Value → Value

module _ (numbers : OperatingPointSegments → BoundNumbers) (ops : Arithmetic) where
  -- `value_extractor::get(target_op)`
  unfoldable pub value_extractor : OpField → OperatingPoint → Option Value
  value_extractor field target_op =
      op_utils_get (numbers field.target_segment) field.target_segment field.target_bound
        field.field_index field.sigma target_op

  -- What a field contributes: `get(target_op) * field.coefficient` or `std::pow(get(target_op), coefficient)`
  unfoldable pub term : FieldComposer → OpField → Value → Value
  term simple field v = v
  term linear field v = ops.weigh v field.coefficient
  term geometric field v = ops.pow v field.coefficient

  -- The operator between a contribution and the rest
  unfoldable pub compose : FieldComposer → Value → Value → Value
  compose simple v rest = v
  compose linear v rest = ops.plus v rest
  compose geometric v rest = ops.times v rest

  -- `Evaluator<OperatingPoint, composer, Field, Fields...>::evaluate(target_op, field, other...)`. There is no
  -- evaluator without fields, and no simple one with more than one: `none`.
  unfoldable pub evaluate_fields :
      FieldComposer → OpField → List OpField → OperatingPoint → Option Value
  evaluate_fields composer field [] target_op = do
    v ← value_extractor field target_op
    some (term composer field v)
  evaluate_fields composer field (next ∷ other) target_op = do
    v ← value_extractor field target_op
    rest ← evaluate_fields composer next other target_op
    some (compose composer (term composer field v) rest)

  unfoldable pub evaluate : FieldComposer → List OpField → OperatingPoint → Option Value
  evaluate composer [] target_op = none
  evaluate simple (field ∷ []) target_op = evaluate_fields simple field [] target_op
  evaluate simple (field ∷ (next ∷ other)) target_op = none
  evaluate linear (field ∷ other) target_op = evaluate_fields linear field other target_op
  evaluate geometric (field ∷ other) target_op = evaluate_fields geometric field other target_op
