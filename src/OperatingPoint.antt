-- ===== src/OperatingPoint.antt =====
-- margot/include/margot/operating_point.hpp, operating_point_segment.hpp and basic_information_block.hpp: an
-- Operating Point, and the value that is extracted from one of its fields.
use margot_project.Base.{
  ℕ, ◌+◌, ◌==◌, Bool, true, false, if◌then◌else◌, List, [], ◌∷◌, ◌&&◌, Option, none, some, Value,
}
use margot_project.Enums.{OperatingPointSegments, software_knobs, metrics, BoundType, lower, upper}
use margot_project.CircularBuffer.{get_elem?}

-- `Data<T>`, which has no standard deviation, or `Distribution<T>` of basic_information_block.hpp
pub record Data : Type 0 where
  pub mean : Value
  pub standard_deviation : Option Value

pub record OperatingPointSegment : Type 0 where
  pub fields : List Data
  pub hash : ℕ

-- The constructor; the hash function is an argument.
unfoldable pub make_segment : (List Data → ℕ) → List Data → OperatingPointSegment
make_segment compute_hash args = record { fields = args; hash = compute_hash args }

-- `operator==` of two values, which does not compare the standard deviations
unfoldable pub same_data : Data → Data → Bool
same_data lhs rhs = lhs.mean == rhs.mean

-- `operator==` of two arrays
unfoldable pub same_fields : List Data → List Data → Bool
same_fields (x ∷ lhs) (y ∷ rhs) = let rest = same_fields lhs rhs in same_data x y && rest
same_fields [] [] = true
same_fields _ _ = false

-- `operator==` of two segments
unfoldable pub same_segment : OperatingPointSegment → OperatingPointSegment → Bool
same_segment lhs rhs = if lhs.hash == rhs.hash then same_fields lhs.fields rhs.fields else false

pub record OperatingPoint : Type 0 where
  pub knobs : OperatingPointSegment
  pub metrics : OperatingPointSegment

-- `operator==` of two Operating Points
unfoldable pub same_op : OperatingPoint → OperatingPoint → Bool
same_op lhs rhs = same_segment lhs.knobs rhs.knobs

unfoldable pub segment_of : OperatingPointSegments → OperatingPoint → OperatingPointSegment
segment_of software_knobs op = op.knobs
segment_of metrics op = op.metrics

-- The arithmetic of a bound, `mean - sigma * standard_deviation`: `zero` is of the type of the deviation,
-- `scale` multiplies it by the template argument `sigma`, which is not negative, and `of_mean` converts the
-- mean to the type of the whole, `decltype(mean + standard_deviation)`. For a `Distribution` that is a
-- floating type; a `Data` has the deviation `zero`, of the type `int`.
pub record BoundNumbers : Type 0 where
  pub zero : Value
  pub of_mean : Value → Value
  pub plus : Value → Value → Value
  pub minus : Value → Value → Value
  pub scale : ℕ → Value → Value

module _ (ops : BoundNumbers) where
  -- `get_standard_deviation<index>()`
  unfoldable pub get_standard_deviation : Data → Value
  get_standard_deviation d = elim d.standard_deviation [ some s ↦ s | none ↦ ops.zero ]

  -- `get_metric_lower_bound`, `get_knob_lower_bound`, and those of the upper bound, of one field
  unfoldable pub lower_bound : ℕ → Data → Value
  lower_bound sigma d = ops.minus (ops.of_mean d.mean) (ops.scale sigma (get_standard_deviation d))

  unfoldable pub upper_bound : ℕ → Data → Value
  upper_bound sigma d = ops.plus (ops.of_mean d.mean) (ops.scale sigma (get_standard_deviation d))

  -- `op_utils<OperatingPoint, target_segment, target_bound, field_index, sigma>::get(op)`. An index out of
  -- range is a static assertion: `none`.
  unfoldable pub bound_of : BoundType → ℕ → Data → Value
  bound_of lower sigma d = lower_bound sigma d
  bound_of upper sigma d = upper_bound sigma d

  unfoldable pub op_utils_get :
      OperatingPointSegments → BoundType → ℕ → ℕ → OperatingPoint → Option Value
  op_utils_get target_segment target_bound field_index sigma op =
      elim (get_elem? (OperatingPointSegment.fields (segment_of target_segment op)) field_index) [
        | none ↦ none
        | some d ↦ some (bound_of target_bound sigma d)
      ]

-- `op_field_enumerator<OperatingPoint, target_segment, field_index>::get()`
unfoldable pub op_field_enumerator : ℕ → OperatingPointSegments → ℕ → ℕ
op_field_enumerator number_of_software_knobs metrics field_index =
    number_of_software_knobs + field_index
op_field_enumerator number_of_software_knobs software_knobs field_index = field_index
