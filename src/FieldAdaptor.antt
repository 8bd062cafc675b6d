-- ===== src/FieldAdaptor.antt =====
-- margot/include/margot/field_adaptor.hpp: class OneSigmaAdaptor, the error coefficient of a field.
mod Tests
pub mod Window
pub mod Bounds
use margot_project.Base.{
  ℕ, zero, suc, ltb, ◌==◌, ◌||◌, if◌then◌else◌, List, [], ◌∷◌, Option, none, some, OpPtr, Value,
}
use margot_project.CircularBuffer.{set_at}
use margot_project.Statistics.{Numbers, average}

-- `std::array::fill`
unfoldable pub fill : ℕ → Value → List Value
fill zero v = []
fill (suc n) v = let rest = fill n v in v ∷ rest

pub record OneSigmaAdaptor : Type 0 where
  pub error_window : List Value
  pub average_coefficient_error : Value
  pub next_element : ℕ

-- What the adaptor reads from an Operating Point: the bounds of the field, one standard deviation around
-- its mean, and its mean.
pub record Extractors : Type 0 where
  pub upper_bound : OpPtr → Value
  pub lower_bound : OpPtr → Value
  pub mean : OpPtr → Value

-- The promotions before the division, and the conversion of its result.
pub record Promotions : Type 0 where
  pub of_expected : Value → Value
  pub of_observed : Value → Value
  pub to_coefficient : Value → Value
  pub observed_zero : Value

-- `error`, with the padding against a division by zero
unfoldable pub error_of : Numbers → Promotions → Value → Value → Value
error_of ops casts expected_average_value observed_value =
    let padding = if observed_value == casts.observed_zero then ops.one else ops.zero in
    casts.to_coefficient (
      ops.divide (ops.plus (casts.of_expected expected_average_value) padding)
        (ops.plus (casts.of_observed observed_value) padding))

-- `compute(op, coefficient_is_valid)`. What the monitor gives is an argument, `none` if it is not valid.
unfoldable pub compute : Numbers → Promotions → Extractors → OpPtr → Option Value → Option Value
compute ops casts op_utils op none = none
compute ops casts op_utils op (some observed_value) = some (
    if ltb (op_utils.upper_bound op) observed_value || ltb observed_value (op_utils.lower_bound op)
    then error_of ops casts (op_utils.mean op) observed_value
    else ops.one)

module _ (ops : Numbers) (inertia : ℕ) where
  -- The constructor
  unfoldable pub new : OneSigmaAdaptor
  new = record {
    error_window = fill inertia ops.one;
    average_coefficient_error = ops.one;
    next_element = 0;
  }

  -- The end of `evaluate_error`: a valid coefficient enters the window.
  unfoldable pub insert : Option Value → OneSigmaAdaptor → OneSigmaAdaptor
  insert none a = a
  insert (some new_coefficient) a =
      let error_window' = set_at a.next_element new_coefficient a.error_window in
      record {
        error_window = error_window';
        average_coefficient_error = average ops error_window';
        next_element = if suc a.next_element == inertia then 0 else suc a.next_element;
      }

  -- `evaluate_error(op)`
  unfoldable pub evaluate_error :
      Promotions → Extractors → OpPtr → Option Value → OneSigmaAdaptor → OneSigmaAdaptor
  evaluate_error casts op_utils op observed a = insert (compute ops casts op_utils op observed) a

  -- `get_error_coefficient()`
  unfoldable pub get_error_coefficient : OneSigmaAdaptor → Value
  get_error_coefficient a = a.average_coefficient_error

  -- `clear_observations()`
  unfoldable pub clear_observations : OneSigmaAdaptor → OneSigmaAdaptor
  clear_observations a = record a { error_window = fill inertia ops.one }
