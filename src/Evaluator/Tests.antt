-- ===== src/Evaluator/Tests.antt =====
-- The evaluator on a concrete Operating Point.
use margot_project.Base.{◌+◌, ◌-◌, ◌*◌, [], ◌∷◌, none, some, ◌≡◌, refl}
use margot_project.Enums.{software_knobs, metrics, lower, upper, linear, simple}
use margot_project.OperatingPoint.{
  BoundNumbers, OperatingPoint, make_segment, op_utils_get, segment_of, bound_of, upper_bound,
  lower_bound, get_standard_deviation,
}
use margot_project.CircularBuffer.{get_elem?}
use margot_project.Evaluator.{
  OpField, Arithmetic, value_extractor, term, compose, evaluate_fields, evaluate,
}

-- Sums and differences of whole numbers that are small enough to be exact and are not below 0.
abbrev exact : BoundNumbers
exact = record {
  zero = 0;
  of_mean = λ a. a;
  plus = λ a b. a + b;
  minus = λ a b. a - b;
  scale = λ sigma s. sigma * s;
}

abbrev point : OperatingPoint
point = record {
  knobs = make_segment (λ c. 0) (record { mean = 1; standard_deviation = none } ∷ []);
  metrics = make_segment (λ c. 0) (record { mean = 10; standard_deviation = some 2 } ∷ []);
}

abbrev operators : Arithmetic
operators = record {
  weigh = λ a b. a * b;
  pow = λ a b. a;
  plus = λ a b. a + b;
  times = λ a b. a * b;
}

-- Three times the lower bound of the metric at two deviations, and the knob
abbrev weighted_metric : OpField
weighted_metric = record {
  target_segment = metrics;
  target_bound = lower;
  field_index = 0;
  sigma = 2;
  coefficient = 3;
}

abbrev knob : OpField
knob = record {
  target_segment = software_knobs;
  target_bound = upper;
  field_index = 0;
  sigma = 0;
  coefficient = 1;
}

point_evaluates :
    evaluate (λ s. exact) operators linear (weighted_metric ∷ knob ∷ []) point ≡ some 19
unfolding evaluate evaluate_fields value_extractor term compose op_utils_get segment_of make_segment
    get_elem? bound_of upper_bound lower_bound get_standard_deviation
point_evaluates = refl

-- There is no simple evaluator of two fields.
point_refuses : evaluate (λ s. exact) operators simple (weighted_metric ∷ knob ∷ []) point ≡ none
unfolding evaluate
point_refuses = refl
