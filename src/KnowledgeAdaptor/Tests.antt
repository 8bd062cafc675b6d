-- ===== src/KnowledgeAdaptor/Tests.antt =====
-- The table of the adaptors on a concrete application.
use margot_project.Base.{
  ℕ, zero, suc, ◌+◌, ◌-◌, ◌*◌, List, [], ◌∷◌, Option, none, some, ◌≡◌, refl, arith, Value,
}
use mathlib.Core.Option
use margot_project.Enums.{metrics}
use margot_project.Statistics.{Numbers, accumulate, average}
use margot_project.FieldAdaptor.{Promotions, insert, compute, new, fill, error_of}
use margot_project.FieldAdaptor
use margot_project.CircularBuffer.{get_elem?, set_at}
use margot_project.OperatingPoint.{
  BoundNumbers, OperatingPoint, make_segment, op_field_enumerator, op_utils_get, segment_of,
  bound_of, upper_bound, lower_bound, get_standard_deviation,
}
use margot_project.KnowledgeAdaptor.{
  Adaptor, Field, KnowledgeAdaptor, Application, fill_null, empty_table, new_adaptor, emplace,
  get_field_adaptor, evaluate, evaluate_error, slot, extractors, extract,
}
use margot_project.KnowledgeAdaptor.Fields.{
  Calls, constructed, emplaced, evaluated, get_field_adaptor-Calls, Table, write,
}

-- Each quotient is taken as its numerator, which is enough to tell coefficients apart.
abbrev numbers : Numbers
numbers = record {
  zero = 0;
  one = 100;
  of_size = λ n. n;
  of_value = λ v. v;
  plus = λ a b. a + b;
  minus = λ a b. a - b;
  times = λ a b. a * b;
  divide = λ a b. a;
  sqrt = λ a. a;
}

abbrev casts : Promotions
casts = record {
  of_expected = λ v. 100 * v;
  of_observed = λ v. v;
  to_coefficient = λ v. v;
  observed_zero = 0;
}

-- One knob, which is 3, and two metrics, which are 10 with a deviation of 2, and 20.
abbrev configuration : OperatingPoint
configuration = record {
  knobs = make_segment (λ c. 0) (record { mean = 3; standard_deviation = none } ∷ []);
  metrics =
      make_segment (λ c. 0)
        (record { mean = 10; standard_deviation = some 2 }
          ∷ record { mean = 20; standard_deviation = none }
          ∷ []);
}

-- Sums and differences of whole numbers that are small enough to be exact and are not below 0.
abbrev exact : BoundNumbers
exact = record {
  zero = 0;
  of_mean = λ a. a;
  plus = λ a b. a + b;
  minus = λ a b. a - b;
  scale = λ sigma s. sigma * s;
}

abbrev application : Application
application = record {
  number_of_software_knobs = 1;
  number_of_metrics = 2;
  coefficient = numbers;
  numbers = λ s. exact;
  read = λ op. configuration;
}

abbrev first_metric : Field
first_metric = record { segment = metrics; field_index = 0 }

abbrev second_metric : Field
second_metric = record { segment = metrics; field_index = 1 }

-- The first monitor gives 13, which is above the upper bound of the first metric.
abbrev monitors : ℕ → Option Value
monitors zero = some 13
monitors (suc n) = none

abbrev one_adaptor : KnowledgeAdaptor
one_adaptor = emplace application first_metric 2 casts 0 (empty_table application)

abbrev one_table : Table
one_table = write first_metric (new_adaptor application first_metric 2 casts 0) (λ g. none)

abbrev one_adaptor_calls : Calls application one_adaptor one_table
one_adaptor_calls = emplaced first_metric 2 casts 0 (omega arith) constructed

abbrev one_error : KnowledgeAdaptor
one_error = evaluate_error application 0 monitors one_adaptor

abbrev one_error_calls :
    Calls application one_error (λ g. Option.map (evaluate application 0 monitors) (one_table g))
one_error_calls = evaluated 0 monitors one_adaptor_calls

get_field_adaptor-Calls_example :
    get_field_adaptor application first_metric one_error
    ≡ Option.map
        (evaluate application 0 monitors)
        (some (new_adaptor application first_metric 2 casts 0))
get_field_adaptor-Calls_example =
    get_field_adaptor-Calls application one_error_calls first_metric (omega arith)

window_of : Option Adaptor → List Value
window_of none = []
window_of (some a) = a.coefficients.error_window

one_error_window :
    window_of (get_field_adaptor application first_metric one_error) ≡ 1000 ∷ 100 ∷ []
unfolding window_of get_field_adaptor slot evaluate_error evaluate emplace empty_table new_adaptor
    extractors extract fill_null get_elem? set_at op_field_enumerator FieldAdaptor.evaluate_error
    insert compute new fill op_utils_get segment_of make_segment bound_of upper_bound lower_bound
    get_standard_deviation error_of accumulate average
one_error_window = refl
