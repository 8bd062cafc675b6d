-- ===== src/KnowledgeAdaptor.antt =====
-- margot/include/margot/knowledge_adaptor.hpp: class KnowledgeAdaptor, the table of the field adaptors.
mod Tests
pub mod Fields
use margot_project.Base.{
  ℕ, zero, suc, ◌+◌, ◌-◌, List, [], ◌∷◌, map, Option, none, some, OpPtr, Value,
}
use margot_project.Enums.{OperatingPointSegments, BoundType, lower, upper}
use margot_project.CircularBuffer.{set_at, get_elem?}
use margot_project.Statistics.{Numbers}
use margot_project.FieldAdaptor.{OneSigmaAdaptor, Extractors, Promotions}
use margot_project.FieldAdaptor
use margot_project.OperatingPoint.{OperatingPoint, BoundNumbers, op_utils_get, op_field_enumerator}
use mathlib.Core.Option

-- A field adaptor with the arguments of its template, and the monitor whose buffer it reads.
pub record Adaptor : Type 0 where
  pub inertia : ℕ
  pub casts : Promotions
  pub op_utils : Extractors
  pub monitor : ℕ
  pub coefficients : OneSigmaAdaptor

-- The field of an Operating Point that a pair of template arguments stands for.
pub record Field : Type 0 where
  pub segment : OperatingPointSegments
  pub field_index : ℕ

-- A slot of the array is the only owner of its adaptor.
pub record KnowledgeAdaptor : Type 0 where
  pub adaptors : List (Option Adaptor)

unfoldable pub fill_null : ℕ → List (Option Adaptor)
fill_null zero = []
fill_null (suc n) = let rest = fill_null n in none ∷ rest

-- The types of an application: the number of its knobs and metrics, the arithmetic of the coefficients,
-- that of each segment, and the memory that holds the Operating Points.
pub record Application : Type 0 where
  pub number_of_software_knobs : ℕ
  pub number_of_metrics : ℕ
  pub coefficient : Numbers
  pub numbers : OperatingPointSegments → BoundNumbers
  pub read : OpPtr → OperatingPoint

module _ (types : Application) where
  -- What `op_utils` gives; an index out of range is a static assertion, so the default is not used.
  unfoldable pub extract : Field → BoundType → ℕ → OpPtr → Value
  extract f target_bound sigma op =
      elim (op_utils_get (types.numbers f.segment) f.segment target_bound f.field_index sigma
        (types.read op)) [ some v ↦ v | none ↦ (types.numbers f.segment).zero ]

  -- The extractors of the adaptor of a field
  unfoldable pub extractors : Field → Extractors
  extractors f = record {
    upper_bound = extract f upper 1;
    lower_bound = extract f lower 1;
    mean = extract f lower 0;
  }

  -- `op_field_enumerator<OperatingPoint, segment, field_index>::get()`
  unfoldable pub slot : Field → ℕ
  slot f = op_field_enumerator types.number_of_software_knobs f.segment f.field_index

  -- The constructor
  unfoldable pub empty_table : KnowledgeAdaptor
  empty_table = record {
    adaptors = fill_null (types.number_of_software_knobs + types.number_of_metrics);
  }

  -- `new OneSigmaAdaptor<...>(monitor)`
  unfoldable pub new_adaptor : Field → ℕ → Promotions → ℕ → Adaptor
  new_adaptor f inertia casts monitor = record {
    inertia = inertia;
    casts = casts;
    op_utils = extractors f;
    monitor = monitor;
    coefficients = FieldAdaptor.new types.coefficient inertia;
  }

  -- `emplace<target_segment, target_field_index, inertia>(monitor)`
  unfoldable pub emplace : Field → ℕ → Promotions → ℕ → KnowledgeAdaptor → KnowledgeAdaptor
  emplace f inertia casts monitor k = record {
    adaptors = set_at (slot f) (some (new_adaptor f inertia casts monitor)) k.adaptors;
  }

  -- `get_field_adaptor<target_segment, target_field_index>()`: no slot is a static assertion, so `none` is
  -- the null pointer.
  unfoldable pub get_field_adaptor : Field → KnowledgeAdaptor → Option Adaptor
  get_field_adaptor f k = elim (get_elem? k.adaptors (slot f)) [ some a ↦ a | none ↦ none ]

  -- `adaptor->evaluate_error(current_op)`; what each monitor gives is an argument.
  unfoldable pub evaluate : OpPtr → (ℕ → Option Value) → Adaptor → Adaptor
  evaluate current_op monitors a = record a {
    coefficients =
        FieldAdaptor.evaluate_error types.coefficient a.inertia a.casts a.op_utils current_op
          (monitors a.monitor) a.coefficients;
  }

  -- `evaluate_error(current_op)`
  unfoldable pub evaluate_error : OpPtr → (ℕ → Option Value) → KnowledgeAdaptor → KnowledgeAdaptor
  evaluate_error current_op monitors k = record {
    adaptors = map (Option.map (evaluate current_op monitors)) k.adaptors;
  }

  -- `adaptor->clear_observations()`
  unfoldable pub clear_adaptor : Adaptor → Adaptor
  clear_adaptor a = record a {
    coefficients = FieldAdaptor.clear_observations types.coefficient a.inertia a.coefficients;
  }

  -- `reset()`
  unfoldable pub reset : KnowledgeAdaptor → KnowledgeAdaptor
  reset k = record { adaptors = map (Option.map clear_adaptor) k.adaptors }

  -- `clear()`: the array has the length of its type.
  unfoldable pub clear : KnowledgeAdaptor → KnowledgeAdaptor
  clear k = empty_table
