-- ===== src/StatisticalProvider.antt =====
-- margot/include/margot/statistical_provider.hpp: class StatisticalProvider, the window of a monitor with
-- its statistics, each of which is kept until the window changes. The mutex is left out.
pub mod Currency
pub mod Reachable
pub mod Clock
mod Tests
use margot_project.Base.{ℕ, ltb, if◌then◌else◌, Bool, List, [], ◌∷◌, Option, none, some, Value}
use margot_project.Enums.{DataFunctions, average, standard_deviation, maximum, minimum}
use margot_project.CircularBuffer.{CircularBuffer}
use margot_project.CircularBuffer
use margot_project.Statistics.{Numbers}
use margot_project.Statistics

-- A time point is the time since the epoch, at which a default constructed one is.
pub record StatisticalProvider : Type 0 where
  pub base : CircularBuffer Value
  pub average_computed_time : ℕ
  pub stddev_computed_time : ℕ
  pub max_computed_time : ℕ
  pub min_computed_time : ℕ
  pub previous_average : Value
  pub previous_stddev : Value
  pub previous_max : Value
  pub previous_min : Value

-- `value_zero` is `value_type{0}`.
module _ (ops : Numbers) (value_zero : Value) where
  -- The constructor, which leaves `previous_max` as it finds it.
  unfoldable pub make : ℕ → ℕ → Value → StatisticalProvider
  make now size uninitialized = record {
    base = CircularBuffer.make now size;
    average_computed_time = 0;
    stddev_computed_time = 0;
    max_computed_time = 0;
    min_computed_time = 0;
    previous_average = ops.zero;
    previous_stddev = ops.zero;
    previous_max = uninitialized;
    previous_min = value_zero;
  }

  -- `push` and `clear` of the base class
  unfoldable pub push : ℕ → Value → StatisticalProvider → StatisticalProvider
  push now new_value p = record p { base = CircularBuffer.push now new_value p.base }

  unfoldable pub clear : ℕ → StatisticalProvider → StatisticalProvider
  clear now p = record p { base = CircularBuffer.clear now p.base }

  -- `compute_average()`
  unfoldable pub compute_average : StatisticalProvider → StatisticalProvider × Value
  compute_average p = elim p.base.buffer [
    | [] ↦ (p, ops.zero)
    | x ∷ c ↦
        if ltb p.average_computed_time p.base.last_change
        then (
          record p {
            previous_average = Statistics.average ops (x ∷ c);
            average_computed_time = p.base.last_change;
          },
          Statistics.average ops (x ∷ c),
        )
        else (p, p.previous_average)
  ]

  -- `compute_standard_deviation()`
  unfoldable pub compute_standard_deviation : StatisticalProvider → StatisticalProvider × Value
  compute_standard_deviation p = elim p.base.buffer [
    | [] ↦ (p, ops.zero)
    | x ∷ c ↦
        let (p', mean) = compute_average p in
        if ltb p.stddev_computed_time p.base.last_change
        then (
          record p' {
            previous_stddev = Statistics.stddev ops (x ∷ c) mean;
            stddev_computed_time = p.base.last_change;
          },
          Statistics.stddev ops (x ∷ c) mean,
        )
        else (p, p.previous_stddev)
  ]

  -- `compute_max()`
  unfoldable pub compute_max : StatisticalProvider → StatisticalProvider × Value
  compute_max p = elim p.base.buffer [
    | [] ↦ (p, value_zero)
    | x ∷ c ↦
        if ltb p.max_computed_time p.base.last_change
        then (
          record p { previous_max = Statistics.max x c; max_computed_time = p.base.last_change },
          Statistics.max x c,
        )
        else (p, p.previous_max)
  ]

  -- `compute_min()`
  unfoldable pub compute_min : StatisticalProvider → StatisticalProvider × Value
  compute_min p = elim p.base.buffer [
    | [] ↦ (p, value_zero)
    | x ∷ c ↦
        if ltb p.min_computed_time p.base.last_change
        then (
          record p { previous_min = Statistics.min x c; min_computed_time = p.base.last_change },
          Statistics.min x c,
        )
        else (p, p.previous_min)
  ]

  -- `monitor_utils<T, df, statistical_t>::get(buffer, is_valid)` through the methods
  -- `average`, `standard_deviation`, `max` and `min`.
  unfoldable pub compute : DataFunctions → StatisticalProvider → StatisticalProvider × Value
  compute average p = compute_average p
  compute standard_deviation p = compute_standard_deviation p
  compute maximum p = compute_max p
  compute minimum p = compute_min p

  unfoldable pub get : DataFunctions → StatisticalProvider → StatisticalProvider × Value × Bool
  get df p = let (p', v) = compute df p in (p', v, CircularBuffer.valid p.base)
