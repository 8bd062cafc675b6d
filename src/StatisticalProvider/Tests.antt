-- ===== src/StatisticalProvider/Tests.antt =====
-- A window of two observations, and the theorems at it.
use margot_project.Base.{◌+◌, ◌-◌, ◌*◌, ◌≡◌, refl, arith}
use margot_project.Enums.{average}
use margot_project.CircularBuffer
use margot_project.Statistics.{Numbers}
use margot_project.Statistics
use margot_project.StatisticalProvider.{
  StatisticalProvider, make, push, compute, compute_average, get,
}
use margot_project.StatisticalProvider.Reachable.{Reachable, fresh, pushes, asks, get-Reachable}
use margot_project.StatisticalProvider.Clock.{push_at_once}

abbrev numbers : Numbers
numbers = record {
  zero = 0;
  one = 1;
  of_size = λ n. n;
  of_value = λ v. v;
  plus = λ a b. a + b;
  minus = λ a b. a - b;
  times = λ a b. a * b;
  divide = λ a b. a;
  sqrt = λ a. a;
}

-- Two observations, with a question for the average between them.
abbrev asked : StatisticalProvider
asked = (compute numbers 0 average (push numbers 0 3 40 (make numbers 0 2 2 7))).0

abbrev observed : StatisticalProvider
observed = push numbers 0 5 30 asked

observed-Reachable : Reachable numbers 0 observed
unfolding compute compute_average push make CircularBuffer.push CircularBuffer.make
observed-Reachable =
    pushes 5 30 (omega arith) (asks average (pushes 3 40 (omega arith) (fresh 2 2 7 (omega arith))))

get-Reachable_example :
    ((get numbers 0 average observed).1 ≡ 70)
    × ((get numbers 0 average observed).2 ≡ CircularBuffer.valid observed.base)
    × ((get numbers 0 average observed).0.base ≡ observed.base)
unfolding compute compute_average push make CircularBuffer.push CircularBuffer.make
    CircularBuffer.valid Statistics.average Statistics.accumulate
get-Reachable_example = get-Reachable numbers 0 average observed observed-Reachable

push_at_once_example :
    (get numbers 0 average
      (push numbers 0 observed.base.last_change 90 (get numbers 0 average observed).0)).1
    ≡ 70
unfolding compute compute_average push make CircularBuffer.push CircularBuffer.make
    Statistics.average Statistics.accumulate
push_at_once_example = push_at_once numbers 0 observed 90 observed-Reachable refl
