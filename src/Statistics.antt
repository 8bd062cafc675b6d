-- ===== src/Statistics.antt =====
-- margot/include/margot/statistics.hpp: the statistics over a window of observations.
use margot_project.Base.{ℕ, ◌-◌, ltb, if◌then◌else◌, List, [], ◌∷◌, length, Value}

-- The arithmetic of the type of the results, with the conversions of a size and of an observation.
pub record Numbers : Type 0 where
  pub zero : Value
  pub one : Value
  pub of_size : ℕ → Value
  pub of_value : Value → Value
  pub plus : Value → Value → Value
  pub minus : Value → Value → Value
  pub times : Value → Value → Value
  pub divide : Value → Value → Value
  pub sqrt : Value → Value

-- `std::accumulate`
unfoldable pub accumulate : Numbers → List Value → Value → Value
accumulate ops [] sum = sum
accumulate ops (x ∷ c) sum = accumulate ops c (ops.plus sum (ops.of_value x))

-- `average(c)`
unfoldable pub average : Numbers → List Value → Value
average ops c =
    ops.divide (accumulate ops c ops.zero) (ops.of_size (if ltb 1 (length c) then length c else 1))

-- `std::accumulate` with the squares of the distances from the average
unfoldable pub accumulate_squares : Numbers → Value → List Value → Value → Value
accumulate_squares ops average [] summ = summ
accumulate_squares ops average (d ∷ c) summ = accumulate_squares ops average c (
    ops.plus summ
      (ops.times (ops.minus (ops.of_value d) average) (ops.minus (ops.of_value d) average)))

-- `stddev(c, average)`
unfoldable pub stddev : Numbers → List Value → Value → Value
stddev ops c average = ops.sqrt (
    ops.divide (accumulate_squares ops average c ops.zero)
      (ops.of_size (if ltb 1 (length c) then length c - 1 else 1)))

-- `*std::max_element` and `*std::min_element` of a container that is not empty, by its first element and
-- the others
unfoldable pub max : Value → List Value → Value
max largest [] = largest
max largest (x ∷ c) = max (if ltb largest x then x else largest) c

unfoldable pub min : Value → List Value → Value
min smallest [] = smallest
min smallest (x ∷ c) = min (if ltb x smallest then x else smallest) c
