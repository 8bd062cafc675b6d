-- ===== src/Goal.antt =====
-- margot/include/margot/goal.hpp: the comparison of a value with a goal, and what is read through
-- shared pointers when a constraint is updated.
use margot_project.Base.{ℕ, ltb, leb, ◌==◌, Bool, true, false, Value}
use margot_project.Enums.{ComparisonFunctions, less, less_or_equal, greater, greater_or_equal}

-- `helper::goal<cf>::compare(value, goal)`
unfoldable pub compare : ComparisonFunctions → Value → Value → Bool
compare greater value goal = ltb goal value
compare greater_or_equal value goal = leb goal value
compare less value goal = ltb value goal
compare less_or_equal value goal = leb value goal

-- `Goal<T, cf>`: the template parameter, and the shared pointer to the value, an address.
pub record Goal : Type 0 where
  pub comparison_function : ComparisonFunctions
  pub goal_value : ℕ

-- `check(value1, value2)`
unfoldable pub check : Goal → Value → Value → Bool
unfolding compare
check g value1 value2 = compare g.comparison_function value1 value2

-- What others may change between two calls, and the arithmetic of the machine: the goal values by
-- address, the error coefficients of the field adaptors by address, the product and the number one.
pub record Environment : Type 0 where
  pub goal_value_at : ℕ → Value
  pub coefficient_at : ℕ → Value
  pub times : Value → Value → Value
  pub one : Value

-- `get()` and `set(new_value)`
unfoldable pub get : Environment → Goal → Value
get env g = env.goal_value_at g.goal_value

unfoldable pub set : Environment → Goal → Value → Environment
set env g new_value = record env {
  goal_value_at = λ a. elim (a == g.goal_value) [ true ↦ new_value | false ↦ env.goal_value_at a ];
}
