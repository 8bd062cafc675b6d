-- ===== src/Rank.antt =====
-- margot/include/margot/rank.hpp: class Rank, the valid Operating Points of a state, sorted by the
-- objective function.
pub mod Laws
use margot_project.Base.{
  ℕ, ltb, if◌then◌else◌, Bool, List, [], ◌∷◌, Option, none, some, OpPtr, OpStream, Value,
}
use margot_project.Enums.{RankObjective, maximize, minimize}
use margot_project.View.{View}
use margot_project.View

-- A rank is a view and the template parameter `objective`.
pub record Rank : Type 0 where
  pub objective : RankObjective
  pub view : View

-- `rank_compare<T, objective>::best(lhs, rhs)`
unfoldable pub best_compare : RankObjective → Value → Value → Bool
best_compare maximize lhs rhs = ltb rhs lhs
best_compare minimize lhs rhs = ltb lhs rhs

-- The constructor `Rank(values...)`; the evaluator stands for the fields.
unfoldable pub make : RankObjective → (OpPtr → Value) → Rank
unfolding View.make
make objective evaluate = record { objective = objective; view = View.make evaluate }

-- `create_sibling()`: the same evaluator, no Operating Points.
unfoldable pub create_sibling : Rank → Rank
create_sibling r = record r { view = record View.default { evaluate = r.view.evaluate } }

-- `add(new_ops)`
unfoldable pub add : Rank → OpStream → Rank
add r [] = r
add r (op ∷ ops) = add (record r { view = View.add r.view op }) ops

-- `remove(ops)`
unfoldable pub remove : Rank → OpStream → Rank
remove r [] = r
remove r (op ∷ ops) = remove (record r { view = View.remove r.view op }) ops

-- `clear()`
unfoldable pub clear : Rank → Rank
unfolding View.clear
clear r = record r { view = View.clear r.view }

-- `best()`: `none` is the null pointer.
unfoldable pub best : Rank → Option OpPtr
best r = elim r.objective [ minimize ↦ View.front r.view | maximize ↦ View.back r.view ]

-- The loop of `std::min_element` with the comparator of `best(ops)`: the first of the best elements.
unfoldable pub min_element : Rank → OpPtr → OpStream → OpPtr
min_element r smallest [] = smallest
min_element r smallest (op ∷ ops) =
    min_element r
      (if best_compare r.objective (r.view.evaluate op) (r.view.evaluate smallest)
        then op
        else smallest)
      ops

-- `best(ops)`. The code asserts that the stream is not empty; with the assertion compiled out it would
-- dereference the end iterator, which is `none` here.
unfoldable pub best_of : Rank → OpStream → Option OpPtr
unfolding min_element
best_of r [] = none
best_of r (op ∷ ops) = some (min_element r op ops)

-- `to_stream()`
unfoldable pub to_stream : Rank → OpStream
to_stream r = View.range r.view
