-- ===== src/View.antt =====
-- margot/include/margot/view.hpp: class View, the Operating Points sorted by what an evaluator gives
-- for them. `evaluate` is the member of that name; a method that changes the view returns the new one.
pub mod Laws
use margot_project.Base.{
  ℕ, ◌==◌, if◌then◌else◌, ◌&&◌, is_empty, List, [], ◌∷◌, Option, none, some, OpPtr, OpStream, Value,
  length, min, max, Bool,
}
use margot_project.Multimap.{Entries, pointers, lower_bound, until_upper}
use margot_project.Multimap

pub record View : Type 0 where
  pub evaluate : OpPtr → Value
  pub sorted_knowledge : Entries

-- The constructors: `View(void)` evaluates each Operating Point to zero.
unfoldable pub default : View
default = record { evaluate = λ _. 0; sorted_knowledge = [] }

unfoldable pub make : (OpPtr → Value) → View
make evaluate = record { evaluate = evaluate; sorted_knowledge = [] }

-- `add(new_op)`
unfoldable pub add : View → OpPtr → View
add v new_op = record v {
  sorted_knowledge = Multimap.emplace (v.evaluate new_op) new_op v.sorted_knowledge;
}

-- `add(begin, end)`
unfoldable pub add_all : View → OpStream → View
add_all v [] = v
add_all v (op ∷ ops) = add_all (add v op) ops

-- The loop of `remove`: the first entry of the range of equal keys that holds the pointer is erased.
-- The container ascends, so the range of `equal_range(value)` is made of the entries with that key.
unfoldable pub erase_in_range : Value → OpPtr → Entries → Entries
erase_in_range value target [] = []
erase_in_range value target ((k, p) ∷ m) =
    if k == value && p == target then m else (k, p) ∷ erase_in_range value target m

-- `remove(target_op)`
unfoldable pub remove : View → OpPtr → View
remove v target_op = record v {
  sorted_knowledge = erase_in_range (v.evaluate target_op) target_op v.sorted_knowledge;
}

-- `clear()`
unfoldable pub clear : View → View
clear v = record v { sorted_knowledge = [] }

-- `size()` and `empty()`
unfoldable pub size : View → ℕ
size v = length v.sorted_knowledge

unfoldable pub empty : View → Bool
empty v = is_empty v.sorted_knowledge

-- `evaluate_op(target_op)`
unfoldable pub evaluate_op : View → OpPtr → Value
evaluate_op v target_op = v.evaluate target_op

-- `front()` and `back()`: `none` is the null pointer.
unfoldable pub front : View → Option OpPtr
front v = Multimap.front v.sorted_knowledge

unfoldable pub back : View → Option OpPtr
back v = Multimap.back v.sorted_knowledge

-- `range()`
unfoldable pub range : View → OpStream
range v = pointers v.sorted_knowledge

-- `range(a, b)`
unfoldable pub range_between : View → Value → Value → OpStream
range_between v a b = pointers (until_upper (max a b) (lower_bound (min a b) v.sorted_knowledge))
