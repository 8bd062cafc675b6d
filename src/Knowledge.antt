-- ===== src/Knowledge.antt =====
-- margot/include/margot/knowledge_base.hpp: class Knowledge, the Operating Points by their configuration.
pub mod Laws
use margot_project.Base.{
  ℕ, ◌==◌, if◌then◌else◌, Bool, is_empty, List, [], ◌∷◌, Option, none, some, OpPtr, OpStream,
  length,
}

-- A configuration, up to the `operator==` that the map compares keys with.
abbrev pub Configuration : Type 0
Configuration = ℕ

-- The `std::unordered_map` from configurations to pointers, in the order of its iteration.
abbrev pub OperatingPointList : Type 0
OperatingPointList = List (Configuration × OpPtr)

pub record Knowledge : Type 0 where
  pub knowledge : OperatingPointList

-- `find(conf)`, with the pointer that is stored there.
unfoldable pub find_in : Configuration → OperatingPointList → Option OpPtr
find_in conf [] = none
find_in conf ((c, p) ∷ l) = if c == conf then some p else find_in conf l

unfoldable pub erase_in : Configuration → OperatingPointList → OperatingPointList
erase_in conf [] = []
erase_in conf ((c, p) ∷ l) = if c == conf then l else (c, p) ∷ erase_in conf l

unfoldable pub empty_knowledge : Knowledge
empty_knowledge = record { knowledge = [] }

-- `get_knobs()` of the Operating Point behind a pointer.
module _ (get_knobs : OpPtr → Configuration) where
  -- `add(new_operating_point)`, both methods. The one that takes an Operating Point copies it first:
  -- `op` is then the pointer to the copy. `none` is the null pointer.
  unfoldable pub add : Knowledge → OpPtr → Knowledge × Option OpPtr
  add k op = elim (find_in (get_knobs op) k.knowledge) [
    | some _ ↦ (k, none)
    | none ↦ (record { knowledge = (get_knobs op, op) ∷ k.knowledge }, some op)
  ]

-- `remove(conf)`
unfoldable pub remove : Knowledge → Configuration → Knowledge × Option OpPtr
remove k conf = elim (find_in conf k.knowledge) [
  | some removed_op ↦ (record { knowledge = erase_in conf k.knowledge }, some removed_op)
  | none ↦ (k, none)
]

-- `remove(op)`, both methods.
unfoldable pub remove_op : (OpPtr → Configuration) → Knowledge → OpPtr → Knowledge × Option OpPtr
remove_op get_knobs k op = remove k (get_knobs op)

-- `set(new_list)`: the lists are swapped.
unfoldable pub set : Knowledge → OperatingPointList → Knowledge × OperatingPointList
set k new_list = (record { knowledge = new_list }, k.knowledge)

-- `clear()`
unfoldable pub clear : Knowledge → Knowledge
clear k = record { knowledge = [] }

-- `to_stream()`
unfoldable pub stream_of : OperatingPointList → OpStream
stream_of [] = []
stream_of ((c, p) ∷ l) = p ∷ stream_of l

unfoldable pub to_stream : Knowledge → OpStream
to_stream k = stream_of k.knowledge

-- `empty()` and `size()`
unfoldable pub empty : Knowledge → Bool
empty k = is_empty k.knowledge

unfoldable pub size : Knowledge → ℕ
size k = length k.knowledge
