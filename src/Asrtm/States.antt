-- ===== src/Asrtm/States.antt =====
-- margot/include/margot/asrtm.hpp: the `std::unordered_map` from ids to states, in the order of its
-- iteration, and what the methods of Asrtm do with it.
use margot_project.Base.{
  ℕ, ◌==◌, if◌then◌else◌, Bool, true, false, List, [], ◌∷◌, Option, none, some,
}
use margot_project.State.{State}

-- The id of a state, up to the `operator==` that the map compares keys with.
abbrev pub StateId : Type 0
StateId = ℕ

abbrev pub StateMap : Type 0
StateMap = List (StateId × State)

-- `find(id)`, with the state that is stored there.
unfoldable pub find_state : StateId → StateMap → Option State
find_state id [] = none
find_state id ((k, st) ∷ l) = if k == id then some st else find_state id l

-- A change of the state behind an iterator.
unfoldable pub set_state : StateId → State → StateMap → StateMap
set_state id new [] = []
set_state id new ((k, st) ∷ l) = if k == id then (k, new) ∷ l else (k, st) ∷ set_state id new l

-- `erase(state_it)`
unfoldable pub erase_state : StateId → StateMap → StateMap
erase_state id [] = []
erase_state id ((k, st) ∷ l) = if k == id then l else (k, st) ∷ erase_state id l

-- The loops that call one method of each state.
unfoldable pub map_states : (State → State) → StateMap → StateMap
map_states f [] = []
map_states f ((k, st) ∷ l) = (k, f st) ∷ map_states f l

-- Two pointers or iterators refer to the same object.
abbrev pub same_point : Option ℕ → Option ℕ → Bool
same_point none none = true
same_point (some a) (some b) = a == b
same_point _ _ = false
