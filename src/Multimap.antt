-- ===== src/Multimap.antt =====
-- `std::multimap<value_type, OperatingPointPtr>`, the container of a view
-- (margot/include/margot/view.hpp): entries in ascending order of their keys.
pub mod Laws
use margot_project.Base.{
  ℕ, ◌+◌, ◌-◌, ◌≤◌, ◌<◌, ◌≡◌, refl, suc, zero, ◌==◌, ltb, leb, if◌then◌else◌, b2n, Bool, true,
  false, ◌&&◌, List, [], ◌∷◌, Option, none, some, arith, count, OpPtr, OpStream, Value, Bool-cases,
  inl, inr,
}

abbrev pub Entries : Type 0
Entries = List (Value × OpPtr)

-- The pointers, in the order of iteration.
abbrev pub pointers : Entries → OpStream
pointers [] = []
pointers ((k, p) ∷ m) = p ∷ pointers m

-- `emplace(k, p)`: behind the entries whose key is not greater.
unfoldable pub emplace : Value → OpPtr → Entries → Entries
emplace k p [] = (k, p) ∷ []
emplace k p ((j, q) ∷ m) = if ltb k j then (k, p) ∷ (j, q) ∷ m else (j, q) ∷ emplace k p m

-- The entries from `lower_bound(k)` on: the first key that is not less than `k`.
unfoldable pub lower_bound : Value → Entries → Entries
lower_bound k [] = []
lower_bound k ((j, q) ∷ m) = if ltb j k then lower_bound k m else (j, q) ∷ m

-- The entries of a sequence in front of `upper_bound(k)`, the first key that is greater than `k`.
unfoldable pub until_upper : Value → Entries → Entries
until_upper k [] = []
until_upper k ((j, q) ∷ m) = if ltb k j then [] else (j, q) ∷ until_upper k m

-- `begin()->second` and `std::prev(end())->second`, where there is an entry.
unfoldable pub front : Entries → Option OpPtr
front [] = none
front ((k, p) ∷ m) = some p

unfoldable pub back : Entries → Option OpPtr
back [] = none
back ((k, p) ∷ []) = some p
back ((k, p) ∷ e ∷ m) = back (e ∷ m)

-- The entries ascend from `lo` on, and each key is what `f` gives for the pointer.
abbrev pub Ordered : (OpPtr → Value) → Value → Entries → Type 0
Ordered f lo [] = Unit {0}
Ordered f lo ((k, p) ∷ m) = (lo ≤ k) × (k ≡ f p) × Ordered f k m
