-- ===== src/PtrSet.antt =====
-- `std::unordered_set<OperatingPointPtr>`, the blocked Operating Points of a constraint
-- (margot/include/margot/constraint.hpp). Its iteration order is not specified, so it is a list whose
-- order no theorem depends on.
use margot_project.Base.{
  ◌-◌, ◌==◌, ◌≡◌, if◌then◌else◌, Bool, true, false, ◌||◌, [], ◌∷◌, arith, count, OpPtr, OpStream,
}

-- `find(p) != end()`
abbrev pub contains : OpPtr → OpStream → Bool
contains p [] = false
contains p (x ∷ s) = x == p || contains p s

-- `emplace(p)`: a pointer that is present is not added again.
unfoldable pub emplace : OpPtr → OpStream → OpStream
emplace p s = if contains p s then s else p ∷ s

-- `erase(p)`: an absent pointer is no error.
unfoldable pub erase : OpPtr → OpStream → OpStream
erase p [] = []
erase p (x ∷ s) = if x == p then s else x ∷ erase p s

pub contains-count :
    (p : OpPtr) (s : OpStream) → contains p s ≡ (if count p s == 0 then false else true)
contains-count p [] = ground arith
contains-count p (x ∷ s) = ground (arith, contains-count p s)

pub count-emplace :
    (p q : OpPtr) (s : OpStream)
    → count p (emplace q s)
      ≡ (if q == p then (if count p s == 0 then 1 else count p s) else count p s)
unfolding emplace
count-emplace p q s = ground (arith, contains-count p s, contains-count q s)

pub count-erase :
    (p q : OpPtr) (s : OpStream)
    → count p (erase q s) ≡ (if q == p then count p s - 1 else count p s)
unfolding erase
count-erase p q [] = ground arith
count-erase p q (x ∷ s) = ground (arith, count-erase p q s)
