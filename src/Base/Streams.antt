-- ===== src/Base/Streams.antt =====
-- Streams of Operating Point pointers (`OPStream`, a vector of shared pointers): how often a
-- pointer occurs in one, and what it means that a stream lists a set without repetition.
use Prim.Native.Nat.{ℕ, suc, ◌+◌}
use mathlib.Core.Path.{◌≡◌}
use mathlib.Core.Bool.{Bool, true, false}
use mathlib.Core.List.{List, [], ◌∷◌, ◌++◌}
use native.Mathlib.Omega.{arith}
use margot_project.Base.Tests.{◌==◌, if◌then◌else◌, b2n, is_empty}

-- A `std::shared_ptr<OperatingPoint>` that is not null, compared by its address.
abbrev pub OpPtr : Type 0
OpPtr = ℕ

abbrev pub OpStream : Type 0
OpStream = List OpPtr

-- A number of a machine type (without the NaNs), by its position in the order of that type.
abbrev pub Value : Type 0
Value = ℕ

abbrev pub count : OpPtr → OpStream → ℕ
count p [] = 0
count p (x ∷ xs) = if x == p then suc (count p xs) else count p xs

pub count-append : (p : OpPtr) (xs ys : OpStream) → count p (xs ++ ys) ≡ count p xs + count p ys
count-append p [] ys = omega arith
count-append p (x ∷ xs) ys = ground (arith, count-append p xs ys)

-- The elements for which a test holds, in their order.
abbrev pub keep : (OpPtr → Bool) → OpStream → OpStream
keep f [] = []
keep f (x ∷ xs) = if f x then x ∷ keep f xs else keep f xs

pub count-keep :
    (p : OpPtr) (f : OpPtr → Bool) (xs : OpStream)
    → count p (keep f xs) ≡ (if f p then count p xs else 0)
count-keep p f [] = ground arith
count-keep p f (x ∷ xs) = ground (arith, count-keep p f xs)

-- The stream lists the pointers of a set, each once.
abbrev pub Enumerates : OpStream → (OpPtr → Bool) → Type 0
Enumerates xs f = (p : OpPtr) → count p xs ≡ b2n (f p)

-- What an empty stream lists.
pub Enumerates-is_empty :
    (xs : OpStream) (f : OpPtr → Bool)
    → Enumerates xs f
    → is_empty xs ≡ true
    → (p : OpPtr) → f p ≡ false
Enumerates-is_empty [] f e h p = ground (arith, e p)
Enumerates-is_empty (x ∷ xs) f e h p = ground arith
