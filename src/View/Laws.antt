-- ===== src/View/Laws.antt =====
-- A view stays sorted by its evaluator, and holds what was added and not removed.
use margot_project.Base.{
  ◌+◌, ◌-◌, ◌≤◌, ◌<◌, ◌≡◌, refl, ◌==◌, leb, if◌then◌else◌, b2n, ◌&&◌, [], ◌∷◌, none, some, arith,
  count, OpPtr, OpStream, Value, min, max,
}
use margot_project.Multimap.{Entries, pointers, lower_bound, Ordered}
use margot_project.Multimap.Laws.{
  Ordered-le, emplace-Ordered, count-emplace, count-lower_bound, lower_bound-Ordered,
  count-until_upper, front-least, back-greatest, count-front, count-back, front-none, back-none,
}
use margot_project.View.{
  View, add, add_all, erase_in_range, remove, front, back, range, range_between,
}

-- The entries ascend, and each is stored under the value that the evaluator gives for it.
abbrev pub IsSorted : View → Type 0
IsSorted v = Ordered v.evaluate 0 v.sorted_knowledge

pub add-IsSorted : (v : View) (p : OpPtr) → IsSorted v → IsSorted (add v p)
unfolding add
add-IsSorted v p o = emplace-Ordered v.evaluate p 0 v.sorted_knowledge (omega arith) o

pub count-range-add :
    (v : View) (p q : OpPtr) → count p (range (add v q)) ≡ b2n (q == p) + count p (range v)
unfolding add range
count-range-add v p q = count-emplace p q (v.evaluate q) v.sorted_knowledge

pub evaluate-add_all : (v : View) (ops : OpStream) → (add_all v ops).evaluate ≡ v.evaluate
unfolding add_all add
evaluate-add_all v [] = refl
evaluate-add_all v (q ∷ ops) = evaluate-add_all (add v q) ops

pub add_all-IsSorted : (v : View) (ops : OpStream) → IsSorted v → IsSorted (add_all v ops)
unfolding add_all
add_all-IsSorted v [] o = o
add_all-IsSorted v (q ∷ ops) o = add_all-IsSorted (add v q) ops (add-IsSorted v q o)

pub count-range-add_all :
    (v : View) (p : OpPtr) (ops : OpStream)
    → count p (range (add_all v ops)) ≡ count p ops + count p (range v)
unfolding add_all
count-range-add_all v p [] = omega arith
count-range-add_all v p (q ∷ ops) =
    ground (arith, count-range-add_all (add v q) p ops, count-range-add v p q)

erase_in_range-Ordered :
    (f : OpPtr → Value) (w : Value) (p : OpPtr) (lo : Value) (m : Entries)
    → Ordered f lo m
    → Ordered f lo (erase_in_range w p m)
unfolding erase_in_range
erase_in_range-Ordered f w p lo [] o = tt
erase_in_range-Ordered f w p lo ((k, q) ∷ m) o =
    ground (arith, erase_in_range-Ordered f w p k m o.2, Ordered-le f k lo m)

count-erase_in_range :
    (f : OpPtr → Value) (p q : OpPtr) (lo : Value) (m : Entries)
    → Ordered f lo m
    → count p (pointers (erase_in_range (f q) q m))
      ≡ (if q == p then count p (pointers m) - 1 else count p (pointers m))
unfolding erase_in_range
count-erase_in_range f p q lo [] o = ground arith
count-erase_in_range f p q lo ((k, r) ∷ m) o = ground (arith, count-erase_in_range f p q k m o.2)

pub remove-IsSorted : (v : View) (p : OpPtr) → IsSorted v → IsSorted (remove v p)
unfolding remove
remove-IsSorted v p o = erase_in_range-Ordered v.evaluate (v.evaluate p) p 0 v.sorted_knowledge o

pub count-range-remove :
    (v : View) (p q : OpPtr)
    → IsSorted v
    → count p (range (remove v q)) ≡ (if q == p then count p (range v) - 1 else count p (range v))
unfolding remove range
count-range-remove v p q o = count-erase_in_range v.evaluate p q 0 v.sorted_knowledge o

-- On a sorted view, `range(a, b)` holds an Operating Point as often as the view does if its value lies
-- between the two bounds, in either order and both included, and not at all otherwise.
pub count-range_between :
    (v : View) (a b : Value) (p : OpPtr)
    → IsSorted v
    → count p (range_between v a b) ≡ (
        if leb (min a b) (v.evaluate p) && leb (v.evaluate p) (max a b)
        then count p (range v)
        else 0)
unfolding range_between range
count-range_between v a b p o = ground (
  arith,
  count-lower_bound v.evaluate p (min a b) 0 v.sorted_knowledge o,
  count-until_upper v.evaluate p (max a b) 0 (lower_bound (min a b) v.sorted_knowledge)
      (lower_bound-Ordered v.evaluate (min a b) 0 v.sorted_knowledge o),
)

pub range-front-least :
    (v : View) {p : OpPtr} (q : OpPtr)
    → IsSorted v
    → front v ≡ some p
    → 0 < count q (range v)
    → v.evaluate p ≤ v.evaluate q
unfolding front range
range-front-least v {p} q o e h = front-least v.evaluate v.sorted_knowledge 0 p q o e h

pub range-back-greatest :
    (v : View) {p : OpPtr} (q : OpPtr)
    → IsSorted v
    → back v ≡ some p
    → 0 < count q (range v)
    → v.evaluate q ≤ v.evaluate p
unfolding back range
range-back-greatest v {p} q o e h = back-greatest v.evaluate v.sorted_knowledge 0 p q o e h

pub count-range-front : (v : View) {p : OpPtr} → front v ≡ some p → 0 < count p (range v)
unfolding front range
count-range-front v {p} e = count-front v.sorted_knowledge p e

pub count-range-back : (v : View) {p : OpPtr} → back v ≡ some p → 0 < count p (range v)
unfolding back range
count-range-back v {p} e = count-back v.sorted_knowledge p e

pub range-front-none : (v : View) → front v ≡ none → range v ≡ []
unfolding front range
range-front-none v e = ground (arith, front-none v.sorted_knowledge e)

pub range-back-none : (v : View) → back v ≡ none → range v ≡ []
unfolding back range
range-back-none v e = ground (arith, back-none v.sorted_knowledge e)
