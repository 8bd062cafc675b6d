-- ===== src/Rank/Laws.antt =====
-- What a rank holds after its operations, and that `best` is an optimum of the objective.
use margot_project.Base.{
  ◌+◌, ◌-◌, ◌<◌, ◌≡◌, refl, true, [], ◌∷◌, none, some, arith, count, OpPtr, OpStream,
}
use margot_project.View
use margot_project.View.{View}
use margot_project.View.Laws.{
  IsSorted, add-IsSorted, remove-IsSorted, count-range-add, count-range-remove, count-range-front,
  count-range-back, range-front-least, range-back-greatest, range-front-none, range-back-none,
}
use margot_project.Rank.{Rank, best_compare, add, remove, best, min_element, best_of, to_stream}

-- `q` is strictly better than `p` for the objective.
abbrev pub IsBetter : Rank → OpPtr → OpPtr → Type 0
IsBetter r q p = best_compare r.objective (r.view.evaluate q) (r.view.evaluate p) ≡ true

-- What the operations leave alone.
abbrev pub SameCriteria : Rank → Rank → Type 0
SameCriteria r s = (s.objective ≡ r.objective) × (s.view.evaluate ≡ r.view.evaluate)

pub add-SameCriteria : (r : Rank) (ops : OpStream) → SameCriteria r (add r ops)
unfolding add View.add
add-SameCriteria r [] = (refl, refl)
add-SameCriteria r (q ∷ ops) = add-SameCriteria (record r { view = View.add r.view q }) ops

pub remove-SameCriteria : (r : Rank) (ops : OpStream) → SameCriteria r (remove r ops)
unfolding remove View.remove
remove-SameCriteria r [] = (refl, refl)
remove-SameCriteria r (q ∷ ops) = remove-SameCriteria (record r { view = View.remove r.view q }) ops

pub add-IsSorted_rank : (r : Rank) (ops : OpStream) → IsSorted r.view → IsSorted (add r ops).view
unfolding add
add-IsSorted_rank r [] o = o
add-IsSorted_rank r (q ∷ ops) o =
    add-IsSorted_rank (record r { view = View.add r.view q }) ops (add-IsSorted r.view q o)

pub remove-IsSorted_rank :
    (r : Rank) (ops : OpStream) → IsSorted r.view → IsSorted (remove r ops).view
unfolding remove
remove-IsSorted_rank r [] o = o
remove-IsSorted_rank r (q ∷ ops) o =
    remove-IsSorted_rank (record r { view = View.remove r.view q }) ops (remove-IsSorted r.view q o)

pub count-to_stream-add :
    (r : Rank) (p : OpPtr) (ops : OpStream)
    → count p (to_stream (add r ops)) ≡ count p ops + count p (to_stream r)
unfolding add to_stream
count-to_stream-add r p [] = omega arith
count-to_stream-add r p (q ∷ ops) = ground (
  arith,
  count-to_stream-add (record r { view = View.add r.view q }) p ops,
  count-range-add r.view p q,
)

pub count-to_stream-remove :
    (r : Rank) (p : OpPtr) (ops : OpStream)
    → IsSorted r.view
    → count p (to_stream (remove r ops)) ≡ count p (to_stream r) - count p ops
unfolding remove to_stream
count-to_stream-remove r p [] o = omega arith
count-to_stream-remove r p (q ∷ ops) o = ground (
  arith,
  count-to_stream-remove (record r { view = View.remove r.view q }) p ops
      (remove-IsSorted r.view q o),
  count-range-remove r.view p q o,
)

-- The best Operating Point is one of the rank's, and none of them is better.
pub best-IsBetter :
    (r : Rank) (p q : OpPtr)
    → IsSorted r.view
    → best r ≡ some p
    → 0 < count q (to_stream r)
    → ¬ IsBetter r q p
unfolding best to_stream best_compare
best-IsBetter r p q o e h =
    ground (arith, range-front-least r.view {p = p} q o, range-back-greatest r.view {p = p} q o)

pub count-best : (r : Rank) (p : OpPtr) → best r ≡ some p → 0 < count p (to_stream r)
unfolding best to_stream
count-best r p e = ground (arith, count-range-front r.view {p = p}, count-range-back r.view {p = p})

pub best-none : (r : Rank) → best r ≡ none → to_stream r ≡ []
unfolding best to_stream
best-none r e = ground (arith, range-front-none r.view, range-back-none r.view)

min_element-least :
    (r : Rank) (smallest : OpPtr) (ops : OpStream) (q : OpPtr)
    → 0 < count q (smallest ∷ ops)
    → ¬ IsBetter r q (min_element r smallest ops)
unfolding min_element best_compare
min_element-least r smallest [] q h = ground arith
min_element-least r smallest (op ∷ ops) q h = ground (
  arith,
  min_element-least r op ops q,
  min_element-least r smallest ops q,
  min_element-least r op ops op,
  min_element-least r smallest ops smallest,
)

count-min_element :
    (r : Rank) (smallest : OpPtr) (ops : OpStream)
    → 0 < count (min_element r smallest ops) (smallest ∷ ops)
unfolding min_element
count-min_element r smallest [] = ground arith
count-min_element r smallest (op ∷ ops) =
    ground (arith, count-min_element r op ops, count-min_element r smallest ops)

-- The best of a stream that is not empty is one of the stream, and none of the stream is better.
best_of-IsBetter :
    (r : Rank) (op : OpPtr) (ops : OpStream)
    → (p : OpPtr) × (best_of r (op ∷ ops) ≡ some p)
      × (0 < count p (op ∷ ops))
      × ((q : OpPtr) → 0 < count q (op ∷ ops) → ¬ IsBetter r q p)
unfolding best_of
best_of-IsBetter r op ops =
    (min_element r op ops, refl, count-min_element r op ops, λ q h. min_element-least r op ops q h)
