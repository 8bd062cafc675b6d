-- ===== src/State/Knowledge.antt =====
-- A state that splits the knowledge goes on to do so when the knowledge changes: `set_knowledge_base`,
-- `add_operating_points` and `remove_operating_points`.
use margot_project.Base.{
  ◌+◌, ◌-◌, true, false, not, ◌&&◌, ◌||◌, [], ◌∷◌, OpPtr, OpStream, ◌≡◌, refl, arith, count,
  Enumerates, ap,
}
use margot_project.PtrSet.{count-erase}
use margot_project.View
use margot_project.View.{View, range}
use margot_project.View.Laws.{
  IsSorted, add-IsSorted, remove-IsSorted, add_all-IsSorted, count-range-add, count-range-remove,
  count-range-add_all, evaluate-add_all,
}
use margot_project.Constraint
use margot_project.Constraint.{Constraint, achieves}
use margot_project.Constraint.Filters.{passes}
use margot_project.Rank.{Rank, to_stream}
use margot_project.Rank
use margot_project.Rank.Laws.{remove-IsSorted_rank, count-to_stream-remove}
use margot_project.State.{State, add_operating_points, remove_operating_points, set_knowledge_base}
use margot_project.State.Stack.{
  ConstraintStack, add_each, add_to_views, remove_each, remove_from_all, reset_all,
}
use margot_project.State.Pipeline.{OpSet, Views, Pipe, Pipe-cong, push_down-Pipe}

-- The constraints and the rank of a state split the knowledge `K` among themselves.
abbrev pub Splits : OpSet → State → Type 0
Splits K st = Pipe K K st.constraints st.rank

-- A constraint with the same test: its goal, the value that was last checked and its evaluator.
abbrev SameTest : Constraint → Constraint → Type 0
SameTest c d =
    (d.target_goal ≡ c.target_goal)
    × (d.last_check_value ≡ c.last_check_value)
    × (d.knowledge_view.evaluate ≡ c.knowledge_view.evaluate)

passes-SameTest : (c d : Constraint) (p : OpPtr) → SameTest c d → passes d p ≡ passes c p
unfolding achieves View.evaluate_op
passes-SameTest c d p s = cc (s.0, s.1, ap (λ h. h p) s.2)

reset-SameTest :
    (c : Constraint) (kb : OpStream) → SameTest c (Constraint.clear (Constraint.set c kb))
unfolding Constraint.clear Constraint.set View.clear
reset-SameTest c kb = (refl, refl, evaluate-add_all (View.clear c.knowledge_view) kb)

reset-Views :
    (K : OpSet) (c : Constraint) (kb : OpStream)
    → Enumerates kb K
    → Views K (Constraint.clear (Constraint.set c kb))
unfolding Constraint.clear Constraint.set View.clear range
reset-Views K c kb e = (
  add_all-IsSorted (View.clear c.knowledge_view) kb tt,
  λ p. ground (arith, count-range-add_all (View.clear c.knowledge_view) p kb, e p),
)

reset_all-Pipe :
    (K f : OpSet) (cs : ConstraintStack) (r : Rank) (kb : OpStream)
    → Enumerates kb K
    → ((p : OpPtr) → f p ≡ false)
    → Pipe K f (reset_all cs kb) (Rank.clear r)
unfolding reset_all Constraint.clear Rank.clear View.clear to_stream range
reset_all-Pipe K f [] r kb e nothing = (tt, λ p. ground (arith, nothing p))
reset_all-Pipe K f ((k, c) ∷ cs) r kb e nothing = (
  reset-Views K c kb e,
  (λ p. ground (arith, nothing p)),
  reset_all-Pipe K (λ p. f p && passes (Constraint.clear (Constraint.set c kb)) p) cs r kb e
      (λ p. ground (arith, nothing p)),
)

-- After `set_knowledge_base` the constraints and the rank split the new knowledge, whatever the state
-- was before.
pub set_knowledge_base-Splits :
    (K : OpSet) (kb : OpStream) (st : State) → Enumerates kb K → Splits K (set_knowledge_base kb st)
unfolding set_knowledge_base
set_knowledge_base-Splits K kb st e =
    push_down-Pipe K (λ p. false) K (reset_all st.constraints kb) (Rank.clear st.rank) kb
      (λ p t. cc) e (reset_all-Pipe K (λ p. false) st.constraints st.rank kb e (λ p. refl))

add_each-SameTest :
    (c : Constraint) (ops : OpStream)
    → SameTest c (add_each c ops) × ((add_each c ops).blocked_ops ≡ c.blocked_ops)
unfolding add_each Constraint.add View.add
add_each-SameTest c [] = ((refl, refl, refl), refl)
add_each-SameTest c (op ∷ ops) = add_each-SameTest (Constraint.add c op) ops

add_each-view :
    (c : Constraint) (ops : OpStream)
    → IsSorted c.knowledge_view
    → IsSorted (add_each c ops).knowledge_view
      × ((p : OpPtr)
          → count p (range (add_each c ops).knowledge_view)
            ≡ count p ops + count p (range c.knowledge_view))
unfolding add_each Constraint.add
add_each-view c [] o = (o, λ p. omega arith)
add_each-view c (op ∷ ops) o =
    let rest = add_each-view (Constraint.add c op) ops (add-IsSorted c.knowledge_view op o) in
    (rest.0, λ p. ground (arith, rest.1 p, count-range-add c.knowledge_view p op))

add_to_views-Pipe :
    (K f g : OpSet) (cs : ConstraintStack) (r : Rank) (ops : OpStream)
    → ((p : OpPtr) → K p ≡ true → g p ≡ false)
    → Enumerates ops g
    → Pipe K f cs r
    → Pipe (λ p. K p || g p) f (add_to_views cs ops) r
unfolding add_to_views
add_to_views-Pipe K f g [] r ops new e h = h
add_to_views-Pipe K f g ((k, c) ∷ cs) r ops new e h = (
  (view.0, λ p. ground (arith, view.1 p, h.0.1 p, e p, new p)),
  (λ p. ground (arith, same.1, same_test p, h.1 p)),
  Pipe-cong (λ p. K p || g p) _ _ (λ p. ground (arith, same_test p))
      (add_to_views-Pipe K (λ p. f p && passes c p) g cs r ops new e h.2),
)
  where
    view :
        IsSorted (add_each c ops).knowledge_view
        × ((p : OpPtr)
            → count p (range (add_each c ops).knowledge_view)
              ≡ count p ops + count p (range c.knowledge_view))
    view = add_each-view c ops h.0.0

    same : SameTest c (add_each c ops) × ((add_each c ops).blocked_ops ≡ c.blocked_ops)
    same = add_each-SameTest c ops

    same_test : (p : OpPtr) → passes (add_each c ops) p ≡ passes c p
    same_test p = passes-SameTest c (add_each c ops) p same.0

-- After `add_operating_points` with new pointers the state splits the larger knowledge.
pub add_operating_points-Splits :
    (K g : OpSet) (new_ops : OpStream) (st : State)
    → ((p : OpPtr) → K p ≡ true → g p ≡ false)
    → Enumerates new_ops g
    → Splits K st
    → Splits (λ p. K p || g p) (add_operating_points new_ops st)
unfolding add_operating_points
add_operating_points-Splits K g new_ops st new e h =
    push_down-Pipe (λ p. K p || g p) K g (add_to_views st.constraints new_ops) st.rank new_ops new e
      (add_to_views-Pipe K K g st.constraints st.rank new_ops new e h)

remove_each-SameTest : (c : Constraint) (ops : OpStream) → SameTest c (remove_each c ops)
unfolding remove_each Constraint.remove View.remove
remove_each-SameTest c [] = (refl, refl, refl)
remove_each-SameTest c (op ∷ ops) = remove_each-SameTest (Constraint.remove c op) ops

remove_each-holds :
    (c : Constraint) (ops : OpStream)
    → IsSorted c.knowledge_view
    → IsSorted (remove_each c ops).knowledge_view
      × ((p : OpPtr)
          → (count p (range (remove_each c ops).knowledge_view)
              ≡ count p (range c.knowledge_view) - count p ops)
            × (count p (remove_each c ops).blocked_ops ≡ count p c.blocked_ops - count p ops))
unfolding remove_each Constraint.remove
remove_each-holds c [] o = (o, λ p. omega arith)
remove_each-holds c (op ∷ ops) o =
    let rest =
      remove_each-holds (Constraint.remove c op) ops (remove-IsSorted c.knowledge_view op o) in
    (
      rest.0,
      λ p. ground (
        arith,
        rest.1 p,
        count-range-remove c.knowledge_view p op o,
        count-erase p op c.blocked_ops,
      ),
    )

remove_from_all-Pipe :
    (K f g : OpSet) (cs : ConstraintStack) (r : Rank) (ops : OpStream)
    → Enumerates ops g
    → Pipe K f cs r
    → Pipe
        (λ p. K p && not (g p))
        (λ p. f p && not (g p))
        (remove_from_all cs ops)
        (Rank.remove r ops)
unfolding remove_from_all
remove_from_all-Pipe K f g [] r ops e h = (
  remove-IsSorted_rank r ops h.0,
  λ p. ground (arith, count-to_stream-remove r p ops h.0, e p, h.1 p),
)
remove_from_all-Pipe K f g ((k, c) ∷ cs) r ops e h = (
  (holds.0, λ p. ground (arith, holds.1 p, h.0.1 p, e p)),
  (λ p. ground (arith, holds.1 p, h.1 p, e p, same_test p)),
  Pipe-cong (λ p. K p && not (g p)) _ _ (λ p. ground (arith, same_test p))
      (remove_from_all-Pipe K (λ p. f p && passes c p) g cs r ops e h.2),
)
  where
    holds :
        IsSorted (remove_each c ops).knowledge_view
        × ((p : OpPtr)
            → (count p (range (remove_each c ops).knowledge_view)
                ≡ count p (range c.knowledge_view) - count p ops)
              × (count p (remove_each c ops).blocked_ops ≡ count p c.blocked_ops - count p ops))
    holds = remove_each-holds c ops h.0.0

    same_test : (p : OpPtr) → passes (remove_each c ops) p ≡ passes c p
    same_test p = passes-SameTest c (remove_each c ops) p (remove_each-SameTest c ops)

-- After `remove_operating_points` the state splits what is left of the knowledge, also where some of
-- the pointers were not part of it.
pub remove_operating_points-Splits :
    (K g : OpSet) (ops : OpStream) (st : State)
    → Enumerates ops g
    → Splits K st
    → Splits (λ p. K p && not (g p)) (remove_operating_points ops st)
unfolding remove_operating_points
remove_operating_points-Splits K g ops st e h =
    remove_from_all-Pipe K K g st.constraints st.rank ops e h
