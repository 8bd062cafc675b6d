-- ===== src/State/Settings.antt =====
-- The methods of a state that change neither its constraints' tests nor the knowledge: `set_rank`,
-- `set_knowledge_adaptor`, `get_best_operating_point`; and its `create_sibling`.
use margot_project.Base.{
  false, ◌&&◌, is_empty, [], ◌∷◌, OpPtr, Value, ◌≡◌, refl, arith, count, Bool-cases, inl, inr,
}
use margot_project.Enums.{RankObjective}
use margot_project.Goal.{Environment}
use margot_project.View
use margot_project.View.{range}
use margot_project.View.Laws.{IsSorted}
use margot_project.Constraint
use margot_project.Constraint.{Constraint, FieldAdaptors, achieves}
use margot_project.Constraint.Filters.{passes}
use margot_project.Rank.{Rank, to_stream}
use margot_project.Rank
use margot_project.Rank.Laws.{add-IsSorted_rank, count-to_stream-add}
use margot_project.State.{State, set_rank, set_knowledge_adaptor, create_sibling}
use margot_project.State.Stack.{ConstraintStack, set_adaptors, siblings}
use margot_project.State.Pipeline.{OpSet, Pipe}
use margot_project.State.Knowledge.{Splits}
use margot_project.State.Refresh.{is_empty-count}
use margot_project.State.Current.{update-Splits}
use margot_project.State.Solve.{update, remember, get_best_operating_point}

-- A rank with the same Operating Points can take the place of another.
Pipe-rank :
    (K f : OpSet) (cs : ConstraintStack) (r s : Rank)
    → IsSorted s.view
    → ((p : OpPtr) → count p (to_stream s) ≡ count p (to_stream r))
    → Pipe K f cs r
    → Pipe K f cs s
Pipe-rank K f [] r s o e h = (o, λ p. ground (arith, e p, h.1 p))
Pipe-rank K f ((k, c) ∷ cs) r s o e h =
    (h.0, h.1, Pipe-rank K (λ p. f p && passes c p) cs r s o e h.2)

make_lem :
    (objective : RankObjective) (evaluate : OpPtr → Value)
    → IsSorted (Rank.make objective evaluate).view
      × ((p : OpPtr) → count p (to_stream (Rank.make objective evaluate)) ≡ 0)
unfolding Rank.make View.make to_stream range
make_lem objective evaluate = (tt, λ p. refl)

pub set_rank-Splits :
    (K : OpSet) (objective : RankObjective) (evaluate : OpPtr → Value) (st : State)
    → Splits K st
    → Splits K (set_rank objective evaluate st)
unfolding set_rank
set_rank-Splits K objective evaluate st h =
    let fresh = make_lem objective evaluate in
    let valid_ops = to_stream st.rank in
    elim (Bool-cases (is_empty valid_ops)) [
      | inl nothing ↦ rw nothing (
          Pipe-rank K K st.constraints st.rank (Rank.make objective evaluate) fresh.0
            (λ p. ground (arith, fresh.1 p, is_empty-count p valid_ops nothing)) h)
      | inr something ↦ rw something (
          Pipe-rank K K st.constraints st.rank (Rank.add (Rank.make objective evaluate) valid_ops)
            (add-IsSorted_rank (Rank.make objective evaluate) valid_ops fresh.0)
            (λ p.
              ground
                (arith, fresh.1 p, count-to_stream-add (Rank.make objective evaluate) p valid_ops))
            h)
    ]

passes-set_field_adaptor :
    (c : Constraint) (adaptors : FieldAdaptors) (p : OpPtr)
    → passes (Constraint.set_field_adaptor c adaptors) p ≡ passes c p
unfolding Constraint.set_field_adaptor achieves
passes-set_field_adaptor c adaptors p = refl

set_adaptors-Pipe :
    (K f : OpSet) (cs : ConstraintStack) (r : Rank) (adaptors : FieldAdaptors)
    → Pipe K f cs r
    → Pipe K f (set_adaptors cs adaptors) r
unfolding set_adaptors Constraint.set_field_adaptor achieves
set_adaptors-Pipe K f [] r adaptors h = h
set_adaptors-Pipe K f ((k, c) ∷ cs) r adaptors h =
    (h.0, h.1, set_adaptors-Pipe K (λ p. f p && passes c p) cs r adaptors h.2)

pub set_knowledge_adaptor-Splits :
    (K : OpSet) (adaptors : FieldAdaptors) (st : State)
    → Splits K st
    → Splits K (set_knowledge_adaptor adaptors st)
unfolding set_knowledge_adaptor
set_knowledge_adaptor-Splits K adaptors st h =
    set_adaptors-Pipe K K st.constraints st.rank adaptors h

siblings-Pipe :
    (K f : OpSet) (env : Environment) (cs : ConstraintStack) (r : Rank)
    → ((p : OpPtr) → K p ≡ false)
    → ((p : OpPtr) → f p ≡ false)
    → Pipe K f (siblings env cs) (Rank.create_sibling r)
unfolding siblings Constraint.create_sibling Constraint.make Rank.create_sibling View.make
    View.default to_stream range
siblings-Pipe K f env [] r none_known none_left = (tt, λ p. ground (arith, none_left p))
siblings-Pipe K f env ((k, c) ∷ cs) r none_known none_left = (
  (tt, λ p. ground (arith, none_known p)),
  (λ p. ground (arith, none_left p)),
  siblings-Pipe K (λ p. f p && passes (Constraint.create_sibling env c) p) env cs r none_known
      (λ p. ground (arith, none_left p)),
)

-- A sibling starts without knowledge.
pub create_sibling-Splits :
    (K : OpSet) (env : Environment) (st : State)
    → ((p : OpPtr) → K p ≡ false)
    → Splits K (create_sibling env st)
unfolding create_sibling
create_sibling-Splits K env st none_known =
    siblings-Pipe K K env st.constraints st.rank none_known none_known

remember-Splits : (K : OpSet) (st : State) → Splits K st → Splits K (remember st).0
unfolding remember
remember-Splits K st h = elim (Bool-cases st.problem_is_changed) [
  | inl changed ↦ rw changed h
  | inr unchanged ↦ rw unchanged h
]

pub get_best_operating_point-Splits :
    (K : OpSet) (env : Environment) (st : State)
    → Splits K st
    → Splits K (get_best_operating_point env st).0
unfolding get_best_operating_point
get_best_operating_point-Splits K env st h =
    remember-Splits K (update env st) (update-Splits K env st h).0
