-- ===== src/State/Priorities.antt =====
-- A state that splits the knowledge goes on to do so when a constraint is removed.
use margot_project.Base.{
  ℕ, ◌==◌, not, ◌&&◌, is_empty, [], ◌∷◌, ◌++◌, ◌≡◌, refl, arith, subst, sym, Bool-cases, inl, inr,
  Enumerates-is_empty,
}
use margot_project.Constraint
use margot_project.Constraint.{Constraint, filter_initialize, filter_remove}
use margot_project.Constraint.Filters.{passes}
use margot_project.Rank.{Rank}
use margot_project.State.{State, drop_constraint, remove_found, remove_constraint}
use margot_project.State.Stack.{ConstraintStack, before, lower_bound}
use margot_project.State.Pipeline.{
  OpSet, Pipe, Pipe-cong, OpenPipe, OpenPipe-append, push_down-Pipe,
}
use margot_project.State.Knowledge.{Splits}

-- What a row of constraints lets through.
abbrev pub through : ConstraintStack → OpSet → OpSet
through [] f = f
through ((k, c) ∷ cs) f = through cs (λ p. f p && passes c p)

pub Pipe-split :
    (K f : OpSet) (higher cs : ConstraintStack) (r : Rank)
    → Pipe K f (higher ++ cs) r
    → OpenPipe K f higher (through higher f) × Pipe K (through higher f) cs r
Pipe-split K f [] cs r h = ((λ p. refl), h)
Pipe-split K f ((k, c) ∷ higher) cs r h =
    let rest = Pipe-split K (λ p. f p && passes c p) higher cs r h.2 in ((h.0, h.1, rest.0), rest.1)

pub before-append-lower_bound :
    (priority : ℕ) (cs : ConstraintStack) → before priority cs ++ lower_bound priority cs ≡ cs
unfolding before lower_bound
before-append-lower_bound priority [] = refl
before-append-lower_bound priority ((k, c) ∷ cs) =
    ground (arith, before-append-lower_bound priority cs)

-- The state's pipeline, cut at a priority.
pub Splits-at :
    (K : OpSet) (priority : ℕ) (st : State)
    → Splits K st
    → let higher = before priority st.constraints in
      OpenPipe K K higher (through higher K)
      × Pipe K (through higher K) (lower_bound priority st.constraints) st.rank
Splits-at K priority st h =
    Pipe-split K K (before priority st.constraints) (lower_bound priority st.constraints) st.rank (
      subst (λ cs. Pipe K K cs st.rank) (sym (before-append-lower_bound priority st.constraints)) h)

drop_constraint-Splits :
    (K g : OpSet) (higher : ConstraintStack) (k : ℕ) (c : Constraint) (lower : ConstraintStack)
    (st : State)
    → OpenPipe K K higher g
    → Pipe K g ((k, c) ∷ lower) st.rank
    → Splits K (drop_constraint higher c lower st)
unfolding drop_constraint Constraint.to_stream
drop_constraint-Splits K g higher k c lower st o h = elim (Bool-cases (is_empty c.blocked_ops)) [
  | inl nothing ↦ rw nothing (
      OpenPipe-append K K g higher lower st.rank o (
        Pipe-cong K lower st.rank
          (λ p. ground (arith, Enumerates-is_empty c.blocked_ops _ h.1 nothing p)) h.2))
  | inr something ↦ rw something (
      OpenPipe-append K K g higher _ _ o (
        Pipe-cong K _ _ (λ p. ground arith)
          (push_down-Pipe K (λ p. g p && passes c p) (λ p. g p && not (passes c p)) lower st.rank
            c.blocked_ops (λ p t. ground arith) h.1 h.2)))
]

remove_found-Splits :
    (K g : OpSet) (priority : ℕ) (cs : ConstraintStack) (st : State)
    → Splits K st
    → OpenPipe K K (before priority st.constraints) g
    → Pipe K g cs st.rank
    → Splits K (remove_found priority cs st)
unfolding remove_found
remove_found-Splits K g priority [] st h o t = h
remove_found-Splits K g priority ((k, c) ∷ lower) st h o t = elim (Bool-cases (k == priority)) [
  | inl hit ↦ rw hit (drop_constraint-Splits K g (before priority st.constraints) k c lower st o t)
  | inr miss ↦ rw miss h
]

-- After `remove_constraint` the constraints and the rank split the knowledge.
pub remove_constraint-Splits :
    (K : OpSet) (priority : ℕ) (st : State) → Splits K st → Splits K (remove_constraint priority st)
unfolding remove_constraint
remove_constraint-Splits K priority st h =
    let cut = Splits-at K priority st h in
    remove_found-Splits K (through (before priority st.constraints) K) priority
      (lower_bound priority st.constraints) st h cut.0 cut.1
