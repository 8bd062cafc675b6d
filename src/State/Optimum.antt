-- ===== src/State/Optimum.antt =====
-- What `get_best_operating_point` returns.
use margot_project.Base.{
  true, false, ◌&&◌, [], ◌∷◌, some, OpPtr, ◌≡◌, arith, count, Enumerates, b2n, sym, ◌∙◌, inl, inr,
  ap, Option-cases,
}
use margot_project.Goal.{Environment}
use margot_project.View.Laws.{IsSorted}
use margot_project.Constraint.Filters.{passes}
use margot_project.Rank
use margot_project.Rank.{Rank, to_stream}
use margot_project.Rank.Laws.{IsBetter, SameCriteria, best-IsBetter, count-best, best-none}
use margot_project.State.{State}
use margot_project.State.Stack.{ConstraintStack}
use margot_project.State.Pipeline.{OpSet, Pipe}
use margot_project.State.Knowledge.{Splits}
use margot_project.State.Priorities.{through}
use margot_project.State.Current.{update-Splits}
use margot_project.State.Problem.{achieves_all, through-IsCurrent, update-same}
use margot_project.State.Solve.{update, solve, remember, get_best_operating_point}

-- While no change is noted, the Operating Point that was found is still the best of the rank.
abbrev pub Remembers : State → Type 0
Remembers st =
    (p : OpPtr)
    → st.problem_is_changed ≡ false
    → Rank.best st.rank ≡ some p
    → st.best_operating_point_found ≡ some p

Pipe-rank :
    (K f : OpSet) (cs : ConstraintStack) (r : Rank)
    → Pipe K f cs r
    → IsSorted r.view × Enumerates (to_stream r) (through cs f)
Pipe-rank K f [] r h = h
Pipe-rank K f ((k, c) ∷ cs) r h = Pipe-rank K (λ p. f p && passes c p) cs r h.2

-- The rank of an up to date state lists the Operating Points that achieve all goals.
pub rank-achieves_all :
    (K : OpSet) (env : Environment) (st : State)
    → Splits K st
    → IsSorted (update env st).rank.view
      × Enumerates (to_stream (update env st).rank) (λ p. K p && achieves_all env st.constraints p)
rank-achieves_all K env st h =
    let after = update-Splits K env st h in
    let r = Pipe-rank K K (update env st).constraints (update env st).rank after.0 in
    (
      r.0,
      λ p. ground (
        arith,
        r.1 p,
        through-IsCurrent env K (update env st).constraints p after.1,
        update-same env st p,
      ),
    )

remember-best :
    (st : State) (p : OpPtr) → Remembers st → Rank.best st.rank ≡ some p → (remember st).1 ≡ some p
unfolding remember solve
remember-best st p m e = ground (arith, m p)

pub update-Remembers : (env : Environment) (st : State) → Remembers st → Remembers (update env st)
unfolding update
update-Remembers env st m p e b =
    let same = (update-same env st p).2 e in m p same.0 (ap Rank.best (sym same.1) ∙ b)

IsBetter-SameCriteria :
    (r s : Rank) (q p : OpPtr) → SameCriteria r s → IsBetter r q p → IsBetter s q p
IsBetter-SameCriteria r s q p c h = cc (c.0, ap (λ f. f q) c.1, ap (λ f. f p) c.1)

-- `get_best_operating_point` returns an optimum of the problem of this moment, if it has a solution: an
-- Operating Point of the knowledge that achieves all goals (with their error coefficients), such that
-- none of the others that do so is better for the rank.
pub get_best_operating_point_optimal :
    (K : OpSet) (env : Environment) (st : State) (p : OpPtr)
    → Splits K st
    → Remembers st
    → K p ≡ true
    → achieves_all env st.constraints p ≡ true
    → (q : OpPtr) × ((get_best_operating_point env st).1 ≡ some q)
      × (K q ≡ true)
      × (achieves_all env st.constraints q ≡ true)
      × ((o : OpPtr)
          → K o ≡ true
          → achieves_all env st.constraints o ≡ true
          → ¬ IsBetter st.rank o q)
unfolding get_best_operating_point
get_best_operating_point_optimal K env st p h m known valid =
    elim (Option-cases (Rank.best (update env st).rank)) [
      | inl nothing ↦
          absurd (ground (arith, ap (count p) (best-none (update env st).rank nothing), listed p))
      | inr (q, found) ↦ (
        q,
        remember-best (update env st) q (update-Remembers env st m) found,
        ground (arith, count-best (update env st).rank q found, listed q),
        ground (arith, count-best (update env st).rank q found, listed q),
        λ o ko vo better.
            best-IsBetter (update env st).rank q o (rank-achieves_all K env st h).0 found
              (ground (arith, listed o))
              (IsBetter-SameCriteria st.rank (update env st).rank o q (update-same env st 0).1
                better),
      )
    ]
  where
    listed :
        (o : OpPtr)
        → count o (to_stream (update env st).rank) ≡ b2n (K o && achieves_all env st.constraints o)
    listed o = (rank-achieves_all K env st h).1 o
