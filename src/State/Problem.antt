-- ===== src/State/Problem.antt =====
-- What `State::update` leaves alone: the optimisation problem itself, that is the tests of the
-- constraints and the criteria of the rank.
use margot_project.Base.{
  ℕ, suc, zero, Bool, true, false, ◌&&◌, [], ◌∷◌, ◌++◌, OpPtr, OpStream, ◌≡◌, refl, arith, length,
  ap₂,
}
use margot_project.Goal.{Environment}
use margot_project.Constraint
use margot_project.Constraint.{Constraint, achieves, filter_add, filter_remove, final_goal_value}
use margot_project.Constraint.Filters.{passes, count-filter_add, count-filter_remove}
use margot_project.Constraint.Updates.{update-final_goal_value}
use margot_project.Rank.{Rank}
use margot_project.Rank.Laws.{SameCriteria, add-SameCriteria, remove-SameCriteria}
use margot_project.State.{State}
use margot_project.State.Stack.{ConstraintStack, push_down, remove_down, prune_higher}
use margot_project.State.Update.{
  Round, block_invalidated, take_invalidated, take_validated, update_round, update_from, update_all,
}
use margot_project.State.Current.{final_goal_value-cong, IsCurrent}
use margot_project.State.Solve.{update}
use margot_project.State.Priorities.{through}

-- An Operating Point achieves all goals, as they and the error coefficients are at the moment.
abbrev pub achieves_all : Environment → ConstraintStack → OpPtr → Bool
achieves_all env [] p = true
achieves_all env ((k, c) ∷ cs) p = achieves c (final_goal_value env c) p && achieves_all env cs p

-- Where the constraints are up to date, what they let through achieves all goals.
pub through-IsCurrent :
    (env : Environment) (f : OpPtr → Bool) (cs : ConstraintStack) (p : OpPtr)
    → IsCurrent env cs
    → through cs f p ≡ (f p && achieves_all env cs p)
through-IsCurrent env f [] p h = ground arith
through-IsCurrent env f ((k, c) ∷ cs) p h =
    ground (arith, through-IsCurrent env (λ q. f q && passes c q) cs p h.1)

-- The same goal, evaluator and source of the error coefficient.
abbrev SameQuestion : Constraint → Constraint → Type 0
SameQuestion c d =
    (d.target_goal ≡ c.target_goal)
    × (d.knowledge_view ≡ c.knowledge_view)
    × (d.knowledge_adaptor ≡ c.knowledge_adaptor)

achieves-SameQuestion :
    (env : Environment) (c d : Constraint) (p : OpPtr)
    → SameQuestion c d
    → achieves d (final_goal_value env d) p ≡ achieves c (final_goal_value env c) p
unfolding achieves
achieves-SameQuestion env c d p s = cc (s.0, s.1, final_goal_value-cong env d c s.0 s.2)

module _ (env : Environment) (p : OpPtr) where
  achieves_all-push_down :
      (cs : ConstraintStack) (ops : OpStream)
      → achieves_all env (push_down cs ops).0 p ≡ achieves_all env cs p
  unfolding push_down
  achieves_all-push_down [] ops = refl
  achieves_all-push_down ((k, c) ∷ cs) ops =
      let s = (count-filter_add 0 c ops).2 in
      ap₂ ◌&&◌ (achieves-SameQuestion env c (filter_add c ops).0 p (s.0, s.2, s.3))
        (achieves_all-push_down cs (filter_add c ops).1)

  achieves_all-remove_down :
      (cs : ConstraintStack) (ops : OpStream)
      → achieves_all env (remove_down cs ops).0 p ≡ achieves_all env cs p
  unfolding remove_down
  achieves_all-remove_down [] ops = refl
  achieves_all-remove_down ((k, c) ∷ cs) ops =
      let s = (count-filter_remove 0 c ops).2 in
      ap₂ ◌&&◌ (achieves-SameQuestion env c (filter_remove c ops).0 p (s.0, s.2, s.3))
        (achieves_all-remove_down cs (filter_remove c ops).1)

  -- What a round leaves of the problem.
  abbrev SameRound : Round → Round → Type 0
  SameRound s t =
      (achieves t.constraint (final_goal_value env t.constraint) p
        ≡ achieves s.constraint (final_goal_value env s.constraint) p)
      × (achieves_all env t.lower p ≡ achieves_all env s.lower p)
      × SameCriteria s.rank t.rank
      × (t.changed ≡ false → (s.changed ≡ false) × (t.rank ≡ s.rank))

  block_invalidated-SameRound : (ops : OpStream) (s : Round) → SameRound s (block_invalidated ops s)
  unfolding block_invalidated
  block_invalidated-SameRound ops s =
      let f = (count-filter_add 0 s.constraint ops).2 in
      (
        achieves-SameQuestion env s.constraint (filter_add s.constraint ops).0 p (f.0, f.2, f.3),
        achieves_all-remove_down s.lower ops,
        remove-SameCriteria s.rank (remove_down s.lower ops).1,
        λ e. cc,
      )

  take_invalidated-SameRound :
      (higher : ConstraintStack) (ops : OpStream) (s : Round)
      → SameRound s (take_invalidated higher ops s)
  unfolding take_invalidated
  take_invalidated-SameRound higher ops s =
      ground (arith, block_invalidated-SameRound (prune_higher higher ops) s)

  take_validated-SameRound : (ops : OpStream) (s : Round) → SameRound s (take_validated ops s)
  unfolding take_validated
  take_validated-SameRound ops s =
      ground (
        arith,
        achieves_all-push_down s.lower ops,
        add-SameCriteria s.rank (push_down s.lower ops).1,
      )

  update_round-SameRound :
      (higher : ConstraintStack) (c : Constraint) (lower : ConstraintStack) (rank : Rank)
      (changed : Bool)
      → SameRound
          (record { constraint = c; lower = lower; rank = rank; changed = changed })
          (update_round env higher c lower rank changed)
  unfolding update_round
  update_round-SameRound higher c lower rank changed =
      let u = Constraint.update env c in
      let start : Round = record {
        constraint = u.constraint;
        lower = lower;
        rank = rank;
        changed = changed;
      } in
      let same = update-final_goal_value env c in
      ground (
        arith,
        achieves-SameQuestion env c u.constraint p (same.1, same.2, same.3),
        take_invalidated-SameRound higher u.invalidated_ops start,
        take_validated-SameRound u.validated_ops (take_invalidated higher u.invalidated_ops start),
      )

  achieves_all-append :
      (cs ds : ConstraintStack)
      → achieves_all env (cs ++ ds) p ≡ (achieves_all env cs p && achieves_all env ds p)
  achieves_all-append [] ds = refl
  achieves_all-append ((k, c) ∷ cs) ds = ground (arith, achieves_all-append cs ds)

  update_from-same :
      (n : ℕ) (higher rest : ConstraintStack) (rank : Rank) (changed : Bool)
      → let u = update_from env n higher rest rank changed in
        (achieves_all env u.constraints p ≡ achieves_all env (higher ++ rest) p)
        × SameCriteria rank u.rank
        × (u.changed ≡ false → (changed ≡ false) × (u.rank ≡ rank))
  unfolding update_from
  update_from-same zero higher rest rank changed = (refl, (refl, refl), λ e. (e, refl))
  update_from-same (suc n) higher [] rank changed = (refl, (refl, refl), λ e. (e, refl))
  update_from-same (suc n) higher ((k, c) ∷ lower) rank changed =
      let s = update_round env higher c lower rank changed in
      ground (
        arith,
        update_round-SameRound higher c lower rank changed,
        update_from-same n (higher ++ ((k, s.constraint) ∷ [])) s.lower s.rank s.changed,
        achieves_all-append (higher ++ ((k, s.constraint) ∷ [])) s.lower,
        achieves_all-append higher ((k, s.constraint) ∷ []),
        achieves_all-append higher ((k, c) ∷ lower),
      )

-- `update` changes neither the tests of the constraints nor the criteria of the rank; and where it does
-- not report a change, none was noted before and the rank is the same.
pub update-same :
    (env : Environment) (st : State) (p : OpPtr)
    → (achieves_all env (update env st).constraints p ≡ achieves_all env st.constraints p)
      × SameCriteria st.rank (update env st).rank
      × ((update env st).problem_is_changed ≡ false
          → (st.problem_is_changed ≡ false) × ((update env st).rank ≡ st.rank))
unfolding update update_all
update-same env st p =
    update_from-same env p (length st.constraints) [] st.constraints st.rank st.problem_is_changed
