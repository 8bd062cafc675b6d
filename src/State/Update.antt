-- ===== src/State/Update.antt =====
-- margot/include/margot/state.hpp: `State::update`, which takes changes of the goals and of the runtime
-- information into account.
use margot_project.Base.{
  ℕ, suc, zero, if◌then◌else◌, Bool, true, is_empty, [], ◌∷◌, ◌++◌, OpStream, length,
}
use margot_project.Goal.{Environment}
use margot_project.Constraint.{Constraint, Update}
use margot_project.Constraint
use margot_project.Rank.{Rank}
use margot_project.Rank
use margot_project.State.Stack.{ConstraintStack, push_down, remove_down, prune_higher}

-- The constraint in hand, those of lower priority, the rank and `problem_is_changed`.
pub record Round : Type 0 where
  pub constraint : Constraint
  pub lower : ConstraintStack
  pub rank : Rank
  pub changed : Bool

-- The branch of a round for the Operating Points that no constraint of higher priority blocks.
unfoldable pub block_invalidated : OpStream → Round → Round
block_invalidated ops s =
    let (c, _) = Constraint.filter_add s.constraint ops in
    let (lower, for_real) = remove_down s.lower ops in
    record { constraint = c; lower = lower; rank = Rank.remove s.rank for_real; changed = true }

-- `if (!ops_to_be_removed.empty())`
unfoldable pub take_invalidated : ConstraintStack → OpStream → Round → Round
take_invalidated higher ops s =
    if is_empty ops
    then s
    else let pruned = prune_higher higher ops in
      if is_empty pruned then s else block_invalidated pruned s

-- `if (!ops_to_be_added.empty())`
unfoldable pub take_validated : OpStream → Round → Round
take_validated ops s =
    if is_empty ops
    then s
    else let (lower, leftover) = push_down s.lower ops in
      record s { lower = lower; rank = Rank.add s.rank leftover; changed = true }

-- One round of the loop, for the constraint behind `higher`.
unfoldable pub update_round :
    Environment → ConstraintStack → Constraint → ConstraintStack → Rank → Bool → Round
update_round env higher c lower rank changed =
    let u = Constraint.update env c in
    take_validated u.validated_ops (
      take_invalidated higher u.invalidated_ops
        (record { constraint = u.constraint; lower = lower; rank = rank; changed = changed }))

-- What the loop leaves.
pub record Updated : Type 0 where
  pub constraints : ConstraintStack
  pub rank : Rank
  pub changed : Bool

-- The loop, by the number of constraints that are left.
unfoldable pub update_from :
    Environment → ℕ → ConstraintStack → ConstraintStack → Rank → Bool → Updated
update_from env zero higher rest rank changed = record {
  constraints = higher ++ rest;
  rank = rank;
  changed = changed;
}
update_from env (suc n) higher [] rank changed = record {
  constraints = higher ++ [];
  rank = rank;
  changed = changed;
}
update_from env (suc n) higher ((k, c) ∷ lower) rank changed =
    let s = update_round env higher c lower rank changed in
    update_from env n (higher ++ ((k, s.constraint) ∷ [])) s.lower s.rank s.changed

unfoldable pub update_all : Environment → ConstraintStack → Rank → Bool → Updated
update_all env constraints rank changed =
    update_from env (length constraints) [] constraints rank changed
