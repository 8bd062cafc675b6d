-- ===== src/State/Refresh.antt =====
-- One round of `State::update`: what one constraint does to the split of the knowledge when its goal or
-- its error coefficient has changed.
use margot_project.Base.{
  ◌==◌, Bool, true, false, not, ◌&&◌, is_empty, [], ◌∷◌, OpPtr, OpStream, ◌≡◌, refl, arith, count,
  Enumerates, Bool-cases, inl, inr, Enumerates-is_empty,
}
use margot_project.Constraint.{Constraint, Update, filter_add}
use margot_project.Constraint.Filters.{passes, SameFilter, count-filter_add}
use margot_project.Constraint.Updates.{Adjusts}
use margot_project.Rank.{Rank}
use margot_project.State.Stack.{ConstraintStack, prune_higher}
use margot_project.State.Update.{Round, block_invalidated, take_invalidated}
use margot_project.State.Pipeline.{
  OpSet, Views, Pipe, Pipe-cong, OpenPipe, OpenPipe-outside, remove_down-Pipe, count-prune_higher,
  prune_higher-absent, passes-SameFilter, Views-SameFilter,
}

-- A round in good order: the constraint blocks its part of `g`, and `f` goes on to the lower ones.
pub record IsReady (K g f : OpSet) (c : Constraint) (s : Round) : Type 0 where
  pub same : SameFilter c s.constraint
  pub views : Views K s.constraint
  pub blocks : Enumerates s.constraint.blocked_ops (λ p. g p && not (passes s.constraint p))
  pub lower : Pipe K f s.lower s.rank

pub is_empty-count : (p : OpPtr) (xs : OpStream) → is_empty xs ≡ true → count p xs ≡ 0
is_empty-count p [] h = refl
is_empty-count p (x ∷ xs) h = ground arith

module _ (K g : OpSet) (higher : ConstraintStack) (c : Constraint) (u : Update)
    (open_above : OpenPipe K K higher g) (adjusts : (p : OpPtr) → Adjusts K g c u p)
    (views : Views K u.constraint) where
  -- Those invalidated that come down to this constraint, and what it hands on when they are blocked.
  abbrev pub hit : OpSet
  hit p = g p && not (count p u.invalidated_ops == 0)

  abbrev pub kept : OpSet
  kept p = g p && passes c p && passes u.constraint p

  pruned_hit : Enumerates (prune_higher higher u.invalidated_ops) hit
  pruned_hit p = elim (Bool-cases (K p)) [
    | inl known ↦
        ground
          (arith, adjusts p, count-prune_higher K K g higher u.invalidated_ops p open_above known)
    | inr unknown ↦ ground (
      arith,
      adjusts p,
      prune_higher-absent higher u.invalidated_ops p,
      OpenPipe-outside K K g higher p open_above unknown,
    )
  ]

  -- Where nothing that comes down is invalidated, the constraint is in good order as it is.
  untouched-IsReady :
      (lower : ConstraintStack) (rank : Rank) (changed : Bool)
      → ((p : OpPtr) → hit p ≡ false)
      → Pipe K (λ p. g p && passes c p) lower rank
      → IsReady K g kept u.constraint
          (record { constraint = u.constraint; lower = lower; rank = rank; changed = changed })
  untouched-IsReady lower rank changed none_hit h = record {
    same = (refl, refl, refl, refl);
    views = views;
    blocks = λ p. ground (arith, adjusts p, none_hit p);
    lower = Pipe-cong K lower rank (λ p. ground (arith, adjusts p, none_hit p)) h;
  }

  block_invalidated-IsReady :
      (lower : ConstraintStack) (rank : Rank) (changed : Bool) (ops : OpStream)
      → Enumerates ops hit
      → Pipe K (λ p. g p && passes c p) lower rank
      → IsReady K g kept u.constraint (
          block_invalidated ops
            (record { constraint = u.constraint; lower = lower; rank = rank; changed = changed }))
  unfolding block_invalidated
  block_invalidated-IsReady lower rank changed ops e h = record {
    same = same;
    views = Views-SameFilter K u.constraint (filter_add u.constraint ops).0 same views;
    blocks = λ p. ground (
      arith,
      adjusts p,
      e p,
      count-filter_add p u.constraint ops,
      passes-SameFilter u.constraint (filter_add u.constraint ops).0 p same,
    );
    lower =
        Pipe-cong K _ _ (λ p. ground (arith, adjusts p))
          (remove_down-Pipe K (λ p. g p && passes c p) hit lower rank ops e h);
  }
    where
      same : SameFilter u.constraint (filter_add u.constraint ops).0
      same = (count-filter_add 0 u.constraint ops).2

  pub take_invalidated-IsReady :
      (lower : ConstraintStack) (rank : Rank) (changed : Bool)
      → Pipe K (λ p. g p && passes c p) lower rank
      → IsReady K g kept u.constraint (
          take_invalidated higher u.invalidated_ops
            (record { constraint = u.constraint; lower = lower; rank = rank; changed = changed }))
  unfolding take_invalidated
  take_invalidated-IsReady lower rank changed h = elim (Bool-cases (is_empty u.invalidated_ops)) [
    | inl nothing ↦
        rw nothing
          (untouched-IsReady lower rank changed (λ p. ground (arith, nothing_counts p nothing)) h)
    | inr something ↦
        rw something (elim (Bool-cases (is_empty (prune_higher higher u.invalidated_ops))) [
          | inl all_above ↦ rw all_above (
              untouched-IsReady lower rank changed
                (Enumerates-is_empty (prune_higher higher u.invalidated_ops) hit pruned_hit
                  all_above)
                h)
          | inr some_here ↦ rw some_here (
              block_invalidated-IsReady lower rank changed (prune_higher higher u.invalidated_ops)
                pruned_hit h)
        ])
  ]
    where
      nothing_counts :
          (p : OpPtr) → is_empty u.invalidated_ops ≡ true → count p u.invalidated_ops ≡ 0
      nothing_counts p = is_empty-count p u.invalidated_ops
