-- ===== src/State/Current.antt =====
-- `State::update` keeps the split of the knowledge, for the goals and the error coefficients as they are
-- at the call.
use margot_project.Base.{
  ℕ, suc, zero, ◌≤◌, Bool, not, ◌&&◌, is_empty, [], ◌∷◌, ◌++◌, none, some, OpPtr, OpStream, ◌≡◌,
  refl, arith, Enumerates, subst, sym, ◌∙◌, length, Bool-cases, inl, inr, ap,
}
use margot_project.Goal
use margot_project.Goal.{Environment}
use margot_project.Constraint
use margot_project.Constraint.{Constraint, Update, filter_add, final_goal_value}
use margot_project.Constraint.Filters.{passes, SameFilter}
use margot_project.Constraint.Updates.{Adjusts, update-Adjusts, update-final_goal_value}
use margot_project.View.{range}
use margot_project.View.Laws.{IsSorted}
use margot_project.Rank.{Rank}
use margot_project.State.Stack.{ConstraintStack, push_down, remove_down, prune_higher}
use margot_project.State.Update.{
  Round, block_invalidated, take_invalidated, take_validated, update_round, update_from, update_all,
}
use margot_project.State.Pipeline.{
  OpSet, Views, Pipe, Pipe-cong, OpenPipe, OpenPipe-append, OpenPipe-snoc, OpenPipe-outside,
  push_down-Pipe, passes-SameFilter,
}
use margot_project.State.Refresh.{IsReady, kept, is_empty-count, take_invalidated-IsReady}
use margot_project.State.Knowledge.{Splits}
use margot_project.State.{State}
use margot_project.State.Solve.{update}

take_validated-IsReady :
    (K g : OpSet) (higher : ConstraintStack) (c : Constraint) (u : Update)
    (open_above : OpenPipe K K higher g) (adjusts : (p : OpPtr) → Adjusts K g c u p)
    (views : Views K u.constraint) (s : Round)
    → IsReady K g (kept K g higher c u open_above adjusts views) u.constraint s
    → IsReady K g
        (λ p. g p && passes u.constraint p)
        u.constraint
        (take_validated u.validated_ops s)
unfolding take_validated
take_validated-IsReady K g higher c u open_above adjusts views s h =
    elim (Bool-cases (is_empty u.validated_ops)) [
      | inl nothing ↦ rw nothing (record {
        same = h.same;
        views = h.views;
        blocks = h.blocks;
        lower =
            Pipe-cong K s.lower s.rank
              (λ p. ground (arith, adjusts p, is_empty-count p u.validated_ops nothing)) h.lower;
      })
      | inr something ↦ rw something (record {
        same = h.same;
        views = h.views;
        blocks = h.blocks;
        lower =
            Pipe-cong K _ _ (λ p. ground (arith, adjusts p))
              (push_down-Pipe K (kept K g higher c u open_above adjusts views)
                (λ p. g p && not (passes c p) && passes u.constraint p) s.lower s.rank
                u.validated_ops (λ p t. ground arith) (λ p. ground (arith, adjusts p)) h.lower);
      })
    ]

update_round-IsReady :
    (K g : OpSet) (env : Environment) (higher : ConstraintStack) (k : ℕ) (c : Constraint)
    (lower : ConstraintStack) (rank : Rank) (changed : Bool)
    → OpenPipe K K higher g
    → Pipe K g ((k, c) ∷ lower) rank
    → let u = Constraint.update env c in
      IsReady K g
        (λ p. g p && passes u.constraint p)
        u.constraint
        (update_round env higher c lower rank changed)
unfolding update_round
update_round-IsReady K g env higher k c lower rank changed o h =
    take_validated-IsReady K g higher c u o adjusts views _
      (take_invalidated-IsReady K g higher c u o adjusts views lower rank changed h.2)
  where
    u : Update
    u = Constraint.update env c

    adjusts : (p : OpPtr) → Adjusts K g c u p
    adjusts =
        update-Adjusts K g c h.0.0 h.0.1 h.1
          (λ p t. ground (arith, OpenPipe-outside K K g higher p o)) env

    views : Views K u.constraint
    views =
        subst (λ v. IsSorted v × Enumerates (range v) K) (sym (update-final_goal_value env c).2) h.0

length-push_down : (cs : ConstraintStack) (ops : OpStream) → length (push_down cs ops).0 ≡ length cs
unfolding push_down
length-push_down [] ops = refl
length-push_down ((k, c) ∷ cs) ops = ap suc (length-push_down cs (filter_add c ops).1)

length-remove_down :
    (cs : ConstraintStack) (ops : OpStream) → length (remove_down cs ops).0 ≡ length cs
unfolding remove_down
length-remove_down [] ops = refl
length-remove_down ((k, c) ∷ cs) ops =
    ap suc (length-remove_down cs (Constraint.filter_remove c ops).1)

length-take_invalidated :
    (higher : ConstraintStack) (ops : OpStream) (s : Round)
    → length (take_invalidated higher ops s).lower ≡ length s.lower
unfolding take_invalidated block_invalidated
length-take_invalidated higher ops s =
    ground (arith, length-remove_down s.lower (prune_higher higher ops))

length-take_validated :
    (ops : OpStream) (s : Round) → length (take_validated ops s).lower ≡ length s.lower
unfolding take_validated
length-take_validated ops s = ground (arith, length-push_down s.lower ops)

length-update_round :
    (env : Environment) (higher : ConstraintStack) (c : Constraint) (lower : ConstraintStack)
    (rank : Rank) (changed : Bool)
    → length (update_round env higher c lower rank changed).lower ≡ length lower
unfolding update_round
length-update_round env higher c lower rank changed =
    omega (arith, length-take_validated, length-take_invalidated)

-- Each constraint was last checked against its goal times its error coefficient, as they are now.
abbrev pub IsCurrent : Environment → ConstraintStack → Type 0
IsCurrent env [] = Unit {0}
IsCurrent env ((k, c) ∷ cs) = (c.last_check_value ≡ final_goal_value env c) × IsCurrent env cs

IsCurrent-append :
    (env : Environment) (cs ds : ConstraintStack)
    → IsCurrent env cs
    → IsCurrent env ds
    → IsCurrent env (cs ++ ds)
IsCurrent-append env [] ds h k = k
IsCurrent-append env ((j, c) ∷ cs) ds h k = (h.0, IsCurrent-append env cs ds h.1 k)

pub final_goal_value-cong :
    (env : Environment) (c d : Constraint)
    → c.target_goal ≡ d.target_goal
    → c.knowledge_adaptor ≡ d.knowledge_adaptor
    → final_goal_value env c ≡ final_goal_value env d
unfolding final_goal_value Goal.get
final_goal_value-cong env c d g a = λ i.
    env.times (env.goal_value_at (g i).goal_value)
      (elim (a i) [ some adaptor ↦ env.coefficient_at adaptor | none ↦ env.one ])

final_goal_value-SameFilter :
    (env : Environment) (c d : Constraint)
    → SameFilter (Constraint.update env c).constraint d
    → d.last_check_value ≡ final_goal_value env d
final_goal_value-SameFilter env c d s =
    let up = update-final_goal_value env c in
    s.1 ∙ up.0 ∙ final_goal_value-cong env c d (sym (s.0 ∙ up.1)) (sym (s.3 ∙ up.3))

-- The loop keeps the split, and has brought each constraint up to date when it ends; the number of
-- constraints is enough of rounds.
update_from-Splits :
    (K g : OpSet) (env : Environment) (n : ℕ) (higher rest : ConstraintStack) (rank : Rank)
    (changed : Bool)
    → length rest ≤ n
    → OpenPipe K K higher g
    → Pipe K g rest rank
    → IsCurrent env higher
    → let u = update_from env n higher rest rank changed in
      Pipe K K u.constraints u.rank × IsCurrent env u.constraints
unfolding update_from
update_from-Splits K g env zero higher [] rank changed m o h cur =
    (OpenPipe-append K K g higher [] rank o h, IsCurrent-append env higher [] cur tt)
update_from-Splits K g env zero higher (kc ∷ rest) rank changed m o h cur = absurd (omega arith)
update_from-Splits K g env (suc n) higher [] rank changed m o h cur =
    (OpenPipe-append K K g higher [] rank o h, IsCurrent-append env higher [] cur tt)
update_from-Splits K g env (suc n) higher ((k, c) ∷ lower) rank changed m o h cur =
    update_from-Splits K (λ p. g p && passes s.constraint p) env n
      (higher ++ ((k, s.constraint) ∷ [])) s.lower s.rank s.changed
      (omega (arith, length-update_round env higher c lower rank changed))
      (OpenPipe-snoc K K g higher k s.constraint o ready.views ready.blocks)
      (Pipe-cong K s.lower s.rank
        (λ p.
          ground (
            arith,
            passes-SameFilter (Constraint.update env c).constraint s.constraint p ready.same,
          ))
        ready.lower)
      (IsCurrent-append env higher ((k, s.constraint) ∷ []) cur
        (final_goal_value-SameFilter env c s.constraint ready.same, tt))
  where
    s : Round
    s = update_round env higher c lower rank changed

    ready :
        IsReady K g
          (λ p. g p && passes (Constraint.update env c).constraint p)
          (Constraint.update env c).constraint
          s
    ready = update_round-IsReady K g env higher k c lower rank changed o h

-- After `update` the constraints and the rank split the knowledge, and every constraint was checked
-- against its goal value times its error coefficient of this moment.
pub update-Splits :
    (K : OpSet) (env : Environment) (st : State)
    → Splits K st
    → Splits K (update env st) × IsCurrent env (update env st).constraints
unfolding update update_all
update-Splits K env st h =
    update_from-Splits K K env (length st.constraints) [] st.constraints st.rank
      st.problem_is_changed (omega arith) (λ p. refl) h tt
