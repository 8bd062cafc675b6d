-- ===== src/State/Overlap.antt =====
-- Two classes of states in which `add_constraint` breaks the split of the knowledge: where a lower
-- constraint behind the first one blocks what the new one rejects, and where the priority is taken.
use margot_project.Base.{
  ℕ, suc, ◌+◌, ◌≤◌, ◌<◌, if◌then◌else◌, true, false, ◌&&◌, is_empty, [], ◌∷◌, ◌++◌, OpPtr, OpStream,
  ◌≡◌, refl, arith, count, subst, b2n, sym, ◌∙◌, length, Bool-cases, inl, inr, ap,
}
use margot_project.View.Laws.{IsSorted}
use margot_project.Constraint.{Constraint, filter_initialize}
use margot_project.Constraint.Filters.{passes, count-filter_initialize}
use margot_project.Rank.{Rank, to_stream}
use margot_project.Rank
use margot_project.Rank.Laws.{count-to_stream-remove}
use margot_project.State.{State, insert_constraint, place_constraint}
use margot_project.State.Stack.{
  ConstraintStack, before, lower_bound, upper_bound, append_blocked, repeat_filter_remove,
  remove_lower,
}
use margot_project.State.Pipeline.{OpSet, Pipe, passes-SameFilter}
use margot_project.State.Knowledge.{Splits}
use margot_project.State.Priorities.{through, Splits-at, Pipe-split}
use margot_project.State.Insertion.{
  count-append_blocked, HasNot, upper_bound-HasNot, repeat_filter_remove_lem,
}

-- How often the constraints of a row block an Operating Point.
abbrev pub times_blocked : OpPtr → ConstraintStack → ℕ
times_blocked p [] = 0
times_blocked p ((k, c) ∷ cs) = count p c.blocked_ops + times_blocked p cs

-- In a pipeline each Operating Point that comes from above stands in exactly one place.
pub Pipe-total :
    (K f : OpSet) (cs : ConstraintStack) (r : Rank) (p : OpPtr)
    → Pipe K f cs r
    → times_blocked p cs + count p (to_stream r) ≡ b2n (f p)
Pipe-total K f [] r p h = ground (arith, h.1 p)
Pipe-total K f ((k, c) ∷ cs) r p h =
    ground (arith, h.1 p, Pipe-total K (λ q. f q && passes c q) cs r p h.2)

place_constraint-split :
    (K : OpSet) (priority : ℕ) (higher : ConstraintStack) (new : Constraint)
    (lower : ConstraintStack) (ops : OpStream) (st : State)
    → is_empty ops ≡ false
    → Splits K (place_constraint priority higher new lower ops st)
    → Pipe K
        (λ p. through higher K p && passes new p)
        (remove_lower lower ops).0
        (Rank.remove st.rank (remove_lower lower ops).1)
unfolding place_constraint
place_constraint-split K priority higher new lower ops st e h =
    (Pipe-split K K higher ((priority, new) ∷ (remove_lower lower ops).0)
      (Rank.remove st.rank (remove_lower lower ops).1)
      (subst
        (λ b.
          let s =
            if b
            then record st { constraints = higher ++ ((priority, new) ∷ lower) }
            else record st {
              constraints = higher ++ ((priority, new) ∷ (remove_lower lower ops).0);
              rank = Rank.remove st.rank (remove_lower lower ops).1;
              problem_is_changed = true;
            } in
          Pipe K K s.constraints s.rank)
        e h)).1.2

place_constraint-nothing :
    (K : OpSet) (priority : ℕ) (higher : ConstraintStack) (new : Constraint)
    (lower : ConstraintStack) (ops : OpStream) (st : State)
    → is_empty ops ≡ true
    → Splits K (place_constraint priority higher new lower ops st)
    → Pipe K K (higher ++ ((priority, new) ∷ lower)) st.rank
unfolding place_constraint
place_constraint-nothing K priority higher new lower ops st e h =
    subst
      (λ b.
        let s =
          if b then record st { constraints = higher ++ ((priority, new) ∷ lower) } else record st {
            constraints = higher ++ ((priority, new) ∷ (remove_lower lower ops).0);
            rank = Rank.remove st.rank (remove_lower lower ops).1;
            problem_is_changed = true;
          } in
        Pipe K K s.constraints s.rank)
      e h

Pipe-IsSorted : (K f : OpSet) (cs : ConstraintStack) (r : Rank) → Pipe K f cs r → IsSorted r.view
Pipe-IsSorted K f [] r h = h.0
Pipe-IsSorted K f ((k, c) ∷ cs) r h = Pipe-IsSorted K (λ p. f p && passes c p) cs r h.2

not-is_empty : (p : OpPtr) (xs : OpStream) → 0 < count p xs → is_empty xs ≡ false
not-is_empty p [] h = ground arith
not-is_empty p (x ∷ xs) h = refl

-- Where a constraint behind the first lower one blocks an Operating Point that the new constraint
-- rejects, both block it after `add_constraint`: the knowledge is not split any more.
pub insert_constraint_overlap :
    (K : OpSet) (priority : ℕ) (fresh : Constraint) (st : State) (k : ℕ) (c : Constraint)
    (lower : ConstraintStack) (p : OpPtr)
    → Splits K st
    → HasNot priority st.constraints
    → upper_bound priority st.constraints ≡ (k, c) ∷ lower
    → 0 < times_blocked p lower
    → passes fresh p ≡ false
    → ¬ Splits K (insert_constraint priority fresh st)
unfolding insert_constraint remove_lower
insert_constraint_overlap K priority fresh st k c lower p h n e b fails after =
    absurd (ground (arith, b, Pipe-total K _ lower _ p tail, same_test, fails))
  where
    higher : ConstraintStack
    higher = before priority st.constraints

    offered : OpStream
    offered = append_blocked (lower_bound priority st.constraints) (to_stream st.rank)

    new : Constraint
    new = (filter_initialize fresh offered).0

    ops : OpStream
    ops = (filter_initialize fresh offered).1

    cut : Pipe K (through higher K) (lower_bound priority st.constraints) st.rank
    cut = (Splits-at K priority st h).1

    above : Pipe K (through higher K) ((k, c) ∷ lower) st.rank
    above =
        subst (λ cs. Pipe K (through higher K) cs st.rank)
          (sym (upper_bound-HasNot priority st.constraints n) ∙ e) cut

    same_test : passes new p ≡ passes fresh p
    same_test = passes-SameFilter fresh new p (count-filter_initialize p fresh offered).2

    some_filtered : is_empty ops ≡ false
    some_filtered = not-is_empty p ops (
        ground (
          arith,
          b,
          fails,
          Pipe-total K (through higher K) ((k, c) ∷ lower) st.rank p above,
          count-append_blocked K (through higher K) (lower_bound priority st.constraints) st.rank
              (to_stream st.rank) p cut,
          count-filter_initialize p fresh offered,
        ))

    tail :
        Pipe K
          (λ q.
            (through higher K q && passes new q)
            && passes (repeat_filter_remove (suc (length lower)) c ops).0 q)
          lower
          (Rank.remove st.rank (repeat_filter_remove (suc (length lower)) c ops).1)
    tail =
        (place_constraint-split K priority higher new ((k, c) ∷ lower) ops st some_filtered
          (subst (λ cs. Splits K (place_constraint priority higher new cs ops st)) e after)).2

-- `remove_lower` and the rank only give Operating Points up.
remove_lower-le :
    (cs : ConstraintStack) (ops : OpStream) (p : OpPtr)
    → times_blocked p (remove_lower cs ops).0 ≤ times_blocked p cs
unfolding remove_lower
remove_lower-le [] ops p = omega arith
remove_lower-le ((k, c) ∷ cs) ops p = ground (arith, repeat_filter_remove_lem (length cs) c ops p)

-- What stands below the new constraint afterwards, on both branches.
place_constraint-below :
    (K : OpSet) (priority : ℕ) (higher : ConstraintStack) (new : Constraint)
    (lower : ConstraintStack) (ops : OpStream) (st : State) (p : OpPtr)
    → IsSorted st.rank.view
    → Splits K (place_constraint priority higher new lower ops st)
    → (cs : ConstraintStack) × (r : Rank) × Pipe K (λ q. through higher K q && passes new q) cs r
      × (times_blocked p cs ≤ times_blocked p lower)
      × (count p (to_stream r) ≤ count p (to_stream st.rank))
place_constraint-below K priority higher new lower ops st p sorted h =
    elim (Bool-cases (is_empty ops)) [
      | inl nothing ↦ (
        lower,
        st.rank,
        (Pipe-split K K higher ((priority, new) ∷ lower) st.rank
            (place_constraint-nothing K priority higher new lower ops st nothing h)).1.2,
        omega arith,
        omega arith,
      )
      | inr something ↦ (
        (remove_lower lower ops).0,
        Rank.remove st.rank (remove_lower lower ops).1,
        place_constraint-split K priority higher new lower ops st something h,
        remove_lower-le lower ops p,
        omega (arith, count-to_stream-remove st.rank p (remove_lower lower ops).1 sorted),
      )
    ]

-- Where the priority is taken, an Operating Point that the old constraint blocks and the new one lets
-- pass is lost: after `add_constraint` it is neither blocked nor in the rank, and the knowledge is not
-- split any more.
pub insert_constraint_lost :
    (K : OpSet) (priority : ℕ) (fresh : Constraint) (st : State) (old : Constraint)
    (lower : ConstraintStack) (p : OpPtr)
    → Splits K st
    → lower_bound priority st.constraints ≡ (priority, old) ∷ lower
    → upper_bound priority st.constraints ≡ lower
    → 0 < count p old.blocked_ops
    → passes fresh p ≡ true
    → ¬ Splits K (insert_constraint priority fresh st)
unfolding insert_constraint
insert_constraint_lost K priority fresh st old lower p h at behind b lets_pass after =
    let below =
      place_constraint-below K priority higher new (upper_bound priority st.constraints) ops st p
        (Pipe-IsSorted K (through higher K) ((priority, old) ∷ lower) st.rank above) after in
    absurd (
      ground (
        arith,
        b,
        lets_pass,
        above.1 p,
        passes-SameFilter fresh new p (count-filter_initialize p fresh offered).2,
        Pipe-total K (λ q. through higher K q && passes old q) lower st.rank p above.2,
        Pipe-total K (λ q. through higher K q && passes new q) below.0 below.1 p below.2,
        below.3,
        below.4,
        ap (times_blocked p) behind,
      ))
  where
    higher : ConstraintStack
    higher = before priority st.constraints

    offered : OpStream
    offered = append_blocked (lower_bound priority st.constraints) (to_stream st.rank)

    new : Constraint
    new = (filter_initialize fresh offered).0

    ops : OpStream
    ops = (filter_initialize fresh offered).1

    above : Pipe K (through higher K) ((priority, old) ∷ lower) st.rank
    above = subst (λ cs. Pipe K (through higher K) cs st.rank) at (Splits-at K priority st h).1
