-- ===== src/State/Insertion.antt =====
-- `add_constraint`: where it keeps the split of the knowledge, and the class of states in which it does
-- not, because its loop calls the first lower constraint each time.
use margot_project.Base.{
  ℕ, suc, zero, ◌+◌, ◌-◌, ◌==◌, true, false, not, ◌&&◌, is_empty, [], ◌∷◌, ◌++◌, OpPtr, OpStream,
  ◌≡◌, refl, arith, count, Enumerates, subst, b2n, sym, Value, count-append, length, Bool-cases,
  inl, inr, Enumerates-is_empty, ap,
}
use margot_project.Goal.{Goal, Environment}
use margot_project.View
use margot_project.View.{range}
use margot_project.View.Laws.{add_all-IsSorted, count-range-add_all}
use margot_project.Constraint
use margot_project.Constraint.{Constraint, FieldAdaptors, filter_initialize, filter_remove}
use margot_project.Constraint.Filters.{
  passes, SameFilter, count-filter_initialize, count-filter_remove,
}
use margot_project.Rank.{Rank, to_stream}
use margot_project.Rank
use margot_project.Rank.Laws.{remove-IsSorted_rank, count-to_stream-remove}
use margot_project.State.{
  State, insert_constraint, place_constraint, new_constraint, add_constraint,
}
use margot_project.State.Stack.{
  ConstraintStack, before, lower_bound, upper_bound, append_blocked, repeat_filter_remove,
  remove_lower,
}
use margot_project.State.Pipeline.{
  OpSet, Views, Pipe, Pipe-cong, OpenPipe, OpenPipe-append, passes-SameFilter, Views-SameFilter,
}
use margot_project.State.Knowledge.{Splits}
use margot_project.State.Priorities.{through, Splits-at}

-- What `add_constraint` offers to the new constraint is what comes down to its priority.
pub count-append_blocked :
    (K g : OpSet) (cs : ConstraintStack) (r : Rank) (xs : OpStream) (p : OpPtr)
    → Pipe K g cs r
    → count p (append_blocked cs xs) + count p (to_stream r) ≡ count p xs + b2n (g p)
unfolding append_blocked Constraint.append_to
count-append_blocked K g [] r xs p h = ground (arith, h.1 p)
count-append_blocked K g ((k, c) ∷ cs) r xs p h = ground (
  arith,
  h.1 p,
  count-append p xs c.blocked_ops,
  count-append_blocked K (λ q. g q && passes c q) cs r (xs ++ c.blocked_ops) p h.2,
)

-- No constraint of the row blocks an Operating Point of the set.
abbrev pub Unblocked : OpSet → ConstraintStack → Type 0
Unblocked q [] = Unit {0}
Unblocked q ((k, c) ∷ cs) = ((p : OpPtr) → q p ≡ true → count p c.blocked_ops ≡ 0) × Unblocked q cs

-- No constraint behind the first one does: `filter_remove` of the first one is enough.
abbrev pub FirstAlone : OpSet → ConstraintStack → Type 0
FirstAlone q [] = Unit {0}
FirstAlone q ((k, c) ∷ cs) = Unblocked q cs

remove_rank-Pipe :
    (K f q : OpSet) (cs : ConstraintStack) (r : Rank) (xs : OpStream)
    → Enumerates xs q
    → Unblocked q cs
    → Pipe K f cs r
    → Pipe K (λ p. f p && not (q p)) cs (Rank.remove r xs)
remove_rank-Pipe K f q [] r xs e u h = (
  remove-IsSorted_rank r xs h.0,
  λ p. ground (arith, count-to_stream-remove r p xs h.0, e p, h.1 p),
)
remove_rank-Pipe K f q ((k, c) ∷ cs) r xs e u h = (
  h.0,
  (λ p. ground (arith, h.1 p, u.0 p)),
  Pipe-cong K cs _ (λ p. ground arith)
      (remove_rank-Pipe K (λ p. f p && passes c p) q cs r xs e u.1 h.2),
)

pub repeat_filter_remove_lem :
    (n : ℕ) (c : Constraint) (xs : OpStream) (p : OpPtr)
    → (count p (repeat_filter_remove (suc n) c xs).1 ≡ count p xs - count p c.blocked_ops)
      × (count p (repeat_filter_remove (suc n) c xs).0.blocked_ops
          ≡ count p c.blocked_ops - count p xs)
      × SameFilter c (repeat_filter_remove (suc n) c xs).0
unfolding repeat_filter_remove
repeat_filter_remove_lem zero c xs p = count-filter_remove p c xs
repeat_filter_remove_lem (suc n) c xs p = ground (
  arith,
  count-filter_remove p c xs,
  repeat_filter_remove_lem n (filter_remove c xs).0 (filter_remove c xs).1 p,
)

Unblocked-subset :
    (q q' : OpSet) (cs : ConstraintStack)
    → ((p : OpPtr) → q' p ≡ true → q p ≡ true)
    → Unblocked q cs
    → Unblocked q' cs
Unblocked-subset q q' [] sub u = tt
Unblocked-subset q q' ((k, c) ∷ cs) sub u =
    ((λ p t. u.0 p (sub p t)), Unblocked-subset q q' cs sub u.1)

remove_lower-Pipe :
    (K f q : OpSet) (cs : ConstraintStack) (r : Rank) (xs : OpStream)
    → Enumerates xs q
    → FirstAlone q cs
    → Pipe K f cs r
    → let (cs', rest) = remove_lower cs xs in
      Pipe K (λ p. f p && not (q p)) cs' (Rank.remove r rest)
unfolding remove_lower
remove_lower-Pipe K f q [] r xs e u h = remove_rank-Pipe K f q [] r xs e tt h
remove_lower-Pipe K f q ((k, c) ∷ cs) r xs e u h = (
  Views-SameFilter K c (repeat_filter_remove (suc (length cs)) c xs).0 same h.0,
  (λ p. ground (
    arith,
    repeat_filter_remove_lem (length cs) c xs p,
    e p,
    h.1 p,
    passes-SameFilter c (repeat_filter_remove (suc (length cs)) c xs).0 p same,
  )),
  Pipe-cong K cs _
      (λ p.
        ground (arith, passes-SameFilter c (repeat_filter_remove (suc (length cs)) c xs).0 p same))
      (remove_rank-Pipe K (λ p. f p && passes c p) (λ p. q p && not (f p && not (passes c p))) cs r
        (repeat_filter_remove (suc (length cs)) c xs).1
        (λ p. ground (arith, repeat_filter_remove_lem (length cs) c xs p, e p, h.1 p))
        (Unblocked-subset q (λ p. q p && not (f p && not (passes c p))) cs (λ p t. ground arith) u)
        h.2),
)
  where
    same : SameFilter c (repeat_filter_remove (suc (length cs)) c xs).0
    same = (repeat_filter_remove_lem (length cs) c xs 0).2

-- No constraint has the priority yet.
abbrev pub HasNot : ℕ → ConstraintStack → Type 0
HasNot priority [] = Unit {0}
HasNot priority ((k, c) ∷ cs) = ((k == priority) ≡ false) × HasNot priority cs

pub upper_bound-HasNot :
    (priority : ℕ) (cs : ConstraintStack)
    → HasNot priority cs
    → upper_bound priority cs ≡ lower_bound priority cs
unfolding lower_bound upper_bound
upper_bound-HasNot priority [] n = refl
upper_bound-HasNot priority ((k, c) ∷ cs) n =
    ground (arith, n.0, upper_bound-HasNot priority cs n.1)

FirstAlone-subset :
    (q q' : OpSet) (cs : ConstraintStack)
    → ((p : OpPtr) → q' p ≡ true → q p ≡ true)
    → FirstAlone q cs
    → FirstAlone q' cs
FirstAlone-subset q q' [] sub u = tt
FirstAlone-subset q q' ((k, c) ∷ cs) sub u = Unblocked-subset q q' cs sub u

place_constraint-Splits :
    (K g : OpSet) (priority : ℕ) (higher : ConstraintStack) (new : Constraint)
    (lower : ConstraintStack) (filtered_ops : OpStream) (st : State)
    → OpenPipe K K higher g
    → Views K new
    → Enumerates new.blocked_ops (λ p. g p && not (passes new p))
    → Enumerates filtered_ops (λ p. g p && not (passes new p))
    → Pipe K g lower st.rank
    → FirstAlone (λ p. g p && not (passes new p)) lower
    → Splits K (place_constraint priority higher new lower filtered_ops st)
unfolding place_constraint
place_constraint-Splits K g priority higher new lower filtered_ops st o v b e h u =
    elim (Bool-cases (is_empty filtered_ops)) [
      | inl nothing ↦ rw nothing (
          OpenPipe-append K K g higher _ _ o (
            v,
            b,
            Pipe-cong K lower st.rank
                (λ p. ground (arith, Enumerates-is_empty filtered_ops _ e nothing p)) h,
          ))
      | inr something ↦ rw something (
          OpenPipe-append K K g higher _ _ o (
            v,
            b,
            Pipe-cong K _ _ (λ p. ground arith)
                (remove_lower-Pipe K g (λ p. g p && not (passes new p)) lower st.rank filtered_ops e
                  u h),
          ))
    ]

-- The same for any constraint that views the knowledge and blocks nothing yet.
pub insert_constraint-Splits :
    (K : OpSet) (priority : ℕ) (fresh : Constraint) (st : State)
    → HasNot priority st.constraints
    → Views K fresh
    → fresh.blocked_ops ≡ []
    → FirstAlone (λ p. not (passes fresh p)) (upper_bound priority st.constraints)
    → Splits K st
    → Splits K (insert_constraint priority fresh st)
unfolding insert_constraint
insert_constraint-Splits K priority fresh st n v b u h =
    place_constraint-Splits K g priority higher (filter_initialize fresh offered).0
      (upper_bound priority st.constraints) (filter_initialize fresh offered).1 st cut.0
      (Views-SameFilter K fresh (filter_initialize fresh offered).0 same v)
      (λ p.
        ground
          (arith, blocked p, same_test p, count-filter_initialize p fresh offered, count_nil p))
      (λ p. ground (arith, blocked p, same_test p, count-filter_initialize p fresh offered))
      (subst (λ cs. Pipe K g cs st.rank) (sym (upper_bound-HasNot priority st.constraints n)) cut.1)
      (FirstAlone-subset (λ p. not (passes fresh p)) _ (upper_bound priority st.constraints)
        (λ p t. ground (arith, same_test p)) u)
  where
    higher : ConstraintStack
    higher = before priority st.constraints

    g : OpSet
    g = through higher K

    offered : OpStream
    offered = append_blocked (lower_bound priority st.constraints) (to_stream st.rank)

    cut : OpenPipe K K higher g × Pipe K g (lower_bound priority st.constraints) st.rank
    cut = Splits-at K priority st h

    same : SameFilter fresh (filter_initialize fresh offered).0
    same = (count-filter_initialize 0 fresh offered).2

    same_test : (p : OpPtr) → passes (filter_initialize fresh offered).0 p ≡ passes fresh p
    same_test p = passes-SameFilter fresh (filter_initialize fresh offered).0 p same

    blocked : (p : OpPtr) → count p offered ≡ b2n (g p)
    blocked p = omega (
      arith,
      count-append_blocked K g (lower_bound priority st.constraints) st.rank (to_stream st.rank) p
          cut.1,
    )

    count_nil : (p : OpPtr) → count p fresh.blocked_ops ≡ 0
    count_nil p = ap (count p) b

-- The constraint that `add_constraint` creates views the knowledge that it is given, and blocks nothing.
new_constraint-Views :
    (K : OpSet) (env : Environment) (goal : Goal) (field : ℕ) (evaluate : OpPtr → Value)
    (kb : OpStream) (adaptors : FieldAdaptors)
    → Enumerates kb K
    → Views K (new_constraint env goal field evaluate kb adaptors)
      × ((new_constraint env goal field evaluate kb adaptors).blocked_ops ≡ [])
unfolding new_constraint Constraint.make Constraint.set Constraint.set_field_adaptor View.clear
    range View.make
new_constraint-Views K env goal field evaluate kb adaptors e = (
  (
    add_all-IsSorted (View.make evaluate) kb tt,
    λ p. ground (arith, count-range-add_all (View.make evaluate) p kb, e p),
  ),
  refl,
)

-- `add_constraint` with a new priority keeps the split, as long as only the first of the lower
-- constraints blocks what the new one rejects: so always with at most one lower constraint.
pub add_constraint-Splits :
    (K : OpSet) (env : Environment) (goal : Goal) (field : ℕ) (evaluate : OpPtr → Value)
    (priority : ℕ) (kb : OpStream) (adaptors : FieldAdaptors) (st : State)
    → Enumerates kb K
    → HasNot priority st.constraints
    → FirstAlone
        (λ p. not (passes (new_constraint env goal field evaluate kb adaptors) p))
        (upper_bound priority st.constraints)
    → Splits K st
    → Splits K (add_constraint env goal field evaluate priority kb adaptors st)
unfolding add_constraint
add_constraint-Splits K env goal field evaluate priority kb adaptors st e n u h =
    let fresh = new_constraint-Views K env goal field evaluate kb adaptors e in
    insert_constraint-Splits K priority (new_constraint env goal field evaluate kb adaptors) st n
      fresh.0 fresh.1 u h
