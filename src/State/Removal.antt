-- ===== src/State/Removal.antt =====
-- `remove_constraint` removes the constraint of its priority, and only that one.
use margot_project.Base.{
  ℕ, ◌≤◌, ◌<◌, ◌==◌, ltb, if◌then◌else◌, false, is_empty, [], ◌∷◌, ◌++◌, OpStream, ◌≡◌, refl, arith,
  sym, ap, ◌∙◌, Bool-cases, inl, inr,
}
use margot_project.Constraint.{Constraint, filter_add, achieves, block}
use margot_project.Constraint
use margot_project.State.{State, drop_constraint, remove_found, remove_constraint}
use margot_project.State.Stack.{ConstraintStack, before, lower_bound, push_down}
use margot_project.State.Pipeline.{OpSet}
use margot_project.State.Knowledge.{Splits}
use margot_project.State.Priorities.{before-append-lower_bound, remove_constraint-Splits}

-- A constraint without the Operating Points that it blocks at the moment
abbrev pub bare : Constraint → Constraint
bare c = record c { blocked_ops = [] }

abbrev pub settings : ConstraintStack → ConstraintStack
settings [] = []
settings ((k, c) ∷ cs) = (k, bare c) ∷ settings cs

-- The entries of other priorities
abbrev pub without : ℕ → ConstraintStack → ConstraintStack
without priority [] = []
without priority ((k, c) ∷ cs) =
    if k == priority then without priority cs else (k, c) ∷ without priority cs

-- The keys of a `std::map`, which ascend
abbrev pub AreAbove : ℕ → ConstraintStack → Type 0
AreAbove k [] = Unit {0}
AreAbove k ((j, c) ∷ cs) = (k < j) × AreAbove k cs

abbrev pub IsAscending : ConstraintStack → Type 0
IsAscending [] = Unit {0}
IsAscending ((k, c) ∷ cs) = AreAbove k cs × IsAscending cs

settings-append : (a b : ConstraintStack) → settings (a ++ b) ≡ settings a ++ settings b
settings-append [] b = refl
settings-append ((k, c) ∷ a) b = ap (λ l. (k, bare c) ∷ l) (settings-append a b)

bare-filter_add : (c : Constraint) (ops : OpStream) → bare (filter_add c ops).0 ≡ bare c
unfolding filter_add block
bare-filter_add c [] = refl
bare-filter_add c (op ∷ ops) = elim (Bool-cases (achieves c c.last_check_value op)) [
  | inl pass ↦ rw (pass, filter_add) (bare-filter_add c ops)
  | inr fail ↦ rw (fail, filter_add) (bare-filter_add (block c op) ops)
]

settings-push_down :
    (cs : ConstraintStack) (ops : OpStream) → settings (push_down cs ops).0 ≡ settings cs
unfolding push_down
settings-push_down [] ops = refl
settings-push_down ((k, c) ∷ cs) ops =
    ap (λ d. (k, d) ∷ settings (push_down cs (filter_add c ops).1).0) (bare-filter_add c ops)
    ∙ ap (λ l. (k, bare c) ∷ l) (settings-push_down cs (filter_add c ops).1)

settings-without :
    (priority k : ℕ) (cs : ConstraintStack)
    → AreAbove k cs
    → priority ≤ k
    → settings cs ≡ without priority (settings cs)
settings-without priority k [] above p = refl
settings-without priority k ((j, c) ∷ cs) above p =
    let other : (j == priority) ≡ false = ground (arith, above.0, p) in
    ap (λ l. (j, bare c) ∷ l) (settings-without priority k cs above.1 p)
    ∙ sym (
        ap
          (λ b.
            if b
            then without priority (settings cs)
            else (j, bare c) ∷ without priority (settings cs))
          other)

-- What is behind the found entry, or all if none is found
abbrev rest_of : ℕ → ConstraintStack → ConstraintStack
rest_of priority [] = []
rest_of priority ((k, c) ∷ cs) = if k == priority then cs else (k, c) ∷ cs

settings-cut :
    (priority : ℕ) (cs : ConstraintStack)
    → IsAscending cs
    → settings (before priority cs ++ rest_of priority (lower_bound priority cs))
      ≡ without priority (settings cs)
unfolding before lower_bound
settings-cut priority [] asc = refl
settings-cut priority ((k, c) ∷ cs) asc = elim (Bool-cases (ltb k priority)) [
  | inl earlier ↦
      let other : (k == priority) ≡ false = ground (arith, earlier) in
      rw (earlier, other, before, lower_bound)
        (ap (λ l. (k, bare c) ∷ l) (settings-cut priority cs asc.1))
  | inr here ↦ elim (Bool-cases (k == priority)) [
    | inl hit ↦
        rw (here, hit, before, lower_bound)
          (settings-without priority k cs asc.0 (ground (arith, here)))
    | inr miss ↦
        rw (here, miss, before, lower_bound)
          (ap (λ l. (k, bare c) ∷ l) (settings-without priority k cs asc.0 (ground (arith, here))))
  ]
]

drop_constraint-settings :
    (higher : ConstraintStack) (found : Constraint) (lower : ConstraintStack) (st : State)
    → settings (State.constraints (drop_constraint higher found lower st))
      ≡ settings (higher ++ lower)
unfolding drop_constraint
drop_constraint-settings higher found lower st =
    elim (Bool-cases (is_empty (Constraint.to_stream found))) [
      | inl nothing ↦ rw (nothing, drop_constraint) refl
      | inr something ↦
          rw (something, drop_constraint)
            (settings-append higher (push_down lower (Constraint.to_stream found)).0
              ∙ ap (λ l. settings higher ++ l)
                  (settings-push_down lower (Constraint.to_stream found))
              ∙ sym (settings-append higher lower))
    ]

remove_found-settings :
    (priority : ℕ) (cs : ConstraintStack) (st : State)
    → before priority st.constraints ++ cs ≡ st.constraints
    → settings (State.constraints (remove_found priority cs st))
      ≡ settings (before priority st.constraints ++ rest_of priority cs)
unfolding remove_found
remove_found-settings priority [] st whole = ap settings (sym whole)
remove_found-settings priority ((k, c) ∷ cs) st whole = elim (Bool-cases (k == priority)) [
  | inl hit ↦
      rw (hit, remove_found) (drop_constraint-settings (before priority st.constraints) c cs st)
  | inr miss ↦ rw (miss, remove_found) (ap settings (sym whole))
]

-- If the constraints and the rank split the knowledge and the priorities ascend, as the keys of a map do,
-- then after `remove_constraint` the constraints and the rank split it again, the constraints are, in their
-- order, exactly those of the other priorities, and each of them has its old goal, value to compare with,
-- view and adaptor.
pub remove_constraint-settings :
    (K : OpSet) (priority : ℕ) (st : State)
    → Splits K st
    → IsAscending st.constraints
    → Splits K (remove_constraint priority st)
      × (settings (State.constraints (remove_constraint priority st))
          ≡ without priority (settings st.constraints))
unfolding remove_constraint
remove_constraint-settings K priority st h asc = (
  remove_constraint-Splits K priority st h,
  remove_found-settings priority (lower_bound priority st.constraints) st
        (before-append-lower_bound priority st.constraints)
      ∙ settings-cut priority st.constraints asc,
)
