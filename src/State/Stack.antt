-- ===== src/State/Stack.antt =====
-- margot/include/margot/state.hpp: the loops of State over its `std::map` from priorities to
-- constraints, in ascending order of the priorities. The lower the number, the higher the priority.
use margot_project.Base.{ℕ, suc, zero, ltb, if◌then◌else◌, List, [], ◌∷◌, OpStream, length}
use margot_project.Goal.{Environment}
use margot_project.Constraint.{Constraint, FieldAdaptors}
use margot_project.Constraint

abbrev pub ConstraintStack : Type 0
ConstraintStack = List (ℕ × Constraint)

-- The entries in front of `lower_bound(priority)`, and those from it and from `upper_bound(priority)` on.
unfoldable pub before : ℕ → ConstraintStack → ConstraintStack
before priority [] = []
before priority ((k, c) ∷ cs) = if ltb k priority then (k, c) ∷ before priority cs else []

unfoldable pub lower_bound : ℕ → ConstraintStack → ConstraintStack
lower_bound priority [] = []
lower_bound priority ((k, c) ∷ cs) = if ltb k priority then lower_bound priority cs else (k, c) ∷ cs

unfoldable pub upper_bound : ℕ → ConstraintStack → ConstraintStack
upper_bound priority [] = []
upper_bound priority ((k, c) ∷ cs) = if ltb priority k then (k, c) ∷ cs else upper_bound priority cs

-- The loop of `add_constraint` that collects what the constraints block.
unfoldable pub append_blocked : ConstraintStack → OpStream → OpStream
append_blocked [] available_ops = available_ops
append_blocked ((k, c) ∷ cs) available_ops =
    append_blocked cs (Constraint.append_to c available_ops)

-- The loops with `filter_add`: each constraint blocks its part and hands the rest to the next one.
unfoldable pub push_down : ConstraintStack → OpStream → ConstraintStack × OpStream
push_down [] ops = ([], ops)
push_down ((k, c) ∷ cs) ops =
    let (c', output) = Constraint.filter_add c ops in
    let (cs', rest) = push_down cs output in ((k, c') ∷ cs', rest)

-- The loop of `update` with `filter_remove`: each constraint gives up its part.
unfoldable pub remove_down : ConstraintStack → OpStream → ConstraintStack × OpStream
remove_down [] ops = ([], ops)
remove_down ((k, c) ∷ cs) ops =
    let (c', output) = Constraint.filter_remove c ops in
    let (cs', rest) = remove_down cs output in ((k, c') ∷ cs', rest)

-- The loop of `add_constraint` with `filter_remove`. It runs once for each lower constraint, and calls
-- the method of `lower_it`, the first of them, each time.
unfoldable pub repeat_filter_remove : ℕ → Constraint → OpStream → Constraint × OpStream
repeat_filter_remove zero c ops = (c, ops)
repeat_filter_remove (suc n) c ops =
    let (c', output) = Constraint.filter_remove c ops in repeat_filter_remove n c' output

unfoldable pub remove_lower : ConstraintStack → OpStream → ConstraintStack × OpStream
remove_lower [] ops = ([], ops)
remove_lower ((k, c) ∷ cs) ops =
    let (c', output) = repeat_filter_remove (suc (length cs)) c ops in ((k, c') ∷ cs, output)

-- The loop of `update` with `remove_blocked_ops_from` over the constraints of higher priority.
unfoldable pub prune_higher : ConstraintStack → OpStream → OpStream
prune_higher [] ops = ops
prune_higher ((k, c) ∷ cs) ops = prune_higher cs (Constraint.remove_blocked_ops_from c ops)

-- The loops of `add_operating_points` and `remove_operating_points` over one constraint and over all.
unfoldable pub add_each : Constraint → OpStream → Constraint
add_each c [] = c
add_each c (op ∷ ops) = add_each (Constraint.add c op) ops

unfoldable pub add_to_views : ConstraintStack → OpStream → ConstraintStack
add_to_views [] ops = []
add_to_views ((k, c) ∷ cs) ops = (k, add_each c ops) ∷ add_to_views cs ops

unfoldable pub remove_each : Constraint → OpStream → Constraint
remove_each c [] = c
remove_each c (op ∷ ops) = remove_each (Constraint.remove c op) ops

unfoldable pub remove_from_all : ConstraintStack → OpStream → ConstraintStack
remove_from_all [] ops = []
remove_from_all ((k, c) ∷ cs) ops = (k, remove_each c ops) ∷ remove_from_all cs ops

-- The loop of `set_knowledge_base` that sets and clears each constraint.
unfoldable pub reset_all : ConstraintStack → OpStream → ConstraintStack
reset_all [] kb = []
reset_all ((k, c) ∷ cs) kb = (k, Constraint.clear (Constraint.set c kb)) ∷ reset_all cs kb

-- The loops of `set_knowledge_adaptor` and `create_sibling`.
unfoldable pub set_adaptors : ConstraintStack → FieldAdaptors → ConstraintStack
set_adaptors [] adaptors = []
set_adaptors ((k, c) ∷ cs) adaptors =
    (k, Constraint.set_field_adaptor c adaptors) ∷ set_adaptors cs adaptors

unfoldable pub siblings : Environment → ConstraintStack → ConstraintStack
siblings env [] = []
siblings env ((k, c) ∷ cs) = (k, Constraint.create_sibling env c) ∷ siblings env cs
