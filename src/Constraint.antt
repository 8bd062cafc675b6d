-- ===== src/Constraint.antt =====
-- margot/include/margot/constraint.hpp: class Constraint, the filter of a state that keeps the
-- Operating Points which do not achieve its goal. A method that changes the constraint returns the new
-- one, and the streams that it writes; `swap` and the aliasing of streams are resolved by the caller.
pub mod Filters
pub mod Updates
pub mod Best
mod Tests
use margot_project.Base.{
  ℕ, ◌==◌, if◌then◌else◌, not, ◌&&◌, Bool, true, false, is_empty, List, [], ◌∷◌, ◌++◌, Option, none,
  some, OpPtr, OpStream, Value, keep,
}
use margot_project.Goal.{Goal, Environment, check}
use margot_project.Goal
use margot_project.PtrSet.{contains, emplace, erase}
use margot_project.View.{View}
use margot_project.View

-- `target_field` stands for the template parameters that select the constrained field; the adaptor is
-- the address of an object that is shared with the knowledge adaptor.
pub record Constraint : Type 0 where
  pub target_field : ℕ
  pub target_goal : Goal
  pub last_check_value : Value
  pub knowledge_view : View
  pub blocked_ops : OpStream
  pub knowledge_adaptor : Option ℕ

-- `KnowledgeAdaptor`, as far as a constraint looks at it: the adaptor of each field, or the null pointer.
abbrev pub FieldAdaptors : Type 0
FieldAdaptors = ℕ → Option ℕ

-- The constructor; `evaluate` is the evaluator of the constrained field.
unfoldable pub make : Environment → Goal → ℕ → (OpPtr → Value) → Constraint
unfolding View.make Goal.get
make env goal field evaluate = record {
  target_field = field;
  target_goal = goal;
  last_check_value = Goal.get env goal;
  knowledge_view = View.make evaluate;
  blocked_ops = [];
  knowledge_adaptor = none;
}

-- `create_sibling()`
unfoldable pub create_sibling : Environment → Constraint → Constraint
unfolding make
create_sibling env c = make env c.target_goal c.target_field c.knowledge_view.evaluate

-- `add(new_op)`
unfoldable pub add : Constraint → OpPtr → Constraint
add c new_op = record c { knowledge_view = View.add c.knowledge_view new_op }

-- `remove(op)`
unfoldable pub remove : Constraint → OpPtr → Constraint
remove c op = record c {
  knowledge_view = View.remove c.knowledge_view op;
  blocked_ops = erase op c.blocked_ops;
}

-- `set(application_knowledge)`; the stream lists the knowledge in the order of its iteration.
unfoldable pub set : Constraint → OpStream → Constraint
set c knowledge = record c { knowledge_view = View.add_all (View.clear c.knowledge_view) knowledge }

-- `set_field_adaptor(runtime_information)`
unfoldable pub set_field_adaptor : Constraint → FieldAdaptors → Constraint
set_field_adaptor c adaptors = record c { knowledge_adaptor = adaptors c.target_field }

-- `target_goal.check(knowledge_view.evaluate_op(op), value)`
unfoldable pub achieves : Constraint → Value → OpPtr → Bool
achieves c value op = check c.target_goal (View.evaluate_op c.knowledge_view op) value

-- `to_stream()`
unfoldable pub to_stream : Constraint → OpStream
to_stream c = c.blocked_ops

-- `append_to(ops)`
unfoldable pub append_to : Constraint → OpStream → OpStream
append_to c ops = ops ++ c.blocked_ops

-- `remove_blocked_ops_from(input, output)`
unfoldable pub remove_blocked_ops_from : Constraint → OpStream → OpStream
remove_blocked_ops_from c [] = []
remove_blocked_ops_from c (op ∷ input) =
    let output = remove_blocked_ops_from c input in
    if contains op c.blocked_ops then output else op ∷ output

-- `clear()`
unfoldable pub clear : Constraint → Constraint
clear c = record c { blocked_ops = [] }

-- Adds to the blocked Operating Points; the part of the filters that changes the constraint.
unfoldable pub block : Constraint → OpPtr → Constraint
block c op = record c { blocked_ops = emplace op c.blocked_ops }

-- `filter_initialize(input, blocked)`
unfoldable pub filter_initialize : Constraint → OpStream → Constraint × OpStream
unfolding block
filter_initialize c [] = (c, [])
filter_initialize c (op ∷ input) =
    let here = if achieves c c.last_check_value op then c else block c op in
    let (c', blocked) = filter_initialize here input in
    (c', if achieves c c.last_check_value op then blocked else op ∷ blocked)

-- `filter_add(input, output)`
unfoldable pub filter_add : Constraint → OpStream → Constraint × OpStream
unfolding block
filter_add c [] = (c, [])
filter_add c (op ∷ input) =
    let here = if achieves c c.last_check_value op then c else block c op in
    let (c', output) = filter_add here input in
    (c', if achieves c c.last_check_value op then op ∷ output else output)

-- `filter_remove(input, output)`
unfoldable pub filter_remove : Constraint → OpStream → Constraint × OpStream
filter_remove c [] = (c, [])
filter_remove c (op ∷ input) =
    let here =
      if contains op c.blocked_ops then record c { blocked_ops = erase op c.blocked_ops } else c in
    let (c', output) = filter_remove here input in
    (c', if contains op c.blocked_ops then output else op ∷ output)

-- The value that `update` compares with: the goal times the error coefficient of the adaptor.
unfoldable pub final_goal_value : Environment → Constraint → Value
final_goal_value env c =
    env.times (Goal.get env c.target_goal)
      (elim c.knowledge_adaptor [ some adaptor ↦ env.coefficient_at adaptor | none ↦ env.one ])

-- The loop of `update` where the situation gets worse: what does not achieve the new goal.
unfoldable pub invalidate : Constraint → Value → OpStream → OpStream
invalidate c final [] = []
invalidate c final (op ∷ diff) =
    let rest = invalidate c final diff in if achieves c final op then rest else op ∷ rest

-- The loop of `update` where it gets better: what is blocked here and achieves the new goal is released.
unfoldable pub validate : Constraint → Value → OpStream → Constraint × OpStream
validate c final [] = (c, [])
validate c final (op ∷ diff) =
    let released = contains op c.blocked_ops && achieves c final op in
    let here = if released then record c { blocked_ops = erase op c.blocked_ops } else c in
    let (c', validated) = validate here final diff in
    (c', if released then op ∷ validated else validated)

-- What `update` returns through its two parameters, beside the constraint.
pub record Update : Type 0 where
  pub constraint : Constraint
  pub invalidated_ops : OpStream
  pub validated_ops : OpStream

-- The branches of `update` where the value to compare with has changed.
unfoldable pub update_to : Constraint → Value → Update
update_to c final =
    let diff = View.range_between c.knowledge_view c.last_check_value final in
    if check c.target_goal final c.last_check_value
    then record {
      constraint = record c { last_check_value = final };
      invalidated_ops = invalidate c final diff;
      validated_ops = [];
    }
    else let (c', validated) = validate c final diff in
      record {
        constraint = record c' { last_check_value = final };
        invalidated_ops = [];
        validated_ops = validated;
      }

-- `update(invalidated_ops, validated_ops)`
unfoldable pub update : Environment → Constraint → Update
update env c =
    if final_goal_value env c == c.last_check_value
    then record { constraint = c; invalidated_ops = []; validated_ops = [] }
    else update_to c (final_goal_value env c)
