-- ===== src/Asrtm/Tests.antt =====
-- A manager with four Operating Points and one constraint, and the theorems at it.
use margot_project.Base.{
  ℕ, ◌*◌, ◌+◌, true, ◌&&◌, not, List, [], ◌∷◌, Option, none, some, OpPtr, ◌≡◌, refl, Value,
}
use margot_project.Enums.{less}
use margot_project.Goal.{Goal, Environment, check}
use margot_project.Goal
use margot_project.PtrSet
use margot_project.Multimap
use margot_project.View
use margot_project.Constraint
use margot_project.Rank
use margot_project.Rank.Laws.{IsBetter}
use margot_project.Knowledge.{Configuration, find_in}
use margot_project.Knowledge
use margot_project.Knowledge.Laws.{holds, Keyed}
use margot_project.State.{State}
use margot_project.State
use margot_project.State.Stack
use margot_project.Constraint.Filters.{passes}
use margot_project.State.Insertion.{HasNot, FirstAlone}
use margot_project.State.Problem.{achieves_all}
use margot_project.Asrtm.{
  Asrtm, default, add_to_knowledge, remove_from_knowledge, remove_operating_points,
  get_number_operating_points, add_operating_points, create_new_state, change_active_state,
}
use margot_project.Asrtm.States
use margot_project.Asrtm.Run.{
  active_state, on_active_state, add_constraint, observe, find_best_configuration,
}
use margot_project.Asrtm.Handler.{Message, explore, prediction, welcome, abort, handle_messages}
use margot_project.Asrtm.Validity.{IsValid}
use margot_project.Asrtm.Removal.{is_listed, remove_operating_points-removes}
use margot_project.Asrtm.Addition.{or_new, first_with, add_operating_points-adds}
use margot_project.Asrtm.Methods.{of_After}
use margot_project.Asrtm.Reachable.{
  IsSeparate, Reachable, fresh, later, adds, creates_state, activates, constrains,
}
use margot_project.Asrtm.Invariant.{
  Reachable-IsValid, find_best_configuration_optimal, handle_messages-IsValid,
}

-- The configuration of an Operating Point is its address, its time 10 times that.
abbrev knobs : OpPtr → Configuration
knobs p = p

abbrev convert : ℕ → List OpPtr
convert payload = payload ∷ 9 ∷ []

abbrev time : OpPtr → Value
time p = 10 * p

abbrev env : Environment
env = record { goal_value_at = λ a. 35; coefficient_at = λ a. 1; times = λ v w. v * w; one = 1 }

abbrev time_goal : Goal
time_goal = record { comparison_function = less; goal_value = 0 }

abbrev or_else : Asrtm → Option Asrtm → Asrtm
or_else m none = m
or_else m (some m') = m'

abbrev filled : Asrtm
filled = create_new_state time 5 (add_operating_points knobs (1 ∷ 2 ∷ 2 ∷ 3 ∷ 4 ∷ []) default).0

abbrev active : Asrtm
active = or_else filled (change_active_state 5 filled)

abbrev ready : Asrtm
ready = or_else active (add_constraint env time_goal 0 time 10 active)

-- What the manager proposes.
proposal : Option OpPtr
unfolding default add_operating_points add_to_knowledge Knowledge.empty_knowledge Knowledge.add
    Knowledge.find_in Knowledge.to_stream Knowledge.stream_of create_new_state change_active_state
    States.find_state States.map_states States.set_state add_constraint active_state on_active_state
    State.default State.set_knowledge_base State.set_knowledge_adaptor State.add_constraint
    State.insert_constraint State.new_constraint State.place_constraint State.add_operating_points
    Stack.add_to_views Stack.before Stack.lower_bound Stack.upper_bound Stack.append_blocked
    Stack.push_down Stack.remove_lower Stack.reset_all Stack.set_adaptors Constraint.make
    Constraint.set Constraint.set_field_adaptor Constraint.filter_initialize Constraint.achieves
    Constraint.block check Goal.compare Goal.get PtrSet.emplace View.evaluate_op View.add
    View.add_all View.clear View.make View.range View.remove View.erase_in_range Multimap.emplace
    Rank.make Rank.add Rank.remove Rank.clear Rank.to_stream
proposal = (find_best_configuration (λ o e. e) env ready).0.proposed_best_configuration

separate : IsSeparate env time_goal 0 time 10 active
unfolding proposal
separate id st e =
    of_After
      (λ r.
        HasNot 10 r.1.constraints
        × FirstAlone
            (λ p. not (
              passes
                (State.new_constraint env time_goal 0 time (Knowledge.to_stream active.knowledge)
                  active.runtime_information)
                p))
            (Stack.upper_bound 10 r.1.constraints))
      (active_state active) (id, st) (tt, tt) e

ready-Reachable : Reachable knobs convert ready
unfolding proposal
ready-Reachable =
    later
      (later (later (later fresh (adds (1 ∷ 2 ∷ 2 ∷ 3 ∷ 4 ∷ []))) (creates_state time 5))
        (activates 5 refl))
      (constrains env time_goal 0 time 10 separate refl)

Reachable-IsValid_example : IsValid knobs ready
Reachable-IsValid_example = Reachable-IsValid knobs convert ready-Reachable

-- The configuration 4 is known, 8 is not.
remove_operating_points-removes_example :
    let (m', removed) = remove_operating_points (4 ∷ 8 ∷ []) ready in
    Keyed knobs m'.knowledge.knowledge
    × ((p : OpPtr)
        → holds knobs m'.knowledge p
          ≡ (holds knobs (Asrtm.knowledge ready) p && not (is_listed (knobs p) (4 ∷ 8 ∷ []))))
    × (get_number_operating_points ready ≡ get_number_operating_points m' + removed)
remove_operating_points-removes_example =
    remove_operating_points-removes knobs (4 ∷ 8 ∷ []) ready
      (Reachable-IsValid knobs convert ready-Reachable).0

one_removed : (remove_operating_points (4 ∷ 8 ∷ []) ready).1 ≡ 1
unfolding remove_operating_points remove_from_knowledge proposal Knowledge.remove Knowledge.erase_in
one_removed = refl

-- The configuration 4 is known, 8 comes twice.
add_operating_points-adds_example :
    let (m', added) = add_operating_points knobs (4 ∷ 8 ∷ 8 ∷ []) ready in
    Keyed knobs m'.knowledge.knowledge
    × ((conf : Configuration)
        → find_in conf m'.knowledge.knowledge
          ≡ or_new
              (find_in conf (Asrtm.knowledge ready).knowledge)
              (first_with knobs conf (4 ∷ 8 ∷ 8 ∷ [])))
    × (get_number_operating_points m' ≡ get_number_operating_points ready + added)
add_operating_points-adds_example =
    add_operating_points-adds knobs (4 ∷ 8 ∷ 8 ∷ []) ready
      (Reachable-IsValid knobs convert ready-Reachable).0

abbrev ready_state : State
ready_state = elim (States.find_state 5 ready.application_optimizers) [
  | some st ↦ st
  | none ↦ State.default time
]

find_best_configuration_optimal_example :
    (q : OpPtr) × ((find_best_configuration (λ o e. e) env ready).0.proposed_best_configuration
      ≡ some q)
    × (holds knobs ready.knowledge q ≡ true)
    × (achieves_all (observe (λ o e. e) env ready) ready_state.constraints q ≡ true)
    × ((o : OpPtr)
        → holds knobs ready.knowledge o ≡ true
        → achieves_all (observe (λ o' e. e) env ready) ready_state.constraints o ≡ true
        → ¬ IsBetter ready_state.rank o q)
unfolding proposal observe Constraint.final_goal_value
find_best_configuration_optimal_example =
    find_best_configuration_optimal knobs convert (λ o e. e) env ready 5 ready_state 2
      ready-Reachable refl refl refl

abbrev messages : List Message
messages =
    record { message_type = explore; payload = 3 }
    ∷ record { message_type = welcome; payload = 0 }
    ∷ record { message_type = abort; payload = 0 }
    ∷ record { message_type = prediction; payload = 6 }
    ∷ []

handle_messages-IsValid_example :
    (m' : Asrtm) × (handle_messages knobs convert messages ready ≡ some m') × IsValid knobs m'
handle_messages-IsValid_example =
    handle_messages-IsValid knobs convert messages ready (λ payload. refl)
      (Reachable-IsValid knobs convert ready-Reachable)
