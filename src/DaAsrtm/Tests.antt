-- ===== src/DaAsrtm/Tests.antt =====
-- Two clusters of input sizes, and the theorems at them.
use margot_project.Base.{
  ℕ, ◌+◌, ◌-◌, ◌*◌, ◌<◌, length, arith, true, not, List, [], ◌∷◌, Option, none, some, OpPtr, ◌≡◌,
  refl, Value,
}
use margot_project.Enums.{less, greater_or_equal, euclidean}
use margot_project.Goal.{Goal, Environment, check}
use margot_project.Goal
use margot_project.PtrSet
use margot_project.Multimap
use margot_project.View
use margot_project.Constraint
use margot_project.Constraint.Filters.{passes}
use margot_project.Rank
use margot_project.Rank.Laws.{IsBetter}
use margot_project.Knowledge.{Configuration}
use margot_project.Knowledge
use margot_project.Knowledge.Laws.{holds}
use margot_project.State.{State}
use margot_project.State
use margot_project.State.Stack
use margot_project.State.Insertion.{HasNot, FirstAlone}
use margot_project.State.Problem.{achieves_all}
use margot_project.CircularBuffer.{get_elem?}
use margot_project.Features.{Feature, Arithmetic, closest_from}
use margot_project.Features
use margot_project.Features.Laws.{IsClosest, closest_from-IsClosest}
use margot_project.Asrtm.{Asrtm}
use margot_project.Asrtm
use margot_project.Asrtm.States
use margot_project.Asrtm.Handler.{Message, explore, prediction, welcome}
use margot_project.DaAsrtm.Handler.{handle_messages, first_op}
use margot_project.Asrtm.Run.{active_state, observe}
use margot_project.Asrtm.Run
use margot_project.Asrtm.Methods.{After, of_After}
use margot_project.Asrtm.Reachable.{IsSeparate}
use margot_project.DaAsrtm.{DataAwareAsrtm, active}
use margot_project.DaAsrtm
use margot_project.DaAsrtm.Reachable.{
  Reachable, fresh, later, adds_cluster, adds, creates_state, activates, constrains,
  selects_cluster,
}
use margot_project.DaAsrtm.Reachable.Messages.{AreValid, handle_messages-AreValid}
use margot_project.DaAsrtm.Reachable.Invariant.{Reachable-AreValid}
use margot_project.DaAsrtm.Reachable.Optimum.{active_proposal_optimal}

abbrev knobs : OpPtr → Configuration
knobs p = p

abbrev time : OpPtr → Value
time p = 10 * p

abbrev env : Environment
env = record { goal_value_at = λ a. 35; coefficient_at = λ a. 1; times = λ v w. v * w; one = 1 }

abbrev time_goal : Goal
time_goal = record { comparison_function = less; goal_value = 0 }

-- Distances are far from the bounds of the type.
abbrev numbers : Arithmetic
numbers = record {
  minus = λ a b. (a - b) + (b - a);
  plus = λ a b. a + b;
  times = λ a b. a * b;
  divide = λ a b. 0;
  zero = 0;
}

abbrev or_else : DataAwareAsrtm → Option DataAwareAsrtm → DataAwareAsrtm
or_else d none = d
or_else d (some d') = d'

abbrev clusters : DataAwareAsrtm
clusters = or_else DaAsrtm.default (DaAsrtm.add_feature_cluster env (10 ∷ []) DaAsrtm.default)

abbrev both : DataAwareAsrtm
both = or_else clusters (DaAsrtm.add_feature_cluster env (20 ∷ []) clusters)

abbrev selected : DataAwareAsrtm
selected =
    or_else both
      (DaAsrtm.select_feature_cluster numbers euclidean (greater_or_equal ∷ []) (17 ∷ []) both)

abbrev filled : DataAwareAsrtm
filled = or_else selected (DaAsrtm.add_operating_points knobs (1 ∷ 2 ∷ 3 ∷ 4 ∷ []) selected)

abbrev with_state : DataAwareAsrtm
with_state = or_else filled (DaAsrtm.create_new_state time 5 filled)

abbrev started : DataAwareAsrtm
started = or_else with_state (DaAsrtm.change_active_state 5 with_state)

abbrev ready : DataAwareAsrtm
ready = or_else started (DaAsrtm.add_constraint env time_goal 0 time 10 started)

abbrev manager_at : ℕ → DataAwareAsrtm → Asrtm
manager_at i d = elim (DaAsrtm.at_place d.managers i) [ none ↦ Asrtm.default | some e ↦ e.1 ]

abbrev manager_of : DataAwareAsrtm → Asrtm
manager_of d = elim (active d) [ none ↦ Asrtm.default | some (i, k, m) ↦ m ]

-- What the active manager proposes.
proposal : Option OpPtr
unfolding Asrtm.default Asrtm.add_operating_points Asrtm.add_to_knowledge Knowledge.empty_knowledge
    Knowledge.add Knowledge.find_in Knowledge.to_stream Knowledge.stream_of Asrtm.create_new_state
    Asrtm.change_active_state Asrtm.set_single_point States.find_state States.map_states
    States.set_state Asrtm.Run.add_constraint active_state Asrtm.Run.on_active_state
    Asrtm.Run.create_sibling Asrtm.Run.sibling_states Asrtm.Run.restore_from_data_feature_switch
    State.default State.set_knowledge_base State.set_knowledge_adaptor State.add_constraint
    State.insert_constraint State.new_constraint State.place_constraint State.add_operating_points
    Stack.add_to_views Stack.before Stack.lower_bound Stack.upper_bound Stack.append_blocked
    Stack.push_down Stack.remove_lower Stack.reset_all Stack.set_adaptors Constraint.make
    Constraint.set Constraint.set_field_adaptor Constraint.filter_initialize Constraint.achieves
    Constraint.block check Goal.compare Goal.get PtrSet.emplace View.evaluate_op View.add
    View.add_all View.clear View.make View.range View.remove View.erase_in_range Multimap.emplace
    Rank.make Rank.add Rank.remove Rank.clear Rank.to_stream DaAsrtm.default DaAsrtm.same_key
    DaAsrtm.find_key DaAsrtm.at_place DaAsrtm.change_at active DaAsrtm.add_feature_cluster
    DaAsrtm.select_feature_cluster DaAsrtm.erase_at DaAsrtm.keeps_end DaAsrtm.remove_feature_cluster
    DaAsrtm.on_active DaAsrtm.for_each DaAsrtm.on_all DaAsrtm.add_operating_points
    DaAsrtm.create_new_state DaAsrtm.change_active_state DaAsrtm.add_constraint closest_from
    Features.selects_target Features.distances Features.data_features_distance
    Features.distance_from Features.squared Features.data_features_admissible Features.compare
    observe Constraint.final_goal_value get_elem?
proposal =
    (Asrtm.Run.find_best_configuration (λ o e. e) env
      (manager_of ready)).0.proposed_best_configuration

IsSeparate-of :
    (m : Asrtm)
    → After
        (λ r.
          HasNot 10 r.1.constraints
          × FirstAlone
              (λ p. not (
                passes
                  (State.new_constraint env time_goal 0 time
                    (Knowledge.to_stream m.knowledge)
                    m.runtime_information)
                  p))
              (Stack.upper_bound 10 r.1.constraints))
        (active_state m)
    → IsSeparate env time_goal 0 time 10 m
IsSeparate-of m h id st e = of_After _ (active_state m) (id, st) h e

ready-Reachable : Reachable knobs ready
unfolding proposal
ready-Reachable =
    later
      (later
        (later
          (later
            (later
              (later (later fresh (adds_cluster env (10 ∷ []) refl))
                (adds_cluster env (20 ∷ []) refl))
              (selects_cluster numbers euclidean (greater_or_equal ∷ []) (17 ∷ []) refl))
            (adds (1 ∷ 2 ∷ 3 ∷ 4 ∷ []) refl))
          (creates_state time 5 refl))
        (activates 5 refl))
      (constrains env time_goal 0 time 10
        (
          IsSeparate-of (manager_at 0 started) (tt, tt),
          (IsSeparate-of (manager_at 1 started) (tt, tt), tt),
        )
        refl)

Reachable-AreValid_example : AreValid knobs ready
Reachable-AreValid_example = Reachable-AreValid knobs ready-Reachable

abbrev ready_state : State
ready_state = elim (States.find_state 5 (manager_of ready).application_optimizers) [
  | some st ↦ st
  | none ↦ State.default time
]

active_proposal_optimal_example :
    (d' : DataAwareAsrtm) × (m' : Asrtm) × (DaAsrtm.find_best_configuration (λ o e. e) env ready
      ≡ some d')
    × (active d' ≡ some (1, 20 ∷ [], m'))
    × ((q : OpPtr) × (m'.proposed_best_configuration ≡ some q)
        × (holds knobs (manager_of ready).knowledge q ≡ true)
        × (achieves_all (observe (λ o e. e) env (manager_of ready)) ready_state.constraints q
            ≡ true)
        × ((o : OpPtr)
            → holds knobs (manager_of ready).knowledge o ≡ true
            → achieves_all (observe (λ o' e. e) env (manager_of ready)) ready_state.constraints o
              ≡ true
            → ¬ IsBetter ready_state.rank o q))
unfolding proposal
active_proposal_optimal_example =
    active_proposal_optimal knobs (λ o e. e) env ready 1 (20 ∷ []) (manager_of ready) 5 ready_state
      2 ready-Reachable refl refl refl refl

-- The first of the two clusters is erased.
abbrev first_erased : DataAwareAsrtm
first_erased = or_else both (DaAsrtm.remove_feature_cluster (10 ∷ []) selected)

-- The erasure of the second one invalidates the end iterator.
second_undefined : DaAsrtm.remove_feature_cluster (20 ∷ []) both ≡ none
unfolding proposal
second_undefined = refl

closest_from-IsClosest_example :
    (c : Feature) × (get_elem? ((10 ∷ []) ∷ (20 ∷ []) ∷ (14 ∷ []) ∷ []) (
        closest_from numbers euclidean
          (greater_or_equal ∷ [])
          (17 ∷ [])
          0
          (10 ∷ [])
          1
          ((20 ∷ []) ∷ (14 ∷ []) ∷ []))
      ≡ some c)
    × IsClosest numbers (greater_or_equal ∷ []) (17 ∷ []) c ((10 ∷ []) ∷ (20 ∷ []) ∷ (14 ∷ []) ∷ [])
closest_from-IsClosest_example =
    closest_from-IsClosest numbers (greater_or_equal ∷ []) (17 ∷ []) (10 ∷ [])
      ((20 ∷ []) ∷ (14 ∷ []) ∷ [])

abbrev convert : ℕ → List (Feature × List OpPtr)
convert payload = (payload ∷ [], 1 ∷ 2 ∷ []) ∷ (9 ∷ [], []) ∷ []

abbrev messages : List (Environment × Message)
messages =
    (env, record { message_type = explore; payload = 3 })
    ∷ (env, record { message_type = welcome; payload = 0 })
    ∷ (env, record { message_type = prediction; payload = 6 })
    ∷ (env, record { message_type = explore; payload = 4 })
    ∷ []

handle_messages-AreValid_example :
    (d' : DataAwareAsrtm) × (handle_messages knobs convert messages ready ≡ some d')
    × (0 < length d'.managers)
    × AreValid knobs d'
unfolding proposal first_op
handle_messages-AreValid_example =
    handle_messages-AreValid knobs convert (λ payload. (1, refl)) messages ready (omega arith)
      (Reachable-AreValid knobs ready-Reachable)
