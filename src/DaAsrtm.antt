-- ===== src/DaAsrtm.antt =====
-- margot/include/margot/da_asrtm.hpp: class DataAwareAsrtm, which keeps one manager for each cluster of
-- input features and forwards to the active one, or to all of them.
pub mod Handler
pub mod Validity
pub mod Removal
pub mod Reachable
mod Tests
use margot_project.Base.{
  ℕ, zero, suc, ◌==◌, ◌&&◌, if◌then◌else◌, Bool, true, false, List, [], ◌∷◌, ◌++◌, Option, none,
  some, OpPtr, Value, map,
}
use margot_project.Enums.{RankObjective, FeatureComparison, FeatureDistanceType}
use margot_project.Goal.{Goal, Environment}
use margot_project.Features.{Feature, Arithmetic, closest_from}
use margot_project.Knowledge.{Configuration}
use margot_project.CircularBuffer.{get_elem?}
use margot_project.Asrtm.{Asrtm}
use margot_project.Asrtm
use margot_project.Asrtm.States.{StateId, same_point}
use margot_project.Asrtm.Run

-- `std::deque<AsrtmElement>`
abbrev pub AsrtmContainer : Type 0
AsrtmContainer = List (Feature × Asrtm)

-- `active_manager` is the place that the iterator refers to, `none` the end iterator.
pub record DataAwareAsrtm : Type 0 where
  pub managers : AsrtmContainer
  pub active_manager : Option ℕ

-- The constructor
unfoldable pub default : DataAwareAsrtm
default = record { managers = []; active_manager = none }

-- `operator==` of two arrays
unfoldable pub same_key : Feature → Feature → Bool
same_key (a ∷ f) (b ∷ g) = let rest = same_key f g in a == b && rest
same_key [] [] = true
same_key _ _ = false

-- The place of the first manager with a key, from a place on.
unfoldable pub find_key : Feature → ℕ → AsrtmContainer → Option ℕ
find_key key at [] = none
find_key key at ((k, m) ∷ l) =
    let rest = find_key key (suc at) l in if same_key k key then some at else rest

-- The element that an iterator refers to, and a change of its manager.
unfoldable pub at_place : AsrtmContainer → ℕ → Option (Feature × Asrtm)
at_place [] i = none
at_place (e ∷ l) zero = some e
at_place (e ∷ l) (suc i) = at_place l i

unfoldable pub change_at : (Asrtm → Asrtm) → AsrtmContainer → ℕ → AsrtmContainer
change_at f [] i = []
change_at f ((k, m) ∷ l) zero = (k, f m) ∷ l
change_at f (e ∷ l) (suc i) = e ∷ change_at f l i

unfoldable pub active : DataAwareAsrtm → Option (ℕ × Feature × Asrtm)
active d = elim d.active_manager [
  | none ↦ none
  | some i ↦ elim (at_place d.managers i) [ some (k, m) ↦ some (i, k, m) | none ↦ none ]
]

-- `add_feature_cluster(key)`. With managers but no active one the code reads the key of the end iterator,
-- which is undefined: `none`.
unfoldable pub add_feature_cluster : Environment → Feature → DataAwareAsrtm → Option DataAwareAsrtm
add_feature_cluster env key d = elim d.managers [
  | [] ↦ some (record { managers = (key, Asrtm.default) ∷ []; active_manager = some 0 })
  | (k, first) ∷ l ↦ elim (active d) [
    | none ↦ none
    | some (i, key_actual_cluster, m) ↦
        let managers' : AsrtmContainer =
          (k, first) ∷ (l ++ ((key, Asrtm.Run.create_sibling env first) ∷ [])) in
        some (record {
          managers = managers';
          active_manager = find_key key_actual_cluster 0 managers';
        })
  ]
]

-- `select_feature_cluster(key)`. Without managers the code moves past the end iterator: `none`.
unfoldable pub select_feature_cluster :
    Arithmetic
    → FeatureDistanceType
    → List FeatureComparison
    → Feature
    → DataAwareAsrtm
    → Option DataAwareAsrtm
select_feature_cluster ops kind cfs key d = elim d.managers [
  | [] ↦ none
  | (first, m) ∷ l ↦
      let i = closest_from ops kind cfs key 0 first 1 (map (λ (e : Feature × Asrtm). e.0) l) in
      if same_point d.active_manager (some i)
      then some (record d { active_manager = some i })
      else some (record {
        managers = change_at Asrtm.Run.restore_from_data_feature_switch d.managers i;
        active_manager = some i;
      })
]

-- `managers.erase(it)`
unfoldable pub erase_at : ℕ → AsrtmContainer → AsrtmContainer
erase_at i [] = []
erase_at zero (e ∷ l) = l
erase_at (suc i) (e ∷ l) = e ∷ erase_at i l

-- Whether the end iterator that was taken before `managers.erase(it)` may still be used after it. An erasure
-- from a deque invalidates it, except that of the first element, if that is not the last one.
unfoldable pub keeps_end : ℕ → AsrtmContainer → Bool
keeps_end zero (e ∷ (e' ∷ l)) = true
keeps_end _ _ = false

-- `remove_feature_cluster(key)`. `active_manager != active_manager` is false, so `key_active` is the key
-- that is removed. The second loop runs to the end iterator that was taken before the erasure: where that
-- has been invalidated, the behaviour is undefined. That and a failed assertion are `none`.
unfoldable pub remove_feature_cluster : Feature → DataAwareAsrtm → Option DataAwareAsrtm
remove_feature_cluster key d = elim (find_key key 0 d.managers) [
  | none ↦ some (record d { active_manager = none })
  | some it ↦
      if same_point d.active_manager (some it)
      then none
      else if keeps_end it d.managers
      then some (record {
        managers = erase_at it d.managers;
        active_manager = find_key key 0 (erase_at it d.managers);
      })
      else none
]

-- The methods that call one method of the active manager, which they assert that there is.
unfoldable pub on_active : (Asrtm → Asrtm) → DataAwareAsrtm → Option DataAwareAsrtm
on_active f d = elim (active d) [
  | none ↦ none
  | some (i, k, m) ↦ some (record d { managers = change_at f d.managers i })
]

-- The loops that call one method of every manager; `none` is the failed assertion of one of them.
unfoldable pub for_each : (Asrtm → Option Asrtm) → AsrtmContainer → Option AsrtmContainer
for_each f [] = some []
for_each f ((k, m) ∷ l) = elim (f m) [
  | none ↦ none
  | some m' ↦ elim (for_each f l) [ some l' ↦ some ((k, m') ∷ l') | none ↦ none ]
]

unfoldable pub on_all : (Asrtm → Option Asrtm) → DataAwareAsrtm → Option DataAwareAsrtm
on_all f d = elim (for_each f d.managers) [
  | none ↦ none
  | some managers' ↦ some (record d { managers = managers' })
]

module _ (get_knobs : OpPtr → Configuration) where
  -- `add_operating_points(op_list)`, without the number that it returns
  unfoldable pub add_operating_points : List OpPtr → DataAwareAsrtm → Option DataAwareAsrtm
  add_operating_points op_list d =
      on_active (λ m. (Asrtm.add_operating_points get_knobs op_list m).0) d

  -- `get_best_configuration(configuration_changed)`
  unfoldable pub get_best_configuration :
      DataAwareAsrtm → Option (DataAwareAsrtm × Bool × Configuration)
  get_best_configuration d = elim (active d) [
    | none ↦ none
    | some (i, k, m) ↦ elim (Asrtm.get_best_configuration get_knobs m) [
      | none ↦ none
      | some (m', changed, conf) ↦
          some (record d { managers = change_at (λ m''. m') d.managers i }, changed, conf)
    ]
  ]

-- `remove_operating_points(configuration_list)`, without the number that it returns
unfoldable pub remove_operating_points : List Configuration → DataAwareAsrtm → Option DataAwareAsrtm
remove_operating_points l d = on_active (λ m. (Asrtm.remove_operating_points l m).0) d

-- `find_best_configuration()`
unfoldable pub find_best_configuration :
    (Option OpPtr → Environment → Environment)
    → Environment
    → DataAwareAsrtm
    → Option DataAwareAsrtm
find_best_configuration evaluate_error env d =
    on_active (λ m. (Asrtm.Run.find_best_configuration evaluate_error env m).0) d

-- `configuration_applied()`
unfoldable pub configuration_applied : DataAwareAsrtm → Option DataAwareAsrtm
configuration_applied d = on_active (λ m. (Asrtm.Run.configuration_applied m).0) d

-- `create_new_state(id)`, `remove_state(id)` and `change_active_state(id)`
unfoldable pub create_new_state : (OpPtr → Value) → StateId → DataAwareAsrtm → Option DataAwareAsrtm
create_new_state dummy_field id d = on_all (λ m. some (Asrtm.create_new_state dummy_field id m)) d

unfoldable pub remove_state : StateId → DataAwareAsrtm → Option DataAwareAsrtm
remove_state id d = on_all (Asrtm.remove_state id) d

unfoldable pub change_active_state : StateId → DataAwareAsrtm → Option DataAwareAsrtm
change_active_state id d = on_all (Asrtm.change_active_state id) d

-- `add_runtime_knowledge(monitor)`; each manager makes its own adaptor, at its own address, which
-- `coefficient_of` gives by what the manager had.
unfoldable pub add_runtime_knowledge : ℕ → (Asrtm → ℕ) → ℕ → DataAwareAsrtm → Option DataAwareAsrtm
add_runtime_knowledge field coefficient_of buffer d =
    on_all (λ m. some (Asrtm.Run.add_runtime_knowledge field (coefficient_of m) buffer m)) d

-- `add_constraint(goal_value, priority)`, `remove_constraint(priority)`, `set_rank(values...)`
unfoldable pub add_constraint :
    Environment → Goal → ℕ → (OpPtr → Value) → ℕ → DataAwareAsrtm → Option DataAwareAsrtm
add_constraint env goal field evaluate priority d =
    on_all (Asrtm.Run.add_constraint env goal field evaluate priority) d

unfoldable pub remove_constraint : ℕ → DataAwareAsrtm → Option DataAwareAsrtm
remove_constraint priority d = on_all (Asrtm.Run.remove_constraint priority) d

unfoldable pub set_rank : RankObjective → (OpPtr → Value) → DataAwareAsrtm → Option DataAwareAsrtm
set_rank objective evaluate d = on_all (Asrtm.Run.set_rank objective evaluate) d

-- `start_support_thread(...)`: the managers are told to explore.
unfoldable pub start_support_thread : DataAwareAsrtm → Option DataAwareAsrtm
start_support_thread d = on_all (λ m. some (Asrtm.Run.set_autotuner_in_dse m)) d

-- `get_selected_feature<index>()`, `get_number_operating_points()`, `is_application_knowledge_empty()` and
-- `in_design_space_exploration()`; `T{}` is the first argument.
unfoldable pub get_selected_feature : Value → ℕ → DataAwareAsrtm → Value
get_selected_feature t index d = elim (active d) [
  | none ↦ t
  | some (i, k, m) ↦ elim (get_elem? k index) [ some v ↦ v | none ↦ t ]
]

unfoldable pub get_number_operating_points : DataAwareAsrtm → Option ℕ
get_number_operating_points d = elim (active d) [
  | none ↦ none
  | some (i, k, m) ↦ some (Asrtm.get_number_operating_points m)
]

unfoldable pub is_application_knowledge_empty : DataAwareAsrtm → Bool
is_application_knowledge_empty d = elim (active d) [
  | none ↦ true
  | some (i, k, m) ↦ Asrtm.is_application_knowledge_empty m
]

unfoldable pub in_design_space_exploration : DataAwareAsrtm → Bool
in_design_space_exploration d = elim (active d) [
  | none ↦ true
  | some (i, k, m) ↦ Asrtm.in_design_space_exploration m
]
