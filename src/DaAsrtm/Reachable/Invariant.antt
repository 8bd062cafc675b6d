-- ===== src/DaAsrtm/Reachable/Invariant.antt =====
-- The managers of every clustered manager that is reached.
use margot_project.Base.{
  ◌<◌, List, [], ◌∷◌, ◌++◌, some, arith, length, Option-cases, Bool-cases, List-cases, inl, inr,
  subst, map, OpPtr,
}
use margot_project.Enums.{FeatureDistanceType, FeatureComparison}
use margot_project.Goal.{Environment}
use margot_project.Knowledge.{Configuration, empty_knowledge}
use margot_project.Features.{Feature, Arithmetic, closest_from}
use margot_project.Features.Laws.{closest_from-bound}
use margot_project.Asrtm.{Asrtm}
use margot_project.Asrtm
use margot_project.Asrtm.Run
use margot_project.Asrtm.States.{same_point}
use margot_project.Asrtm.Validity.{IsValid}
use margot_project.Asrtm.Laws.{add_operating_points-IsValid, remove_operating_points-IsValid}
use margot_project.Asrtm.Methods.{
  of_After, create_new_state-IsValid, remove_state-After, change_active_state-After,
  find_best_configuration-IsValid, get_best_configuration-After, add_runtime_knowledge-IsValid,
  create_sibling-IsValid, After,
}
use margot_project.Asrtm.Goals.{add_constraint-After, remove_constraint-After, set_rank-After}
use margot_project.Asrtm.Reachable.{IsSeparate}
use margot_project.DaAsrtm.{
  DataAwareAsrtm, AsrtmContainer, default, find_key, change_at, active, add_feature_cluster,
  select_feature_cluster, erase_at, keeps_end, remove_feature_cluster, on_active,
  add_operating_points, get_best_configuration, remove_operating_points, find_best_configuration,
  configuration_applied, create_new_state, remove_state, change_active_state, add_runtime_knowledge,
  add_constraint, remove_constraint, set_rank, start_support_thread,
}
use margot_project.DaAsrtm.Validity.{
  AllManagers, IsPlaced, AllManagers-zip, AllManagers-map, AllManagers-append,
  change_at-AllManagers, erase_at-AllManagers, length-change_at, length-map, active-AllManagers,
  IsPlaced-length, find_key-IsPlaced,
}
use margot_project.DaAsrtm.Reachable.Messages.{
  AreValid, on_all-AreValid, on_all-step, handle-AreValid,
}
use margot_project.DaAsrtm.Reachable.{
  Step, adds_cluster, selects_cluster, removes_cluster, adds, removes, creates_state, removes_state,
  activates, monitors, constrains, releases, ranks, finds, gets, applies, starts, receives,
  Reachable, fresh, later,
}

module _ (get_knobs : OpPtr → Configuration) where
  find_key-place : (key : Feature) (l : AsrtmContainer) → IsPlaced l (find_key key 0 l)
  find_key-place key l = elim (Option-cases (find_key key 0 l)) [
    | inl missing ↦ rw missing tt
    | inr (i, found) ↦
        let below = find_key-IsPlaced key 0 l i found in rw found (ground (arith, below))
  ]

  on_active-AreValid :
      (f : Asrtm → Asrtm) (d : DataAwareAsrtm)
      → ((m : Asrtm) → IsValid get_knobs m → IsValid get_knobs (f m))
      → AreValid get_knobs d
      → After (AreValid get_knobs) (on_active f d)
  unfolding on_active
  on_active-AreValid f d step h = elim (Option-cases (active d)) [
    | inl inactive ↦ rw (inactive, After, on_active) tt
    | inr ((i, k, m), found) ↦
        rw (found, After, on_active)
          (
            change_at-AllManagers (IsValid get_knobs) f d.managers i step h.0,
            IsPlaced-length d.managers (change_at f d.managers i) d.active_manager
                (length-change_at f d.managers i) h.1,
          )
  ]

  add_feature_cluster-AreValid :
      (env : Environment) (key : Feature) (d : DataAwareAsrtm)
      → AreValid get_knobs d
      → After (AreValid get_knobs) (add_feature_cluster env key d)
  unfolding add_feature_cluster Asrtm.default empty_knowledge
  add_feature_cluster-AreValid env key d h = elim (List-cases d.managers) [
    | inl empty ↦ rw (empty, After, add_feature_cluster) (((tt, tt), tt), omega arith)
    | inr (((k, first), l), some_managers) ↦ elim (Option-cases (active d)) [
      | inl inactive ↦ rw (some_managers, inactive, After, add_feature_cluster) tt
      | inr ((i, key_actual_cluster, m), found) ↦
          let managers' : AsrtmContainer =
            (k, first) ∷ (l ++ ((key, Asrtm.Run.create_sibling env first) ∷ [])) in
          let before = subst (AllManagers (IsValid get_knobs)) some_managers h.0 in
          rw (some_managers, found, After, add_feature_cluster)
            (
              AllManagers-append (IsValid get_knobs) ((k, first) ∷ l) key
                  (Asrtm.Run.create_sibling env first) before
                  (create_sibling-IsValid get_knobs env first),
              find_key-place key_actual_cluster managers',
            )
    ]
  ]

  select_feature_cluster-AreValid :
      (ops : Arithmetic) (kind : FeatureDistanceType) (cfs : List FeatureComparison) (key : Feature)
      (d : DataAwareAsrtm)
      → AreValid get_knobs d
      → After (AreValid get_knobs) (select_feature_cluster ops kind cfs key d)
  unfolding select_feature_cluster Asrtm.Run.restore_from_data_feature_switch
  select_feature_cluster-AreValid ops kind cfs key d h = elim (List-cases d.managers) [
    | inl empty ↦ rw (empty, After, select_feature_cluster) tt
    | inr (((first, m), l), some_managers) ↦
        let i = closest_from ops kind cfs key 0 first 1 (map (λ (e : Feature × Asrtm). e.0) l) in
        let placed : i < length d.managers =
          let below =
            closest_from-bound ops kind cfs key 0 first 1 (map (λ (e : Feature × Asrtm). e.0) l)
              (omega arith) in
          ground (arith, below, some_managers, length-map l) in
        elim (Bool-cases (same_point d.active_manager (some i))) [
          | inl same ↦ rw (some_managers, same, After, select_feature_cluster) (h.0, placed)
          | inr other ↦
              rw (some_managers, other, After, select_feature_cluster)
                (
                  change_at-AllManagers (IsValid get_knobs)
                      Asrtm.Run.restore_from_data_feature_switch d.managers i (λ m' v. v) h.0,
                  IsPlaced-length d.managers
                      (change_at Asrtm.Run.restore_from_data_feature_switch d.managers i) (some i)
                      (length-change_at Asrtm.Run.restore_from_data_feature_switch d.managers i)
                      placed,
                )
        ]
  ]

  remove_feature_cluster-AreValid :
      (key : Feature) (d : DataAwareAsrtm)
      → AreValid get_knobs d
      → After (AreValid get_knobs) (remove_feature_cluster key d)
  unfolding remove_feature_cluster
  remove_feature_cluster-AreValid key d h = elim (Option-cases (find_key key 0 d.managers)) [
    | inl missing ↦ rw (missing, After, remove_feature_cluster) (h.0, tt)
    | inr (it, found) ↦ elim (Bool-cases (same_point d.active_manager (some it))) [
      | inl same ↦ rw (found, same, After, remove_feature_cluster) tt
      | inr other ↦ elim (Bool-cases (keeps_end it d.managers)) [
        | inl kept ↦
            rw (found, other, kept, After, remove_feature_cluster)
              (
                erase_at-AllManagers (IsValid get_knobs) it d.managers h.0,
                find_key-place key (erase_at it d.managers),
              )
        | inr lost ↦ rw (found, other, lost, After, remove_feature_cluster) tt
      ]
    ]
  ]

  get_best_configuration-AreValid :
      (d : DataAwareAsrtm)
      → AreValid get_knobs d
      → After (λ r. AreValid get_knobs r.0) (get_best_configuration get_knobs d)
  unfolding get_best_configuration
  get_best_configuration-AreValid d h = elim (Option-cases (active d)) [
    | inl inactive ↦ rw (inactive, After, get_best_configuration) tt
    | inr ((i, k, m), found) ↦ elim (Option-cases (Asrtm.get_best_configuration get_knobs m)) [
      | inl failed ↦ rw (found, failed, After, get_best_configuration) tt
      | inr ((m', changed, conf), done) ↦
          let valid : IsValid get_knobs m' =
            of_After (λ r. IsValid get_knobs r.0) (Asrtm.get_best_configuration get_knobs m)
              (m', changed, conf)
              (get_best_configuration-After get_knobs m
                (active-AllManagers (IsValid get_knobs) d i k m h.0 found))
              done in
          rw (found, done, After, get_best_configuration)
            (
              change_at-AllManagers (IsValid get_knobs) (λ m''. m') d.managers i (λ m'' v. valid)
                  h.0,
              IsPlaced-length d.managers (change_at (λ m''. m') d.managers i) d.active_manager
                  (length-change_at (λ m''. m') d.managers i) h.1,
            )
    ]
  ]

  -- Each call keeps the managers valid.
  Step-AreValid :
      {d d' : DataAwareAsrtm} → AreValid get_knobs d → Step get_knobs d d' → AreValid get_knobs d'
  unfolding add_operating_points remove_operating_points create_new_state remove_state
      change_active_state add_runtime_knowledge add_constraint remove_constraint set_rank
      find_best_configuration configuration_applied start_support_thread
      Asrtm.Run.configuration_applied Asrtm.Run.set_autotuner_in_dse
  Step-AreValid {d} {d'} h (adds_cluster env key e) =
      of_After (AreValid get_knobs) _ d' (add_feature_cluster-AreValid env key d h) e
  Step-AreValid {d} {d'} h (selects_cluster ops kind cfs key e) =
      of_After (AreValid get_knobs) _ d' (select_feature_cluster-AreValid ops kind cfs key d h) e
  Step-AreValid {d} {d'} h (removes_cluster key e) =
      of_After (AreValid get_knobs) _ d' (remove_feature_cluster-AreValid key d h) e
  Step-AreValid {d} {d'} h (adds l e) =
      of_After (AreValid get_knobs) _ d'
        (on_active-AreValid _ d (add_operating_points-IsValid get_knobs l) h) e
  Step-AreValid {d} {d'} h (removes l e) =
      of_After (AreValid get_knobs) _ d'
        (on_active-AreValid _ d (remove_operating_points-IsValid get_knobs l) h) e
  Step-AreValid {d} {d'} h (creates_state dummy_field id e) =
      of_After (AreValid get_knobs) _ d'
        (on_all-step get_knobs _ d (create_new_state-IsValid get_knobs dummy_field id) h) e
  Step-AreValid {d} {d'} h (removes_state id e) =
      of_After (AreValid get_knobs) _ d'
        (on_all-step get_knobs _ d (remove_state-After get_knobs id) h) e
  Step-AreValid {d} {d'} h (activates id e) =
      of_After (AreValid get_knobs) _ d'
        (on_all-step get_knobs _ d (change_active_state-After get_knobs id) h) e
  Step-AreValid {d} {d'} h (monitors field coefficient_of buffer e) =
      of_After (AreValid get_knobs) _ d'
        (on_all-step get_knobs _ d
          (λ m. add_runtime_knowledge-IsValid get_knobs field (coefficient_of m) buffer m) h)
        e
  Step-AreValid {d} {d'} h (constrains env goal field evaluate priority separate e) =
      of_After (AreValid get_knobs) _ d'
        (on_all-AreValid get_knobs _ d
          (AllManagers-zip (IsSeparate env goal field evaluate priority) (IsValid get_knobs) _
            d.managers
            (λ m s v m'. add_constraint-After get_knobs env goal field evaluate priority m m' s v)
            separate h.0)
          h)
        e
  Step-AreValid {d} {d'} h (releases priority e) =
      of_After (AreValid get_knobs) _ d'
        (on_all-AreValid get_knobs _ d
          (AllManagers-map (IsValid get_knobs) _ d.managers
            (λ m v m'. remove_constraint-After get_knobs priority m m' v) h.0)
          h)
        e
  Step-AreValid {d} {d'} h (ranks objective evaluate e) =
      of_After (AreValid get_knobs) _ d'
        (on_all-AreValid get_knobs _ d
          (AllManagers-map (IsValid get_knobs) _ d.managers
            (λ m v m'. set_rank-After get_knobs objective evaluate m m' v) h.0)
          h)
        e
  Step-AreValid {d} {d'} h (finds evaluate_error env e) =
      of_After (AreValid get_knobs) _ d'
        (on_active-AreValid _ d (find_best_configuration-IsValid get_knobs evaluate_error env) h) e
  Step-AreValid {d} {d'} h (gets changed conf e) =
      of_After (λ r. AreValid get_knobs r.0) _ (d', changed, conf)
        (get_best_configuration-AreValid d h) e
  Step-AreValid {d} {d'} h (applies e) =
      of_After (AreValid get_knobs) _ d' (on_active-AreValid _ d (λ m v. v) h) e
  Step-AreValid {d} {d'} h (starts e) =
      of_After (AreValid get_knobs) _ d' (on_all-step get_knobs _ d (λ m v. v) h) e
  Step-AreValid {d} {d'} h (receives get_op env kind payload sent e) =
      of_After (λ r. AreValid get_knobs r.0) _ (d', sent)
        (handle-AreValid get_knobs get_op env kind payload d h) e

  -- In every clustered manager that is reached by calls of the application and messages of the server
  -- with no failed assertion and no use of an iterator that an erasure has invalidated, where
  -- `add_constraint` is called with a free priority and only the first constraint of lower
  -- priority blocks what the new one rejects: the manager of each cluster is valid (its configurations
  -- differ, each of its states splits its knowledge among the constraints and the rank, and what a state
  -- remembers is not stale), and the iterator to the active manager is the end or refers to a manager.
  pub Reachable-AreValid : {d : DataAwareAsrtm} → Reachable get_knobs d → AreValid get_knobs d
  unfolding default
  Reachable-AreValid fresh = (tt, tt)
  Reachable-AreValid (later r s) = Step-AreValid (Reachable-AreValid r) s
