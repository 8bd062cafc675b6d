-- ===== src/Agora/Handler/Alone.antt =====
-- `process_observation` with no other thread in between: it returns, and where it leaves the handler.
use margot_project.Base.{
  suc, ◌||◌, not, ◌&&◌, ltb, if◌then◌else◌, Bool, true, false, is_empty, List, ◌++◌, Option, none,
  some, ◌≡◌, refl, arith, ap, subst, Bool-cases, inl, inr, ◌∙◌,
}
use margot_project.Agora.Handler.{
  InternalStatus, exploring, with_doe, with_model, with_cluster, bit, both, ClientId, Storage,
  Effect, RemoteApplicationHandler, set_state, add_state, check_state, are_models_valid,
  is_doe_valid, is_cluster_valid, is_prediction_valid, start_doe, start_prediction, start_modeling,
  start_clustering,
}
use margot_project.Agora.Handler.Modes.{
  Mode, lost, exploration, knowledge, flags, send_configuration_lem, send_configurations_lem,
}
use margot_project.Agora.Handler.Observation.{
  Phase, modeling, predicting, planning, Stepped, start_exploration, collect_more, start_phase,
  after_observation, check_models, check_clusters, after_modeling, after_predicting, after_planning,
  resume, go_on, process_observation,
}

-- The thread has returned, and the handler is in the mode.
abbrev pub IsEnd : Mode → Stepped → Type 0
IsEnd m s = (s.2 ≡ none) × ((t : InternalStatus) → s.0.handler_status t ≡ flags m t)

module _ (at : Phase → Storage) where
  go_on-IsEnd : (m : Mode) (s : Stepped) → IsEnd m s → IsEnd m (go_on at s)
  unfolding go_on
  go_on-IsEnd m (h, es, none) e = e
  go_on-IsEnd m (h, es, some p) e = absurd (ground arith)

  -- Where the end of the method leads: on with the exploration, if there is something to explore.
  abbrev pub after_doe : RemoteApplicationHandler → Mode
  after_doe h =
      if is_doe_valid h || not (is_empty (at planning).load_doe) then exploration else lost

  -- To the application knowledge, if the plugin predicts some.
  abbrev pub after_prediction : RemoteApplicationHandler → Mode
  after_prediction h =
      if not (is_empty (at predicting).load_prediction) then knowledge else after_doe h

  -- The prediction plugin is started, if all models are valid and, with input features, there are
  -- clusters.
  abbrev pub are_valid : RemoteApplicationHandler → Bool
  are_valid h =
      are_models_valid (at modeling) h
      && (if h.description.features_enabled
          then not (is_empty (at modeling).load_cluster)
          else true)

  abbrev pub after_models : RemoteApplicationHandler → Mode
  after_models h = if are_valid h then after_prediction h else after_doe h

  -- If more configurations of the iteration are to be sent, nothing but that.
  abbrev pub outcome : RemoteApplicationHandler → Mode
  outcome h =
      if is_doe_valid h
        && ltb h.num_configurations_sent_per_iteration h.num_configurations_per_iteration
      then exploration
      else after_models h

  start_exploration-IsEnd : (h : RemoteApplicationHandler) → IsEnd exploration (start_exploration h)
  unfolding start_exploration set_state
  start_exploration-IsEnd h =
      let sent =
        send_configurations_lem h.active_clients
          (set_state (both (bit with_doe) (bit exploring)) h) in
      (refl, λ t. ap (λ f. f t) sent.0.0 ∙ ground arith)

  after_planning-IsEnd :
      (h : RemoteApplicationHandler)
      → IsEnd
          (if not (is_empty (at planning).load_doe) then exploration else lost)
          (after_planning (at planning) h)
  unfolding after_planning set_state is_doe_valid
  after_planning-IsEnd h = elim (Bool-cases (is_empty (at planning).load_doe)) [
    | inl none_left ↦ rw (none_left, after_planning) (refl, λ t. refl)
    | inr planned ↦ rw (planned, after_planning) (start_exploration-IsEnd _)
  ]

  collect_more-IsEnd :
      (h : RemoteApplicationHandler) → IsEnd (after_doe h) (go_on at (collect_more h))
  unfolding collect_more go_on resume
  collect_more-IsEnd h = elim (Bool-cases (is_doe_valid h)) [
    | inl valid ↦
        rw (valid, collect_more)
          (go_on-IsEnd exploration (start_exploration h) (start_exploration-IsEnd h))
    | inr invalid ↦ rw (invalid, collect_more) (after_planning-IsEnd (start_doe h).0)
  ]

  after_predicting-IsEnd :
      (h : RemoteApplicationHandler)
      → IsEnd (after_prediction h) (go_on at (after_predicting (at predicting) h))
  unfolding after_predicting go_on set_state is_prediction_valid is_doe_valid
  after_predicting-IsEnd h = elim (Bool-cases (is_empty (at predicting).load_prediction)) [
    | inl nothing ↦ rw (nothing, after_predicting) (collect_more-IsEnd _)
    | inr predicted ↦ rw (predicted, after_predicting) (refl, λ t. refl)
  ]

  -- The test before the prediction plugin is started.
  abbrev ready : RemoteApplicationHandler → Bool
  ready h =
      if h.description.features_enabled
      then check_state with_model h && check_state with_cluster h
      else check_state with_model h

  ready-are_valid :
      (h : RemoteApplicationHandler)
      → h.handler_status with_model ≡ false
      → h.handler_status with_cluster ≡ false
      → let h' = check_clusters (at modeling) (check_models (at modeling) h) in
        (ready h' ≡ are_valid h) × (h'.doe ≡ h.doe) × (h'.description ≡ h.description)
  unfolding check_clusters check_models set_state add_state check_state is_cluster_valid
  ready-are_valid h no_model no_cluster = (ground arith, ground arith, ground arith)

  -- What a thread did before does not matter to where it ends.
  go_on-effects :
      (m : Mode) (h : RemoteApplicationHandler) (es fs : List Effect) (next : Option Phase)
      → IsEnd m (go_on at (h, es, next))
      → IsEnd m (go_on at (h, fs, next))
  unfolding go_on
  go_on-effects m h es fs none e = e
  go_on-effects m h es fs (some p) e = e

  go_on_twice-effects :
      (m : Mode) (h : RemoteApplicationHandler) (es fs : List Effect) (next : Option Phase)
      → IsEnd m (go_on at (go_on at (h, es, next)))
      → IsEnd m (go_on at (go_on at (h, fs, next)))
  unfolding go_on
  go_on_twice-effects m h es fs none e = e
  go_on_twice-effects m h es fs (some p) e =
      go_on-effects m (resume (at p) p h).0 (es ++ (resume (at p) p h).1)
        (fs ++ (resume (at p) p h).1) (resume (at p) p h).2 e

  start_prediction_same :
      (h : RemoteApplicationHandler)
      → let h' = check_clusters (at modeling) (check_models (at modeling) h) in
        ready h' ≡ true
        → h.handler_status with_model ≡ false
        → h.handler_status with_cluster ≡ false
        → after_prediction (start_prediction h').0 ≡ after_models h
  unfolding start_prediction set_state is_doe_valid
  start_prediction_same h is_ready no_model no_cluster =
      let checked = ready-are_valid h no_model no_cluster in
      ground (arith, is_ready, checked.0, ap is_empty checked.1)

  after_modeling-IsEnd :
      (h : RemoteApplicationHandler)
      → h.handler_status with_model ≡ false
      → h.handler_status with_cluster ≡ false
      → IsEnd (after_models h) (go_on at (go_on at (after_modeling (at modeling) h)))
  unfolding after_modeling go_on resume is_doe_valid
  after_modeling-IsEnd h no_model no_cluster =
      let h' = check_clusters (at modeling) (check_models (at modeling) h) in
      let checked = ready-are_valid h no_model no_cluster in
      elim (Bool-cases (ready h')) [
        | inl is_ready ↦
            let k = (start_prediction h').0 in
            let same : after_prediction k ≡ after_models h =
              start_prediction_same h is_ready no_model no_cluster in
            rw (is_ready, after_modeling)
              (subst
                (λ m. IsEnd m (go_on at (go_on at (k, (start_prediction h').1, some predicting))))
                same
                (go_on-effects (after_prediction k) (after_predicting (at predicting) k).0
                  (after_predicting (at predicting) k).1 _ (after_predicting (at predicting) k).2
                  (after_predicting-IsEnd k)))
        | inr unready ↦
            let same : after_doe h' ≡ after_models h =
              ground (arith, checked.0, ap is_empty checked.1) in
            rw (unready, after_modeling)
              (subst (λ m. IsEnd m (go_on at (go_on at (collect_more h')))) same
                (go_on-IsEnd (after_doe h') (go_on at (collect_more h')) (collect_more-IsEnd h')))
      ]

  by_test : (P : Stepped → Type 0) (b : Bool) (x y : Stepped) → P x → P y → P (if b then x else y)
  by_test P true x y p q = p
  by_test P false x y p q = q

  start_phase-IsEnd :
      (h : RemoteApplicationHandler)
      → IsEnd (after_models h) (go_on at (go_on at (go_on at (start_phase h))))
  unfolding start_phase go_on resume start_modeling start_clustering set_state add_state
      are_models_valid is_doe_valid
  start_phase-IsEnd h =
      let h' : RemoteApplicationHandler = record h {
        iteration_number = suc h.iteration_number;
        num_configurations_sent_per_iteration = 0;
      } in
      let k = (start_modeling h').0 in
      let l = (start_clustering k).0 in
      let r = after_modeling (at modeling) k in
      let q = after_modeling (at modeling) l in
      by_test (λ s. IsEnd (after_models h) (go_on at (go_on at (go_on at s))))
        h.description.features_enabled
        (l, (start_modeling h').1 ++ (start_clustering k).1, some modeling)
        (k, (start_modeling h').1, some modeling)
        (go_on_twice-effects (after_models l) q.0 q.1 _ q.2 (after_modeling-IsEnd l refl refl))
        (go_on_twice-effects (after_models k) r.0 r.1 _ r.2 (after_modeling-IsEnd k refl refl))

  -- For an observation that is taken while the handler explores, with no other thread in between: the
  -- thread returns after at most three waits, and leaves the handler in exactly this mode: exploring,
  -- as it was, if there are more configurations of the iteration to send; with a prediction, if all models
  -- are valid, there are clusters where there are features, and the plugin predicts some knowledge;
  -- otherwise exploring again, if there are configurations or the plugin plans some, and else undefined.
  pub process_observation-IsEnd :
      (cid : ClientId) (h : RemoteApplicationHandler)
      → ((t : InternalStatus) → h.handler_status t ≡ flags exploration t)
      → IsEnd (outcome h) (process_observation at cid h)
  unfolding process_observation after_observation go_on
  process_observation-IsEnd cid h explores =
      let sent = send_configuration_lem cid h in
      elim (Bool-cases (
        is_doe_valid h
        && ltb h.num_configurations_sent_per_iteration h.num_configurations_per_iteration)) [
          | inl more ↦ rw (more, after_observation) (refl, λ t. ap (λ f. f t) sent.0.0 ∙ explores t)
          | inr finished ↦ rw (finished, after_observation) (start_phase-IsEnd h)
        ]
