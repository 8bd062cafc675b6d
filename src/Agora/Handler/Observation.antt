-- ===== src/Agora/Handler/Observation.antt =====
-- agora/src/application_handler.cpp: `process_observation`. It gives the mutex back while it parses and
-- while it waits for plugins, so it is a row of steps, with what other threads do in between.
use margot_project.Base.{
  suc, ltb, if◌then◌else◌, ◌&&◌, Bool, List, [], ◌∷◌, ◌++◌, Option, none, some,
}
use margot_project.Agora.Handler.{
  undefined, exploring, with_doe, with_cluster, with_model, with_prediction, bit, both, ClientId,
  Storage, Effect, broadcast, RemoteApplicationHandler, set_state, add_state, check_state,
  are_models_valid, is_doe_valid, is_cluster_valid, is_prediction_valid, send_configuration,
  send_configurations, start_doe, start_modeling, start_clustering, start_prediction,
}

-- Where a thread in `process_observation` waits: for the mutex, with the observation stored, or for the
-- plugins of one phase.
pub data Phase : Type 0 where
  observed : ClientId → Phase
  modeling predicting planning : Phase

-- A step: the handler, what it did outside, and where the thread waits next, if it has not returned.
abbrev pub Stepped : Type 0
Stepped = RemoteApplicationHandler × List Effect × Option Phase

-- The first lock: only the test. An observation that does not parse is dropped as well.
unfoldable pub takes_observation : RemoteApplicationHandler → Bool
takes_observation h = check_state exploring h

-- The end of the method: the design space exploration goes on.
unfoldable pub start_exploration : RemoteApplicationHandler → Stepped
start_exploration h =
    let (h', sent) =
      send_configurations h.active_clients (set_state (both (bit with_doe) (bit exploring)) h) in
    (h', sent, none)

-- From the test of `is_doe_valid()` on
unfoldable pub collect_more : RemoteApplicationHandler → Stepped
collect_more h =
    if is_doe_valid h
    then start_exploration h
    else let (h', launched) = start_doe h in (h', launched, some planning)

-- The start of the plugins of the modeling phase
unfoldable pub start_phase : RemoteApplicationHandler → Stepped
start_phase h =
    let h' : RemoteApplicationHandler = record h {
      iteration_number = suc h.iteration_number;
      num_configurations_sent_per_iteration = 0;
    } in
    let (h'', launched) = start_modeling h' in
    if h.description.features_enabled
    then (let (h''', others) = start_clustering h'' in (h''', launched ++ others, some modeling))
    else (h'', launched, some modeling)

-- The second lock, after the observation is stored
unfoldable pub after_observation : ClientId → RemoteApplicationHandler → Stepped
after_observation cid h =
    if is_doe_valid h
      && ltb h.num_configurations_sent_per_iteration h.num_configurations_per_iteration
    then (let (h', sent) = send_configuration cid h in (h', sent, none))
    else start_phase h

-- The check of what the modeling phase produced
unfoldable pub check_models : Storage → RemoteApplicationHandler → RemoteApplicationHandler
check_models storage h = if are_models_valid storage h then set_state (bit with_model) h else h

unfoldable pub check_clusters : Storage → RemoteApplicationHandler → RemoteApplicationHandler
check_clusters storage h =
    if h.description.features_enabled
    then (let h' : RemoteApplicationHandler = record h { cluster = storage.load_cluster } in
        if is_cluster_valid h' then add_state (bit with_cluster) h' else h')
    else h

-- The lock after the modeling phase
unfoldable pub after_modeling : Storage → RemoteApplicationHandler → Stepped
after_modeling storage h =
    let h' = check_clusters storage (check_models storage h) in
    if if h'.description.features_enabled
      then check_state with_model h' && check_state with_cluster h'
      else check_state with_model h'
    then (let (h'', launched) = start_prediction h' in (h'', launched, some predicting))
    else collect_more h'

-- The lock after the prediction phase
unfoldable pub after_predicting : Storage → RemoteApplicationHandler → Stepped
after_predicting storage h =
    let h' : RemoteApplicationHandler = record h { prediction = storage.load_prediction } in
    if is_prediction_valid h'
    then (set_state (bit with_prediction) h', broadcast h'.prediction ∷ [], none)
    else collect_more h'

-- The lock after the plugin that plans new experiments
unfoldable pub after_planning : Storage → RemoteApplicationHandler → Stepped
after_planning storage h =
    let h' : RemoteApplicationHandler = record h { doe = storage.load_doe } in
    if is_doe_valid h' then start_exploration h' else (set_state (bit undefined) h', [], none)

-- The step of a thread that has waited
unfoldable pub resume : Storage → Phase → RemoteApplicationHandler → Stepped
resume storage (observed cid) h = after_observation cid h
resume storage modeling h = after_modeling storage h
resume storage predicting h = after_predicting storage h
resume storage planning h = after_planning storage h

-- The thread goes on, if it waits; `at` is the storage that it finds then.
unfoldable pub go_on : (Phase → Storage) → Stepped → Stepped
go_on at (h, es, none) = (h, es, none)
go_on at (h, es, some p) = let (h', others, next) = resume (at p) p h in (h', es ++ others, next)

-- What follows the store of the observation in `process_observation`, when no other thread comes in
-- between: it waits for the plugins of at most three phases.
unfoldable pub process_observation :
    (Phase → Storage) → ClientId → RemoteApplicationHandler → Stepped
process_observation at cid h = go_on at (go_on at (go_on at (after_observation cid h)))
