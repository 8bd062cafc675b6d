-- ===== src/Agora/Handler/Recovery.antt =====
-- agora/src/application_handler.cpp: `welcome_client` with `start_recovering`, and `bye_client`. They keep
-- the mutex while they wait for plugins, so each is one step.
use margot_project.Base.{
  if◌then◌else◌, ◌&&◌, ◌||◌, Bool, is_empty, [], ◌∷◌, ◌++◌, Option, none, some,
}
use margot_project.Agora.Handler.{
  recovering, clueless, undefined, with_information, exploring, building_doe, with_doe,
  with_cluster, with_model, building_prediction, building_model, building_cluster, with_prediction,
  bit, both, ClientId, Description, Storage, send_knowledge, send_abort, store_description,
  create_observation_table, initialize_launchers, RemoteApplicationHandler, Handled, set_state,
  check_state, add_client, remove_client, are_models_valid, is_doe_valid, is_cluster_valid,
  is_prediction_valid, send_configuration, start_doe, start_prediction,
}

-- The end of `start_recovering`, from `start_doe()` on; `planned` is the storage after the plugin.
unfoldable pub recover_planning : Storage → RemoteApplicationHandler → Handled
recover_planning planned h =
    let (h', launched) = start_doe h in
    let h'' : RemoteApplicationHandler = record h' { doe = planned.load_doe } in
    if is_doe_valid h''
    then (
      set_state (both (bit with_doe) (bit exploring)) h'',
      launched ++ (create_observation_table ∷ []),
    )
    else (set_state (bit undefined) h'', launched)

-- From the test of `is_doe_valid()` on
unfoldable pub recover_doe : Storage → RemoteApplicationHandler → Handled
recover_doe planned h =
    if is_doe_valid h
    then (set_state (both (bit exploring) (bit with_doe)) h, [])
    else recover_planning planned h

-- The part for valid models; `predicted` is the storage after the prediction plugin.
unfoldable pub recover_models : Storage → Storage → RemoteApplicationHandler → Handled
recover_models predicted planned h =
    let (h', launched) =
      start_prediction (set_state (both (bit with_model) (bit with_cluster)) h) in
    let h'' : RemoteApplicationHandler = record h' { prediction = predicted.load_prediction } in
    if is_prediction_valid h''
    then (set_state (bit with_prediction) h'', launched)
    else let (h''', others) = recover_doe planned h'' in (h''', launched ++ others)

-- The three loads at the beginning
unfoldable pub load_all : Storage → RemoteApplicationHandler → RemoteApplicationHandler
load_all found h = record (set_state (bit recovering) h) {
  doe = found.load_doe;
  prediction = found.load_prediction;
  cluster = if h.description.features_enabled then found.load_cluster else h.cluster;
}

-- `start_recovering()`
unfoldable pub start_recovering : Storage → Storage → Storage → RemoteApplicationHandler → Handled
start_recovering found predicted planned h =
    let h' = load_all found h in
    if is_prediction_valid h'
    then (set_state (bit with_prediction) h', [])
    else if if h.description.features_enabled
        then is_cluster_valid h' && are_models_valid found h'
        else are_models_valid found h'
    then recover_models predicted planned h'
    else recover_doe planned h'

-- The tests of `welcome_client` for which it only returns: those of the building states and of the
-- recovering state
unfoldable pub is_busy : RemoteApplicationHandler → Bool
is_busy h =
    check_state building_doe h
    || check_state building_model h
    || check_state building_cluster h
    || check_state building_prediction h
    || check_state recovering h

-- The tests at the end of `welcome_client`, in their order
unfoldable pub answer : ClientId → RemoteApplicationHandler → Handled
answer cid h =
    if is_busy h
    then (h, [])
    else if check_state exploring h
    then send_configuration cid h
    else if check_state with_prediction h
    then (h, send_knowledge cid h.prediction ∷ [])
    else if check_state undefined h
    then (h, send_abort cid ∷ [])
    else (h, [])

-- The first welcome. The JSON text and its parser are outside: `description` is the block that
-- `parse_informations` finds, if it does.
unfoldable pub first_welcome :
    Storage → Storage → Storage → ClientId → Description → RemoteApplicationHandler → Handled
first_welcome found predicted planned cid description h =
    let h' : RemoteApplicationHandler = record (set_state (bit with_information) h) {
      description = description;
      num_configurations_per_iteration = description.number_configurations_per_iteration;
    } in
    let (h'', recovered) = start_recovering found predicted planned h' in
    let (h''', answered) = answer cid h'' in
    (h''', store_description ∷ initialize_launchers ∷ (recovered ++ answered))

-- `welcome_client(cid, info)`
unfoldable pub welcome_client :
    Storage → Storage → Storage → ClientId → Option Description → RemoteApplicationHandler → Handled
welcome_client found predicted planned cid info h =
    let h' = add_client cid h in
    if check_state clueless h'
    then elim info [
      | none ↦ (h', [])
      | some description ↦ first_welcome found predicted planned cid description h'
    ]
    else answer cid h'

-- `bye_client(cid)`
unfoldable pub bye_client : ClientId → RemoteApplicationHandler → RemoteApplicationHandler
bye_client cid h =
    let h' = remove_client cid h in
    if is_empty h'.active_clients
    then record (set_state (bit clueless) h') { doe = []; cluster = []; prediction = [] }
    else h'
