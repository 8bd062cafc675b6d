-- ===== src/Agora/Handler/Invariant.antt =====
-- In every interleaving the handler is settled between the steps, and gives no empty knowledge.
use margot_project.Base.{
  not, ◌&&◌, ltb, if◌then◌else◌, Bool, true, false, is_empty, List, [], Option, none, some, ◌≡◌,
  refl, arith, ap, Bool-cases, inl, inr,
}
use margot_project.Agora.Handler.{
  InternalStatus, clueless, undefined, exploring, with_doe, with_prediction, bit, both, ClientId,
  Description, Storage, Effect, RemoteApplicationHandler, Handled, new, set_state, add_state,
  check_state, add_client, remove_client, is_doe_valid, is_prediction_valid, start_doe,
  start_modeling, start_clustering, start_prediction,
}
use margot_project.Agora.Handler.Modes.{
  fresh, lost, exploration, knowledge, planning_doe, training, training_clusters, forecasting,
  IsSettled, IsTelling, IsTelling-append, settle, SameButDoe-IsSettled, send_configuration_lem,
  send_configurations_lem,
}
use margot_project.Agora.Handler.Recovery.{
  recover_planning, recover_doe, recover_models, load_all, start_recovering, is_busy, answer,
  first_welcome, welcome_client, bye_client,
}
use margot_project.Agora.Handler.Observation.{
  Phase, observed, modeling, predicting, planning, start_exploration, collect_more, start_phase,
  after_observation, check_models, check_clusters, after_modeling, after_predicting, after_planning,
  resume,
}
use margot_project.Agora.Handler.System.{
  System, Step, welcomes, leaves, observes, resumes, Reachable, start, later,
}

-- A handler that is settled, after effects that tell no empty knowledge.
abbrev IsGood : RemoteApplicationHandler → List Effect → Type 0
IsGood h es = IsSettled h × IsTelling es

explored :
    (h : RemoteApplicationHandler) → IsSettled (set_state (both (bit with_doe) (bit exploring)) h)
unfolding set_state
explored h = settle exploration _ refl (λ t. ground arith)

undefined_lem : (h : RemoteApplicationHandler) → IsSettled (set_state (bit undefined) h)
unfolding set_state
undefined_lem h = settle lost _ refl (λ t. refl)

known_lem :
    (h : RemoteApplicationHandler)
    → is_prediction_valid h ≡ true
    → IsSettled (set_state (bit with_prediction) h)
unfolding set_state is_prediction_valid
known_lem h e = record { mode = knowledge; status = λ t. refl; known = λ e'. ground arith }

start_exploration-IsGood :
    (h : RemoteApplicationHandler) → IsGood (start_exploration h).0 (start_exploration h).1
unfolding start_exploration
start_exploration-IsGood h =
    let sent =
      send_configurations_lem h.active_clients
        (set_state (both (bit with_doe) (bit exploring)) h) in
    (SameButDoe-IsSettled _ _ sent.0 (explored h), sent.1)

collect_more-IsGood : (h : RemoteApplicationHandler) → IsGood (collect_more h).0 (collect_more h).1
unfolding collect_more start_doe set_state
collect_more-IsGood h = elim (Bool-cases (is_doe_valid h)) [
  | inl valid ↦ rw (valid, collect_more) (start_exploration-IsGood h)
  | inr invalid ↦ rw (invalid, collect_more) (settle planning_doe _ refl (λ t. refl), (refl, tt))
]

start_phase-IsGood : (h : RemoteApplicationHandler) → IsGood (start_phase h).0 (start_phase h).1
unfolding start_phase start_modeling start_clustering set_state add_state
start_phase-IsGood h = elim (Bool-cases h.description.features_enabled) [
  | inl enabled ↦
      rw (enabled, start_phase) (settle training_clusters _ refl (λ t. refl), (refl, (refl, tt)))
  | inr disabled ↦ rw (disabled, start_phase) (settle training _ refl (λ t. refl), (refl, tt))
]

after_observation-IsGood :
    (cid : ClientId) (h : RemoteApplicationHandler)
    → IsSettled h
    → IsGood (after_observation cid h).0 (after_observation cid h).1
unfolding after_observation
after_observation-IsGood cid h s =
    let sent = send_configuration_lem cid h in
    elim (Bool-cases (
      is_doe_valid h
      && ltb h.num_configurations_sent_per_iteration h.num_configurations_per_iteration)) [
        | inl more ↦ rw (more, after_observation) (SameButDoe-IsSettled _ _ sent.0 s, sent.1)
        | inr finished ↦ rw (finished, after_observation) (start_phase-IsGood h)
      ]

after_modeling-IsGood :
    (storage : Storage) (h : RemoteApplicationHandler)
    → IsGood (after_modeling storage h).0 (after_modeling storage h).1
unfolding after_modeling start_prediction set_state
after_modeling-IsGood storage h =
    let h' = check_clusters storage (check_models storage h) in
    elim (Bool-cases (
      if h'.description.features_enabled
      then check_state InternalStatus.with_model h' && check_state InternalStatus.with_cluster h'
      else check_state InternalStatus.with_model h')) [
        | inl ready ↦ rw (ready, after_modeling) (settle forecasting _ refl (λ t. refl), (refl, tt))
        | inr unready ↦ rw (unready, after_modeling) (collect_more-IsGood h')
      ]

after_predicting-IsGood :
    (storage : Storage) (h : RemoteApplicationHandler)
    → IsGood (after_predicting storage h).0 (after_predicting storage h).1
unfolding after_predicting is_prediction_valid
after_predicting-IsGood storage h =
    let h' : RemoteApplicationHandler = record h { prediction = storage.load_prediction } in
    elim (Bool-cases (is_prediction_valid h')) [
      | inl valid ↦ rw (valid, after_predicting) (known_lem h' valid, (valid, tt))
      | inr invalid ↦ rw (invalid, after_predicting) (collect_more-IsGood h')
    ]

after_planning-IsGood :
    (storage : Storage) (h : RemoteApplicationHandler)
    → IsGood (after_planning storage h).0 (after_planning storage h).1
unfolding after_planning
after_planning-IsGood storage h =
    let h' : RemoteApplicationHandler = record h { doe = storage.load_doe } in
    elim (Bool-cases (is_doe_valid h')) [
      | inl valid ↦ rw (valid, after_planning) (start_exploration-IsGood h')
      | inr invalid ↦ rw (invalid, after_planning) (undefined_lem h', tt)
    ]

resume-IsGood :
    (storage : Storage) (p : Phase) (h : RemoteApplicationHandler)
    → IsSettled h
    → IsGood (resume storage p h).0 (resume storage p h).1
unfolding resume
resume-IsGood storage (observed cid) h s = after_observation-IsGood cid h s
resume-IsGood storage modeling h s = after_modeling-IsGood storage h
resume-IsGood storage predicting h s = after_predicting-IsGood storage h
resume-IsGood storage planning h s = after_planning-IsGood storage h

recover_planning-IsGood :
    (planned : Storage) (h : RemoteApplicationHandler)
    → IsGood (recover_planning planned h).0 (recover_planning planned h).1
unfolding recover_planning start_doe set_state
recover_planning-IsGood planned h =
    let h' : RemoteApplicationHandler = record (start_doe h).0 { doe = planned.load_doe } in
    elim (Bool-cases (is_doe_valid h')) [
      | inl valid ↦ rw (valid, recover_planning) (explored h', (refl, (refl, tt)))
      | inr invalid ↦ rw (invalid, recover_planning) (undefined_lem h', (refl, tt))
    ]

recover_doe-IsGood :
    (planned : Storage) (h : RemoteApplicationHandler)
    → IsGood (recover_doe planned h).0 (recover_doe planned h).1
unfolding recover_doe set_state
recover_doe-IsGood planned h = elim (Bool-cases (is_doe_valid h)) [
  | inl valid ↦ rw (valid, recover_doe) (settle exploration _ refl (λ t. refl), tt)
  | inr invalid ↦ rw (invalid, recover_doe) (recover_planning-IsGood planned h)
]

recover_models-IsGood :
    (predicted planned : Storage) (h : RemoteApplicationHandler)
    → IsGood (recover_models predicted planned h).0 (recover_models predicted planned h).1
unfolding recover_models start_prediction
recover_models-IsGood predicted planned h =
    let h' : RemoteApplicationHandler =
      record (start_prediction
        (set_state (both (bit InternalStatus.with_model) (bit InternalStatus.with_cluster)) h)).0 {
          prediction = predicted.load_prediction;
        } in
    let rest = recover_doe-IsGood planned h' in
    elim (Bool-cases (is_prediction_valid h')) [
      | inl valid ↦ rw (valid, recover_models) (known_lem h' valid, (refl, tt))
      | inr invalid ↦ rw (invalid, recover_models) (rest.0, (refl, rest.1))
    ]

if-IsGood :
    (b : Bool) (x y : Handled)
    → (b ≡ true → IsGood x.0 x.1)
    → (b ≡ false → IsGood y.0 y.1)
    → IsGood (if b then x else y).0 (if b then x else y).1
if-IsGood true x y yes_good no_good = yes_good refl
if-IsGood false x y yes_good no_good = no_good refl

start_recovering-IsGood :
    (found predicted planned : Storage) (h : RemoteApplicationHandler)
    → IsGood
        (start_recovering found predicted planned h).0
        (start_recovering found predicted planned h).1
unfolding start_recovering
start_recovering-IsGood found predicted planned h =
    let h' = load_all found h in
    if-IsGood (is_prediction_valid h') _ _ (λ valid. (known_lem h' valid, tt))
      (λ invalid.
        if-IsGood _ _ _ (λ e. recover_models-IsGood predicted planned h')
          (λ e. recover_doe-IsGood planned h'))

answer-IsGood :
    (cid : ClientId) (h : RemoteApplicationHandler)
    → IsSettled h
    → IsGood (answer cid h).0 (answer cid h).1
unfolding answer check_state
answer-IsGood cid h s = elim (Bool-cases (is_busy h)) [
  | inl a ↦ rw (a, answer) (s, tt)
  | inr a ↦ elim (Bool-cases (h.handler_status exploring)) [
    | inl b ↦
        let sent = send_configuration_lem cid h in
        rw (a, answer) (rw b (SameButDoe-IsSettled _ _ sent.0 s, sent.1))
    | inr b ↦ elim (Bool-cases (h.handler_status with_prediction)) [
      | inl c ↦ rw (a, answer) (rw (b, c) (s, (ap not (s.known c), tt)))
      | inr c ↦ elim (Bool-cases (h.handler_status undefined)) [
        | inl d ↦ rw (a, answer) (rw (b, c, d) (s, (refl, tt)))
        | inr d ↦ rw (a, answer) (rw (b, c, d) (s, tt))
      ]
    ]
  ]
]

first_welcome-IsGood :
    (found predicted planned : Storage) (cid : ClientId) (description : Description)
    (h : RemoteApplicationHandler)
    → IsGood
        (first_welcome found predicted planned cid description h).0
        (first_welcome found predicted planned cid description h).1
unfolding first_welcome
first_welcome-IsGood found predicted planned cid description h =
    let r = start_recovering-IsGood found predicted planned _ in
    let a = answer-IsGood cid _ r.0 in (a.0, (refl, (refl, IsTelling-append _ _ r.1 a.1)))

-- The same handler but for its clients.
same_client :
    {clients : List ClientId} (h : RemoteApplicationHandler)
    → IsSettled h
    → IsSettled (record h { active_clients = clients })
same_client h s = record { mode = s.mode; status = s.status; known = s.known }

welcome_client-IsGood :
    (found predicted planned : Storage) (cid : ClientId) (info : Option Description)
    (h : RemoteApplicationHandler)
    → IsSettled h
    → IsGood
        (welcome_client found predicted planned cid info h).0
        (welcome_client found predicted planned cid info h).1
unfolding welcome_client add_client check_state
welcome_client-IsGood found predicted planned cid none h s =
    if-IsGood (h.handler_status clueless) (add_client cid h, []) (answer cid (add_client cid h))
      (λ e. (same_client h s, tt)) (λ e. answer-IsGood cid _ (same_client h s))
welcome_client-IsGood found predicted planned cid (some description) h s =
    if-IsGood (h.handler_status clueless)
      (first_welcome found predicted planned cid description (add_client cid h))
      (answer cid (add_client cid h))
      (λ e. first_welcome-IsGood found predicted planned cid description _)
      (λ e. answer-IsGood cid _ (same_client h s))

bye_client-IsSettled :
    (cid : ClientId) (h : RemoteApplicationHandler) → IsSettled h → IsSettled (bye_client cid h)
unfolding bye_client set_state remove_client
bye_client-IsSettled cid h s = elim (Bool-cases (is_empty (remove_client cid h).active_clients)) [
  | inl last_one ↦ rw (last_one, bye_client) (settle fresh _ refl (λ t. refl))
  | inr others ↦ rw (others, bye_client) (same_client h s)
]

Step-IsGood :
    {s t : System} {es : List Effect} → IsSettled s.handler → Step s es t → IsGood t.handler es
Step-IsGood {s} {t} {es} h (welcomes found predicted planned cid info) =
    welcome_client-IsGood found predicted planned cid info s.handler h
Step-IsGood {s} {t} {es} h (leaves cid) = (bye_client-IsSettled cid s.handler h, tt)
Step-IsGood {s} {t} {es} h (observes cid values e) = (h, (refl, tt))
Step-IsGood {s} {t} {es} h (resumes storage before p after e) = resume-IsGood storage p s.handler h

-- Whatever clients come, leave and send, and however the threads are interleaved, between two steps the
-- status is that of one mode: just created, undefined, exploring, with a prediction, or building
-- experiments, models, models and clusters, or predictions. With a prediction there is knowledge to give.
pub Reachable-IsSettled : {s : System} → Reachable s → IsSettled s.handler
unfolding new
Reachable-IsSettled start = settle fresh _ refl (λ t. refl)
Reachable-IsSettled (later r step) = (Step-IsGood (Reachable-IsSettled r) step).0

-- No step from a system that is reached sends or broadcasts an application knowledge that is empty.
pub Step-IsTelling : {s t : System} {es : List Effect} → Reachable s → Step s es t → IsTelling es
Step-IsTelling r step = (Step-IsGood (Reachable-IsSettled r) step).1
