-- ===== src/Agora/Handler/Races.antt =====
-- Two threads in `process_observation` at once: the second lock does not test again whether the handler
-- is still exploring.
use margot_project.Base.{
  ◌&&◌, ltb, Bool, true, false, is_empty, [], ◌∷◌, none, some, ◌≡◌, refl, arith, ap, ◌∙◌,
}
use margot_project.Agora.Doe.{ConfigurationModel, DoeModel, get_next, explored_once}
use margot_project.Agora.Handler.{
  exploring, building_model, ClientId, send_explore, RemoteApplicationHandler, set_state, add_state,
  is_doe_valid, send_configuration, start_modeling, start_clustering,
}
use margot_project.Agora.Handler.Observation.{start_phase, after_observation, modeling}

start_phase_lem :
    (h : RemoteApplicationHandler)
    → ((start_phase h).0.handler_status exploring ≡ false)
      × ((start_phase h).0.handler_status building_model ≡ true)
      × ((start_phase h).0.doe ≡ h.doe)
      × ((start_phase h).0.num_configurations_sent_per_iteration ≡ 0)
      × ((start_phase h).0.num_configurations_per_iteration ≡ h.num_configurations_per_iteration)
      × ((start_phase h).2 ≡ some modeling)
unfolding start_phase start_modeling start_clustering set_state add_state
start_phase_lem h =
    (ground arith, ground arith, ground arith, ground arith, ground arith, ground arith)

send_next :
    (cid : ClientId) (h : RemoteApplicationHandler) (c : ConfigurationModel) (doe : DoeModel)
    → h.doe ≡ c ∷ doe
    → ((send_configuration cid h).1 ≡ send_explore cid c.configuration ∷ [])
      × ((send_configuration cid h).0.handler_status ≡ h.handler_status)
unfolding send_configuration get_next explored_once
send_next cid h c doe e = (rw (e, send_configuration) refl, rw (e, send_configuration) refl)

abbrev has_more : RemoteApplicationHandler → Bool
has_more h =
    is_doe_valid h && ltb h.num_configurations_sent_per_iteration h.num_configurations_per_iteration

after_observation-finished :
    (cid : ClientId) (h : RemoteApplicationHandler)
    → has_more h ≡ false
    → after_observation cid h ≡ start_phase h
unfolding after_observation
after_observation-finished cid h e = rw (e, after_observation) refl

after_observation-more :
    (cid : ClientId) (h : RemoteApplicationHandler)
    → has_more h ≡ true
    → after_observation cid h ≡ ((send_configuration cid h).0, (send_configuration cid h).1, none)
unfolding after_observation
after_observation-more cid h e = rw (e, after_observation) refl

-- If the configurations of an iteration are sent and more are planned, and two threads wait for the
-- second lock, then the first of them starts the modeling phase, and the second sends one more
-- configuration to explore while the models are built.
pub explore_while_building :
    (first second : ClientId) (h : RemoteApplicationHandler) (c : ConfigurationModel)
    (doe : DoeModel)
    → h.doe ≡ c ∷ doe
    → ltb h.num_configurations_sent_per_iteration h.num_configurations_per_iteration ≡ false
    → ltb 0 h.num_configurations_per_iteration ≡ true
    → let (h', es, next) = after_observation first h in
      let (h'', es', next') = after_observation second h' in
      (next ≡ some modeling)
      × (es' ≡ send_explore second c.configuration ∷ [])
      × (h''.handler_status exploring ≡ false)
      × (h''.handler_status building_model ≡ true)
unfolding is_doe_valid
explore_while_building first second h c doe planned complete positive =
    let k = start_phase h in
    let begun = start_phase_lem h in
    let one = after_observation-finished first h (ground (arith, complete)) in
    let two =
      after_observation-more second k.0
        (ground (arith, ap is_empty begun.2, ap is_empty planned, begun.3, begun.4, positive)) in
    let sent = send_next second k.0 c doe (begun.2 ∙ planned) in
    rw (one, two)
      (
        begun.5,
        sent.0,
        ap (λ f. f exploring) sent.1 ∙ begun.0,
        ap (λ f. f building_model) sent.1 ∙ begun.1,
      )
