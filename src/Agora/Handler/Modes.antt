-- ===== src/Agora/Handler/Modes.antt =====
-- The combinations of status bits in which the handler is found between two steps.
use margot_project.Base.{
  not, Bool, true, false, is_empty, List, [], ◌∷◌, ◌++◌, ◌≡◌, refl, arith, ap, sym, ◌∙◌,
  Option-cases, inl, inr,
}
use margot_project.Agora.Doe.{get_next}
use margot_project.Agora.Handler.{
  InternalStatus, clueless, undefined, exploring, building_doe, with_doe, building_cluster,
  building_model, building_prediction, with_prediction, Mask, bit, both, ClientId,
  RemoteApplicationHandler, Effect, send_knowledge, broadcast, send_configuration,
  send_configurations,
}

pub data Mode : Type 0 where
  fresh lost exploration knowledge planning_doe training training_clusters forecasting : Mode

abbrev pub flags : Mode → Mask
flags fresh = bit clueless
flags lost = bit undefined
flags exploration = both (bit exploring) (bit with_doe)
flags knowledge = bit with_prediction
flags planning_doe = bit building_doe
flags training = bit building_model
flags training_clusters = both (bit building_model) (bit building_cluster)
flags forecasting = bit building_prediction

-- The status is that of one mode, and a handler with a prediction has application knowledge to give.
pub record IsSettled (h : RemoteApplicationHandler) : Type 0 where
  pub mode : Mode
  pub status : (t : InternalStatus) → h.handler_status t ≡ flags mode t
  pub known : h.handler_status with_prediction ≡ true → is_empty h.prediction ≡ false

-- The application knowledge that is sent is never empty.
abbrev pub is_telling : Effect → Bool
is_telling (send_knowledge cid results) = not (is_empty results)
is_telling (broadcast results) = not (is_empty results)
is_telling _ = true

abbrev pub IsTelling : List Effect → Type 0
IsTelling [] = Unit {0}
IsTelling (e ∷ es) = (is_telling e ≡ true) × IsTelling es

pub IsTelling-append : (es fs : List Effect) → IsTelling es → IsTelling fs → IsTelling (es ++ fs)
IsTelling-append [] fs h k = k
IsTelling-append (e ∷ es) fs h k = (h.0, IsTelling-append es fs h.1 k)

-- What sending configurations leaves alone.
abbrev pub SameButDoe : RemoteApplicationHandler → RemoteApplicationHandler → Type 0
SameButDoe h k =
    (k.handler_status ≡ h.handler_status)
    × (k.prediction ≡ h.prediction)
    × (k.description ≡ h.description)

pub send_configuration_lem :
    (cid : ClientId) (h : RemoteApplicationHandler)
    → SameButDoe h (send_configuration cid h).0 × IsTelling (send_configuration cid h).1
unfolding send_configuration
send_configuration_lem cid h = elim (Option-cases (get_next h.doe)) [
  | inl exhausted ↦ rw (exhausted, send_configuration) ((refl, refl, refl), tt)
  | inr (entry, found) ↦ rw (found, send_configuration) ((refl, refl, refl), (refl, tt))
]

pub send_configurations_lem :
    (cids : List ClientId) (h : RemoteApplicationHandler)
    → SameButDoe h (send_configurations cids h).0 × IsTelling (send_configurations cids h).1
unfolding send_configurations
send_configurations_lem [] h = ((refl, refl, refl), tt)
send_configurations_lem (cid ∷ cids) h =
    let first = send_configuration_lem cid h in
    let rest = send_configurations_lem cids (send_configuration cid h).0 in
    (
      (rest.0.0 ∙ first.0.0, rest.0.1 ∙ first.0.1, rest.0.2 ∙ first.0.2),
      IsTelling-append (send_configuration cid h).1 _ first.1 rest.1,
    )

-- A handler without a prediction bit is settled in any mode that it shows.
pub settle :
    (m : Mode) (h : RemoteApplicationHandler)
    → flags m with_prediction ≡ false
    → ((t : InternalStatus) → h.handler_status t ≡ flags m t)
    → IsSettled h
settle m h unknown status = record {
  mode = m;
  status = status;
  known = λ e. ground (arith, status with_prediction);
}

pub SameButDoe-IsSettled :
    (h k : RemoteApplicationHandler) → SameButDoe h k → IsSettled h → IsSettled k
SameButDoe-IsSettled h k same s = record {
  mode = s.mode;
  status = λ t. ap (λ f. f t) same.0 ∙ s.status t;
  known = λ e. ap is_empty same.1 ∙ s.known (sym (ap (λ f. f with_prediction) same.0) ∙ e);
}
