-- ===== src/Agora/Handler.antt =====
-- agora/include/agora/application_handler.hpp: class RemoteApplicationHandler, the server's side of one
-- application, and what it does in one go. Logging is left out.
pub mod Recovery
pub mod Observation
pub mod System
pub mod Modes
pub mod Invariant
pub mod Alone
pub mod Races
use margot_project.Base.{
  ℕ, suc, ◌==◌, ◌&&◌, ◌||◌, not, if◌then◌else◌, Bool, true, false, is_empty, List, [], ◌∷◌, ◌++◌,
  Option, none, some,
}
use margot_project.Agora.Doe.{DoeModel, get_next}

-- `enum class InternalStatus`; each is one bit of the mask.
pub data InternalStatus : Type 0 where
  recovering clueless undefined with_information exploring building_doe with_doe : InternalStatus
  building_cluster with_cluster building_model with_model : InternalStatus
  building_prediction with_prediction : InternalStatus

-- The number of the bit.
abbrev pub bit_of : InternalStatus → ℕ
bit_of recovering = 0
bit_of clueless = 1
bit_of undefined = 2
bit_of with_information = 3
bit_of exploring = 4
bit_of building_doe = 5
bit_of with_doe = 6
bit_of building_cluster = 7
bit_of with_cluster = 8
bit_of building_model = 9
bit_of with_model = 10
bit_of building_prediction = 11
bit_of with_prediction = 12

-- `bitmask<InternalStatus>`: the bits that are set, and its `|`.
abbrev pub Mask : Type 0
Mask = InternalStatus → Bool

abbrev pub bit : InternalStatus → Mask
bit s = λ t. bit_of s == bit_of t

abbrev pub both : Mask → Mask → Mask
both a b = λ t. a t || b t

abbrev pub ClientId : Type 0
ClientId = ℕ

-- What the handler uses of `heel::block_model`: whether there are input features, the names of the
-- metrics, and the number of configurations of an iteration.
pub record Description : Type 0 where
  pub features_enabled : Bool
  pub metrics : List ℕ
  pub number_configurations_per_iteration : ℕ

-- What the handler reads of the storage, at one moment: the plugins write it while the server waits.
pub record Storage : Type 0 where
  pub load_doe : DoeModel
  pub load_cluster : List ℕ
  pub load_prediction : List ℕ
  pub is_model_valid : ℕ → Bool

-- What it does outside: messages to clients, writes to the storage, and starts of plugins.
pub data Effect : Type 0 where
  send_explore : ClientId → ℕ → Effect
  send_knowledge : ClientId → List ℕ → Effect
  broadcast : List ℕ → Effect
  send_abort : ClientId → Effect
  store_description create_observation_table initialize_launchers : Effect
  insert_observation : ClientId → ℕ → Effect
  launch_doe launch_clustering launch_prediction : Effect
  launch_modeling : ℕ → Effect

-- The centroids and the predicted results stand by their identifiers.
pub record RemoteApplicationHandler : Type 0 where
  pub handler_status : Mask
  pub iteration_number : ℕ
  pub num_configurations_per_iteration : ℕ
  pub num_configurations_sent_per_iteration : ℕ
  pub active_clients : List ClientId
  pub description : Description
  pub doe : DoeModel
  pub cluster : List ℕ
  pub prediction : List ℕ

-- A method returns the new handler and what it did outside.
abbrev pub Handled : Type 0
Handled = RemoteApplicationHandler × List Effect

-- The constructor
unfoldable pub new : RemoteApplicationHandler
new = record {
  handler_status = bit clueless;
  iteration_number = 0;
  num_configurations_per_iteration = 0;
  num_configurations_sent_per_iteration = 0;
  active_clients = [];
  description = record {
    features_enabled = false;
    metrics = [];
    number_configurations_per_iteration = 0;
  };
  doe = [];
  cluster = [];
  prediction = [];
}

-- `set_state(state)`, `set_state(state, false)` and `check_state(state)` for one bit
unfoldable pub set_state : Mask → RemoteApplicationHandler → RemoteApplicationHandler
set_state state h = record h { handler_status = state }

unfoldable pub add_state : Mask → RemoteApplicationHandler → RemoteApplicationHandler
add_state state h = record h { handler_status = both h.handler_status state }

unfoldable pub check_state : InternalStatus → RemoteApplicationHandler → Bool
check_state state h = h.handler_status state

-- `std::unordered_set::insert` and `erase`
unfoldable pub insert : ClientId → List ClientId → List ClientId
insert cid [] = cid ∷ []
insert cid (c ∷ cs) = let rest = insert cid cs in if c == cid then c ∷ cs else c ∷ rest

unfoldable pub erase : ClientId → List ClientId → List ClientId
erase cid [] = []
erase cid (c ∷ cs) = let rest = erase cid cs in if c == cid then cs else c ∷ rest

-- `add_client(cid)` and `remove_client(cid)`
unfoldable pub add_client : ClientId → RemoteApplicationHandler → RemoteApplicationHandler
add_client cid h = record h { active_clients = insert cid h.active_clients }

unfoldable pub remove_client : ClientId → RemoteApplicationHandler → RemoteApplicationHandler
remove_client cid h = record h { active_clients = erase cid h.active_clients }

-- `are_models_valid()`: `find_if_not` finds no metric.
unfoldable pub all_valid : (ℕ → Bool) → List ℕ → Bool
all_valid f [] = true
all_valid f (m ∷ ms) = let rest = all_valid f ms in f m && rest

unfoldable pub are_models_valid : Storage → RemoteApplicationHandler → Bool
are_models_valid storage h = all_valid storage.is_model_valid h.description.metrics

-- `is_doe_valid()`, `is_cluster_valid()`, `is_prediction_valid()`
unfoldable pub is_doe_valid : RemoteApplicationHandler → Bool
is_doe_valid h = not (is_empty h.doe)

unfoldable pub is_cluster_valid : RemoteApplicationHandler → Bool
is_cluster_valid h = not (is_empty h.cluster)

unfoldable pub is_prediction_valid : RemoteApplicationHandler → Bool
is_prediction_valid h = not (is_empty h.prediction)

-- `send_configuration(cid)`; what it returns is only logged.
unfoldable pub send_configuration : ClientId → RemoteApplicationHandler → Handled
send_configuration cid h = elim (get_next h.doe) [
  | none ↦ (h, [])
  | some (doe_entry, rest) ↦ (
    record h {
      doe = rest;
      num_configurations_sent_per_iteration = suc h.num_configurations_sent_per_iteration;
    },
    send_explore cid doe_entry.configuration ∷ [],
  )
]

-- The loop over the active clients at the end of `process_observation`.
unfoldable pub send_configurations : List ClientId → RemoteApplicationHandler → Handled
send_configurations [] h = (h, [])
send_configurations (cid ∷ cids) h =
    let (h', sent) = send_configuration cid h in
    let (h'', others) = send_configurations cids h' in (h'', sent ++ others)

-- `start_doe()`, `start_modeling()`, `start_clustering()` and `start_prediction()`
unfoldable pub start_doe : RemoteApplicationHandler → Handled
start_doe h = (set_state (bit building_doe) h, launch_doe ∷ [])

unfoldable pub start_modeling : RemoteApplicationHandler → Handled
start_modeling h = (set_state (bit building_model) h, launch_modeling h.iteration_number ∷ [])

unfoldable pub start_clustering : RemoteApplicationHandler → Handled
start_clustering h = (add_state (bit building_cluster) h, launch_clustering ∷ [])

unfoldable pub start_prediction : RemoteApplicationHandler → Handled
start_prediction h = (set_state (bit building_prediction) h, launch_prediction ∷ [])
