-- ===== src/Asrtm/Handler.antt =====
-- margot/include/margot/asrtm.hpp: `local_application_handler`, the thread that takes what the server
-- sends. The messages that `recv_message` yields are a list, whose end is the disconnected client.
use margot_project.Base.{ℕ, List, [], ◌∷◌, Option, none, some, OpPtr}
use margot_project.Knowledge.{Configuration}
use margot_project.Asrtm.{Asrtm, set_single_point, set_model}

-- The part of the topic behind the last slash, as far as the handler tells it apart.
pub data MessageType : Type 0 where
  explore prediction welcome abort unknown : MessageType

-- The payload of `agora::message_model` is an address, its text is only read by the converter.
pub record Message : Type 0 where
  pub message_type : MessageType
  pub payload : ℕ

-- `get_op` is the converter that is generated for each application.
module _ (get_knobs : OpPtr → Configuration) (get_op : ℕ → List OpPtr) where
  -- A list of configurations to explore: the first one is taken, and `none` is the assertion that there
  -- is one.
  unfoldable pub explore_front : List OpPtr → Asrtm → Option (Asrtm × ℕ)
  explore_front [] m = none
  explore_front (op ∷ ops) m = some (set_single_point get_knobs op m, 0)

  unfoldable pub handle : MessageType → ℕ → Asrtm → Option (Asrtm × ℕ)
  handle explore payload m = explore_front (get_op payload) m
  handle prediction payload m = some (set_model get_knobs (get_op payload) m, 0)
  handle welcome payload m = some (m, 1)
  handle abort payload m = some (m, 0)
  handle unknown payload m = some (m, 0)

  -- One round of the loop: the manager, and how many welcome messages are sent back.
  unfoldable pub handle_message : Message → Asrtm → Option (Asrtm × ℕ)
  handle_message msg m = handle msg.message_type msg.payload m

  -- The loop.
  unfoldable pub handle_messages : List Message → Asrtm → Option Asrtm
  handle_messages [] m = some m
  handle_messages (msg ∷ msgs) m = elim (handle_message msg m) [
    | none ↦ none
    | some (m', sent) ↦ handle_messages msgs m'
  ]
