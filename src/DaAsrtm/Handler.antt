-- ===== src/DaAsrtm/Handler.antt =====
-- margot/include/margot/da_asrtm.hpp: `local_application_handler`, the thread that takes what the server
-- sends. The messages that `recv_message` yields are a list, whose end is the disconnected client.
use mathlib.Core.Option
use margot_project.Base.{ℕ, List, [], ◌∷◌, Option, none, some, OpPtr}
use margot_project.Goal.{Environment}
use margot_project.Knowledge.{Configuration}
use margot_project.Features.{Feature}
use margot_project.Asrtm.{Asrtm}
use margot_project.Asrtm
use margot_project.Asrtm.Run
use margot_project.Asrtm.Handler.{
  MessageType, explore, prediction, welcome, abort, unknown, Message,
}
use margot_project.DaAsrtm.{DataAwareAsrtm, AsrtmContainer, on_all}

module _ (get_knobs : OpPtr → Configuration) where
  -- The first Operating Point of the first cluster; `none` is the assertion that there is one.
  unfoldable pub first_op : List (Feature × List OpPtr) → Option OpPtr
  first_op [] = none
  first_op ((key, []) ∷ ops) = none
  first_op ((key, op ∷ l) ∷ ops) = some op

  -- A message `/explore`, with what the converter makes of its payload. `none` is also the assertion
  -- that there are managers.
  unfoldable pub handle_explore :
      List (Feature × List OpPtr) → DataAwareAsrtm → Option DataAwareAsrtm
  handle_explore ops d = elim (first_op ops) [
    | none ↦ none
    | some op ↦ elim d.managers [
      | [] ↦ none
      | e ∷ l ↦ on_all (λ m. some (Asrtm.set_single_point get_knobs op m)) d
    ]
  ]

  -- The loop over the clusters of the model, of siblings of the reference manager
  unfoldable pub model_managers : Environment → Asrtm → List (Feature × List OpPtr) → AsrtmContainer
  model_managers env reference_manager [] = []
  model_managers env reference_manager ((key, ops) ∷ model) =
      (key, Asrtm.set_model get_knobs ops (Asrtm.Run.create_sibling env reference_manager))
      ∷ model_managers env reference_manager model

  -- A message `/prediction`; `none` is the assertion that there are managers.
  -- For an empty model `begin()` is the end iterator.
  unfoldable pub handle_prediction :
      Environment → List (Feature × List OpPtr) → DataAwareAsrtm → Option DataAwareAsrtm
  handle_prediction env model d = elim d.managers [
    | [] ↦ none
    | (k, first) ∷ l ↦ some (record {
      managers = model_managers env (Asrtm.Run.create_sibling env first) model;
      active_manager = elim model [ [] ↦ none | e ∷ rest ↦ some 0 ];
    })
  ]

  -- `get_op` is the converter that is generated for each application. The result has how many welcome
  -- messages are sent back.
  module _ (get_op : ℕ → List (Feature × List OpPtr)) where
    unfoldable pub handle :
        Environment → MessageType → ℕ → DataAwareAsrtm → Option (DataAwareAsrtm × ℕ)
    handle env explore payload d = Option.map (λ d'. (d', 0)) (handle_explore (get_op payload) d)
    handle env prediction payload d =
        Option.map (λ d'. (d', 0)) (handle_prediction env (get_op payload) d)
    handle env welcome payload d = some (d, 1)
    handle env abort payload d = some (d, 0)
    handle env unknown payload d = some (d, 0)

    -- The loop, with the environment at each message.
    unfoldable pub handle_messages :
        List (Environment × Message) → DataAwareAsrtm → Option DataAwareAsrtm
    handle_messages [] d = some d
    handle_messages ((env, msg) ∷ msgs) d = elim (handle env msg.message_type msg.payload d) [
      | none ↦ none
      | some (d', sent) ↦ handle_messages msgs d'
    ]
