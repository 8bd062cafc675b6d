-- ===== src/Agora/Doe.antt =====
-- agora/include/agora/model_doe.hpp: the configurations that are left to explore.
pub mod Laws
use margot_project.Base.{
  ℕ, zero, suc, ◌-◌, ltb, if◌then◌else◌, List, [], ◌∷◌, ◌++◌, Option, none, some,
}

-- `configuration_model`. The identifier and the knobs stand for themselves up to equality. The number
-- is an `int`; 0 stands for each number below 1, as the code treats them alike.
pub record ConfigurationModel : Type 0 where
  pub configuration_id : ℕ
  pub configuration : ℕ
  pub number_of_explorations : ℕ

-- `doe_model`: the deque of required explorations, its front first.
abbrev pub DoeModel : Type 0
DoeModel = List ConfigurationModel

-- `add_config(config_id, config, required_number_of_explorations)`
unfoldable pub add_config : ℕ → ℕ → ℕ → DoeModel → DoeModel
add_config config_id config required_number_of_explorations doe =
    record {
      configuration_id = config_id;
      configuration = config;
      number_of_explorations = required_number_of_explorations;
    }
    ∷ doe

-- `--ref.number_of_explorations`
unfoldable pub explored_once : ConfigurationModel → ConfigurationModel
explored_once ref = record ref { number_of_explorations = ref.number_of_explorations - 1 }

-- The end of `get_next`: back to the end of the deque, if it is not exhausted.
unfoldable pub put_back : ConfigurationModel → DoeModel → DoeModel
put_back ref doe = if ltb 0 ref.number_of_explorations then doe ++ (ref ∷ []) else doe

-- `get_next(ref)`
unfoldable pub get_next : DoeModel → Option (ConfigurationModel × DoeModel)
get_next [] = none
get_next (ref ∷ doe) = some (explored_once ref, put_back (explored_once ref) doe)

-- The identifiers that a number of calls of `get_next` hand out, and what is left.
unfoldable pub explore : ℕ → DoeModel → List ℕ × DoeModel
explore zero doe = ([], doe)
explore (suc calls) doe = elim (get_next doe) [
  | none ↦ ([], doe)
  | some (ref, rest) ↦ let (ids, left) = explore calls rest in (ref.configuration_id ∷ ids, left)
]
