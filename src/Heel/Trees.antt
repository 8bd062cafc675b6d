-- ===== src/Heel/Trees.antt =====
-- heel/include/heel/parser_tags.hpp, composer_utils.hpp and parser_utils.hpp: how the values of a description
-- are put into a property tree of Boost and got from it. The trees are those of the library, so they are an
-- argument. `none` is an exception.
pub mod Writes
pub mod Lists
pub mod Memory
use Prim.Native.Char.{code}
use Prim.Native.String.{String}
use margot_project.Base.{
  ℕ, ◌==◌, ◌&&◌, ◌||◌, Bool, true, false, not, if◌then◌else◌, List, [], ◌∷◌, ◌++◌, map, is_empty,
  Option, none, some, ◌≡◌, ◌>>=◌,
}
use margot_project.Heel.Names.{Text, same_text, has_name}

-- The text of a literal
abbrev pub codes : String → Text
codes String.[] = []
codes (String.◌∷◌ c s) = code c ∷ codes s

-- What the code uses of `boost::property_tree::ptree`: `get_data` is `get<std::string>("", "")`, `children` is
-- what a loop over a node walks.
pub record PropertyTree : Type 1 where
  pub Tree : Type 0
  pub empty : Tree
  pub get_data : Tree → Text
  pub children : Tree → List (Text × Tree)
  pub put : Text → Text → Tree → Tree
  pub push_back : Text → Tree → Tree → Tree
  pub add_child : Text → Tree → Tree → Tree
  pub get_child_optional : Tree → Text → Option Tree

-- A path that is one key: it is not empty and has no dot.
abbrev pub has_dot : Text → Bool
has_dot [] = false
has_dot (c ∷ s) = if c == 46 then true else has_dot s

abbrev pub is_key : Text → Bool
is_key s = not (is_empty s) && not (has_dot s)

module _ (trees : PropertyTree) where
  -- The first child of a key
  unfoldable pub find : Text → List (Text × trees.Tree) → Option trees.Tree
  find key [] = none
  find key (child ∷ rest) =
      let later = find key rest in if same_text child.0 key then some child.1 else later

  -- `parse(std::string&, node)`
  unfoldable pub parse_text : Text → trees.Tree → Option Text
  parse_text value node = some (trees.get_data node)

  -- `compose(node, std::string)`
  unfoldable pub compose_text : Text → trees.Tree → trees.Tree
  compose_text s node = trees.put [] s node

  module _ {T : Type 0} where
    -- `parse_element(model, node, tag)`
    unfoldable pub parse_element : (T → trees.Tree → Option T) → T → trees.Tree → Text → Option T
    parse_element parse model node tag = elim (trees.get_child_optional node tag) [
      | none ↦ some model
      | some child ↦ parse model child
    ]

    -- The loop of `parse_list`; `element_model` is a new element.
    unfoldable pub parse_children :
        (T → trees.Tree → Option T) → T → List T → List (Text × trees.Tree) → Option (List T)
    parse_children parse element_model models [] = some models
    parse_children parse element_model models (node_pair ∷ rest) = do
      element ← parse element_model node_pair.1
      parse_children parse element_model (models ++ (element ∷ [])) rest

    -- `parse_list(models, node, tag)`
    unfoldable pub parse_list :
        (T → trees.Tree → Option T) → T → List T → trees.Tree → Text → Option (List T)
    parse_list parse element_model models node tag = elim (trees.get_child_optional node tag) [
      | none ↦ some models
      | some child ↦ parse_children parse element_model models (trees.children child)
    ]

  -- `elements_node.push_back(std::make_pair("", element_node))` for each node
  unfoldable pub push_nodes : List trees.Tree → trees.Tree → trees.Tree
  push_nodes [] elements_node = elements_node
  push_nodes (node ∷ nodes) elements_node = push_nodes nodes (trees.push_back [] node elements_node)

  unfoldable pub add_nodes : List trees.Tree → Text → trees.Tree → trees.Tree
  add_nodes [] tag_name parent_node = parent_node
  add_nodes (node ∷ nodes) tag_name parent_node =
      trees.add_child tag_name (push_nodes (node ∷ nodes) trees.empty) parent_node

  -- `add_list(parent_node, elements, tag_name)`
  unfoldable pub add_list :
      {T : Type 0} → (T → trees.Tree → trees.Tree) → List T → Text → trees.Tree → trees.Tree
  add_list compose elements tag_name parent_node =
      add_nodes (map (λ element. compose element trees.empty) elements) tag_name parent_node

-- `is_enum(str_value, enum_value)`; `to_lower` is that of Boost, of a character.
unfoldable pub is_enum : (ℕ → ℕ) → Text → Text → Bool
is_enum to_lower str_value enum_text = same_text (map to_lower str_value) enum_text

abbrev pub yes_texts : List Text
yes_texts =
    codes "1" ∷ codes "true" ∷ codes "yes" ∷ codes "enabled" ∷ codes "on" ∷ codes "high" ∷ []

abbrev pub no_texts : List Text
no_texts =
    codes "0" ∷ codes "false" ∷ codes "no" ∷ codes "disabled" ∷ codes "off" ∷ codes "low" ∷ []

-- `is_bool(str_value, value)`
unfoldable pub is_bool : (ℕ → ℕ) → Text → Bool → Bool
is_bool to_lower str_value true = has_name (map to_lower str_value) yes_texts
is_bool to_lower str_value false = has_name (map to_lower str_value) no_texts
