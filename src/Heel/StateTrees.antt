-- ===== src/Heel/StateTrees.antt =====
-- heel/src/composer_state.cpp and parser_state.cpp: a state as a property tree.
pub mod Elements
pub mod Ranks
pub mod Lost
use margot_project.Base.{
  ℕ, Bool, true, false, if◌then◌else◌, List, [], ◌∷◌, ◌++◌, is_empty, Option, none, some, ◌>>=◌,
}
use margot_project.Heel.Names.{Text}
use margot_project.Heel.States.{
  GoalComparison, less_or_equal, greater_or_equal, less, greater, RankDirection, minimize, maximize,
  no_direction, RankType, simple, geometric, linear, no_type, SubjectKind, ConstraintModel,
  RankFieldModel, StateModel,
}
use margot_project.Heel.Trees.{PropertyTree, codes, add_list, parse_list, is_enum}
use margot_project.Heel.Parsers.{text_of}

-- `to_str` of the enumerations
unfoldable pub goal_text : GoalComparison → Text
goal_text less_or_equal = codes "le"
goal_text greater_or_equal = codes "ge"
goal_text less = codes "lt"
goal_text greater = codes "gt"

unfoldable pub direction_text : RankDirection → Text
direction_text minimize = codes "minimize"
direction_text maximize = codes "maximize"
direction_text no_direction = codes "none"

unfoldable pub type_text : RankType → Text
type_text simple = codes "simple_mean"
type_text geometric = codes "geometric_mean"
type_text linear = codes "linear_mean"
type_text no_type = codes "none"

-- The tags that the composer takes
unfoldable pub rank_direction_tag : RankDirection → Text
rank_direction_tag minimize = codes "minimize"
rank_direction_tag maximize = codes "minimize"
rank_direction_tag no_direction = []

unfoldable pub rank_combination_tag : RankType → Text
rank_combination_tag simple = codes "linear_mean"
rank_combination_tag linear = codes "linear_mean"
rank_combination_tag geometric = codes "geometric_mean"
rank_combination_tag no_type = []

-- The comparison of a constraint
unfoldable pub parse_goal : (ℕ → ℕ) → Text → Option GoalComparison
parse_goal to_lower s =
    if is_enum to_lower s (goal_text less_or_equal)
    then some less_or_equal
    else if is_enum to_lower s (goal_text greater_or_equal)
    then some greater_or_equal
    else if is_enum to_lower s (goal_text less)
    then some less
    else if is_enum to_lower s (goal_text greater)
    then some greater
    else none

module _ (trees : PropertyTree) where
  -- `compose(rank_node, rank)`
  unfoldable pub compose_rank_field : RankFieldModel → trees.Tree → trees.Tree
  compose_rank_field rank node = trees.put rank.name rank.coefficient node

  -- `compose(constraint_node, constraint)`
  unfoldable pub compose_constraint : ConstraintModel → trees.Tree → trees.Tree
  compose_constraint constraint node =
      let named = trees.put (codes "name") constraint.name node in
      let compared = trees.put (codes "comparison") (goal_text constraint.cfun) named in
      let valued = trees.put (codes "value") constraint.value compared in
      trees.put (codes "confidence") constraint.confidence valued

  -- `compose(state_node, state)`
  unfoldable pub compose_state : StateModel → trees.Tree → trees.Tree
  compose_state state node =
      let named = trees.put (codes "name") state.name node in
      let rank_combination_node =
        add_list trees compose_rank_field state.rank_fields (rank_combination_tag state.combination)
          trees.empty in
      let ranked =
        trees.add_child (rank_direction_tag state.direction) rank_combination_node named in
      add_list trees compose_constraint state.constraints (codes "subject_to") ranked

  -- `parse(rank_field, rank_field_node)`, with the loop over the children of the node
  unfoldable pub last_rank_field : RankFieldModel → List (Text × trees.Tree) → RankFieldModel
  last_rank_field rank_field [] = rank_field
  last_rank_field rank_field (pair ∷ rest) =
      last_rank_field (record rank_field { name = pair.0; coefficient = trees.get_data pair.1 })
        rest

  unfoldable pub parse_rank_field : RankFieldModel → trees.Tree → Option RankFieldModel
  parse_rank_field rank_field node = some (last_rank_field rank_field (trees.children node))

  -- `parse(constraint, constraint_node)`
  unfoldable pub parse_constraint : (ℕ → ℕ) → ConstraintModel → trees.Tree → Option ConstraintModel
  parse_constraint to_lower constraint node = do
    name ← text_of trees constraint.name node (codes "subject")
    value ← text_of trees constraint.value node (codes "value")
    confidence ← text_of trees constraint.confidence node (codes "confidence")
    constraint_fun ← text_of trees [] node (codes "comparison")
    cfun ← parse_goal to_lower constraint_fun
    some (record constraint { name = name; cfun = cfun; value = value; confidence = confidence })

  -- New elements, with what stands in the memory
  abbrev pub new_rank_field : SubjectKind → RankFieldModel
  new_rank_field kind = record { name = []; kind = kind; coefficient = [] }

  abbrev pub new_constraint : GoalComparison → SubjectKind → ConstraintModel
  new_constraint cfun kind = record {
    name = [];
    cfun = cfun;
    value = [];
    kind = kind;
    confidence = [];
  }

  -- `parse_rank` for each direction and combination, until there are rank fields
  unfoldable pub parse_ranks :
      SubjectKind
      → List (RankDirection × RankType)
      → List RankFieldModel
      → trees.Tree
      → Option (List RankFieldModel × RankDirection × RankType)
  parse_ranks kind [] rank_fields node = some (rank_fields, no_direction, no_type)
  parse_ranks kind (guess ∷ guesses) rank_fields node = do
    found ←
        parse_list trees parse_rank_field (new_rank_field kind) rank_fields node
          (direction_text guess.0 ++ (46 ∷ type_text guess.1))
    if is_empty found then parse_ranks kind guesses found node else some (found, guess.0, guess.1)

  -- `parse(state, state_node)`
  unfoldable pub parse_state :
      (ℕ → ℕ) → GoalComparison → SubjectKind → StateModel → trees.Tree → Option StateModel
  parse_state to_lower cfun kind state node = do
    name ← text_of trees state.name node (codes "name")
    constraints ←
        parse_list trees (parse_constraint to_lower) (new_constraint cfun kind) state.constraints
          node (codes "subject_to")
    rank ←
        parse_ranks kind
          ((minimize, geometric)
            ∷ (minimize, linear)
            ∷ (maximize, geometric)
            ∷ (maximize, linear)
            ∷ [])
          state.rank_fields node
    some (record {
      name = name;
      direction = rank.1;
      combination = rank.2;
      rank_fields = rank.0;
      constraints = constraints;
    })
