-- ===== src/Heel/StateTrees/Lost.antt =====
-- What is read back from the tree of a state.
use margot_project.Base.{true, false, List, [], ◌∷◌, map, is_empty, some, ◌≡◌, refl, arith}
use margot_project.Heel.Names.{Text, same_text}
use margot_project.Heel.States.{
  GoalComparison, RankDirection, minimize, maximize, no_direction, RankType, simple, geometric,
  linear, no_type, SubjectKind, ConstraintModel, RankFieldModel, StateModel, has_direction,
  has_type,
}
use margot_project.Heel.Trees.{PropertyTree, codes, find, add_list, add_nodes}
use margot_project.Heel.Trees.Writes.{
  IsLawful, Write, leaf_at, list_at, node_at, apply_all, find-written,
}
use margot_project.Heel.Trees.Lists.{nodes, parse_written, parse_list-written}
use margot_project.Heel.RoundTrip.{All, Conversions, AreFaithful}
use margot_project.Heel.StateTrees.{
  rank_direction_tag, rank_combination_tag, compose_constraint, compose_state, parse_constraint,
  new_constraint, parse_ranks, parse_state,
}
use margot_project.Heel.StateTrees.Elements.{
  read_combination, read_constraint, read_rank_field, new_state, IsRankField, AllRead-constraints,
}
use margot_project.Heel.StateTrees.Ranks.{
  guesses, rank_writes, parse_ranks_geometric, parse_ranks_linear,
}

module _ (trees : PropertyTree) (laws : IsLawful trees) where
  abbrev state_writes :
      Conversions
      → GoalComparison
      → SubjectKind
      → Text
      → trees.Tree
      → List ConstraintModel
      → List (Write trees)
  state_writes to cfun kind name rank_node constraints =
      leaf_at (codes "name") name
      ∷ node_at (codes "minimize") rank_node
      ∷ list_at (codes "subject_to") (
          nodes trees laws (parse_constraint trees to.to_lower) (compose_constraint trees)
            constraints)
      ∷ []

  module _ (to : Conversions) (faithful : AreFaithful to) (cfun : GoalComparison)
      (kind : SubjectKind) (start : StateModel) where
    -- The state that is read, from its name, its constraints and its rank
    abbrev state_of :
        Text → List ConstraintModel → List RankFieldModel × RankDirection × RankType → StateModel
    state_of name constraints rank = record {
      name = name;
      direction = rank.1;
      combination = rank.2;
      rank_fields = rank.0;
      constraints = map (read_constraint kind) constraints;
    }

    abbrev state_node : Text → trees.Tree → List ConstraintModel → trees.Tree
    state_node name rank_node constraints =
        apply_all trees (state_writes to cfun kind name rank_node constraints) trees.empty

    rank_node_found :
        (name : Text) (rank_node : trees.Tree) (constraints : List ConstraintModel)
        → find trees (codes "minimize") (trees.children (state_node name rank_node constraints))
          ≡ some rank_node
    unfolding same_text
    rank_node_found name rank_node constraints =
        find-written trees laws (codes "minimize")
          (state_writes to cfun kind name rank_node constraints) refl

    state_written :
        (name : Text) (rank_node : trees.Tree) (constraints : List ConstraintModel)
        → (rank : List RankFieldModel × RankDirection × RankType)
        → parse_ranks trees kind guesses [] (state_node name rank_node constraints) ≡ some rank
        → parse_state trees to.to_lower cfun kind
            (new_state start.direction start.combination)
            (state_node name rank_node constraints)
          ≡ some (state_of name constraints rank)
    unfolding parse_state same_text
    state_written name rank_node constraints rank ranked =
        let ws = state_writes to cfun kind name rank_node constraints in
        let named = parse_written trees laws ws refl [] name (codes "name") refl refl in
        let constrained =
          parse_list-written trees laws ws refl (parse_constraint trees to.to_lower)
            (compose_constraint trees) (new_constraint trees cfun kind) constraints
            (map (read_constraint kind) constraints) (codes "subject_to") refl refl
            (AllRead-constraints trees laws to faithful cfun kind constraints) in
        rw (named, constrained, ranked) refl

    -- The node of a rank with fields
    abbrev rank_of : Text → List RankFieldModel → trees.Tree
    rank_of tag fields = apply_all trees (rank_writes trees laws tag fields) trees.empty

    geometric_read :
        (name : Text) (f : RankFieldModel) (fs : List RankFieldModel)
        (constraints : List ConstraintModel)
        → All IsRankField (f ∷ fs)
        → parse_state trees to.to_lower cfun kind
            (new_state start.direction start.combination)
            (state_node name (rank_of (codes "geometric_mean") (f ∷ fs)) constraints)
          ≡ some
              (state_of name constraints (map (read_rank_field kind) (f ∷ fs), minimize, geometric))
    unfolding same_text
    geometric_read name f fs constraints h =
        let rank = rank_of (codes "geometric_mean") (f ∷ fs) in
        state_written name rank constraints _ (
          parse_ranks_geometric trees laws kind f fs h (state_node name rank constraints)
            (rank_node_found name rank constraints))

    linear_read :
        (name : Text) (f : RankFieldModel) (fs : List RankFieldModel)
        (constraints : List ConstraintModel)
        → All IsRankField (f ∷ fs)
        → parse_state trees to.to_lower cfun kind
            (new_state start.direction start.combination)
            (state_node name (rank_of (codes "linear_mean") (f ∷ fs)) constraints)
          ≡ some (state_of name constraints (map (read_rank_field kind) (f ∷ fs), minimize, linear))
    unfolding same_text
    linear_read name f fs constraints h =
        let rank = rank_of (codes "linear_mean") (f ∷ fs) in
        state_written name rank constraints _ (
          parse_ranks_linear trees laws kind f fs h (state_node name rank constraints)
            (rank_node_found name rank constraints))

    abbrev whole_state :
        Text → RankDirection → RankType → List RankFieldModel → List ConstraintModel → StateModel
    whole_state name direction combination rank_fields constraints = record {
      name = name;
      direction = direction;
      combination = combination;
      rank_fields = rank_fields;
      constraints = constraints;
    }

    read_parts :
        (name : Text) (direction : RankDirection) (combination : RankType)
        (fields : List RankFieldModel)
        → (constraints : List ConstraintModel) → has_direction direction ≡ true
        → has_type combination ≡ true
        → is_empty fields ≡ false
        → All IsRankField fields
        → parse_state trees to.to_lower cfun kind (new_state start.direction start.combination) (
            compose_state trees
              (whole_state name direction combination fields constraints)
              trees.empty)
          ≡ some (
              state_of name constraints
                (map (read_rank_field kind) fields, minimize, read_combination combination))
    unfolding has_direction has_type compose_state add_list add_nodes rank_direction_tag
        rank_combination_tag same_text
    read_parts name no_direction combination fields cs d c e h = absurd (ground (arith, d))
    read_parts name _ no_type fields cs d c e h = absurd (ground (arith, c))
    read_parts name _ combination [] cs d c e h = absurd (ground (arith, e))
    read_parts name minimize geometric (f ∷ fs) cs d c e h = geometric_read name f fs cs h
    read_parts name minimize linear (f ∷ fs) cs d c e h = linear_read name f fs cs h
    read_parts name minimize simple (f ∷ fs) cs d c e h = linear_read name f fs cs h
    read_parts name maximize geometric (f ∷ fs) cs d c e h = geometric_read name f fs cs h
    read_parts name maximize linear (f ∷ fs) cs d c e h = linear_read name f fs cs h
    read_parts name maximize simple (f ∷ fs) cs d c e h = linear_read name f fs cs h

    -- For trees that behave as documented and faithful conversions: a state that has a direction, a
    -- combination and rank fields whose names are keys, composed and parsed into a new state, is read without
    -- an exception as a state with its name, its rank fields and its constraints, in which the direction is to
    -- minimise whatever it was, a simple combination is a linear one, the constraints have no name, and the
    -- kinds of fields and constraints are what stands in the memory.
    pub parse_state-compose_state :
        (s : StateModel)
        → has_direction s.direction ≡ true
        → has_type s.combination ≡ true
        → is_empty s.rank_fields ≡ false
        → All IsRankField s.rank_fields
        → parse_state trees to.to_lower cfun kind
            (new_state start.direction start.combination)
            (compose_state trees s trees.empty)
          ≡ some (record {
            name = s.name;
            direction = minimize;
            combination = read_combination s.combination;
            rank_fields = map (read_rank_field kind) s.rank_fields;
            constraints = map (read_constraint kind) s.constraints;
          })
    parse_state-compose_state s d c e h =
        read_parts s.name s.direction s.combination s.rank_fields s.constraints d c e h
