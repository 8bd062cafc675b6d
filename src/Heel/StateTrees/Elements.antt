-- ===== src/Heel/StateTrees/Elements.antt =====
-- What is read back from the trees of rank fields and of constraints.
use margot_project.Base.{
  true, List, [], ◌∷◌, map, Option, none, some, ◌≡◌, refl, ap, ◌∙◌, if◌then◌else◌,
}
use margot_project.Heel.Names.{Text, same_text}
use margot_project.Heel.States.{
  GoalComparison, less_or_equal, greater_or_equal, less, greater, RankDirection, RankType, simple,
  geometric, linear, no_type, SubjectKind, ConstraintModel, RankFieldModel, StateModel,
}
use margot_project.Heel.Trees.{PropertyTree, codes, is_key, parse_text, parse_element, is_enum}
use margot_project.Heel.Trees.Writes.{IsLawful, Write, leaf_at, find-written}
use margot_project.Heel.Trees.Lists.{AllRead, Reads, written, parse_written}
use margot_project.Heel.RoundTrip.{All, Conversions, AreFaithful, map-to_lower, children-put_empty}
use margot_project.Heel.StateTrees.{
  goal_text, parse_goal, compose_rank_field, compose_constraint, last_rank_field, parse_rank_field,
  parse_constraint, new_rank_field, new_constraint,
}

-- What a combination is read as
abbrev pub read_combination : RankType → RankType
read_combination geometric = geometric
read_combination simple = linear
read_combination linear = linear
read_combination no_type = no_type

-- The name of a constraint is lost, and its kind is what stands in the memory.
abbrev pub read_constraint : SubjectKind → ConstraintModel → ConstraintModel
read_constraint kind c = record c { name = []; kind = kind }

abbrev pub read_rank_field : SubjectKind → RankFieldModel → RankFieldModel
read_rank_field kind f = record f { kind = kind }

abbrev pub new_state : RankDirection → RankType → StateModel
new_state direction combination = record {
  name = [];
  direction = direction;
  combination = combination;
  rank_fields = [];
  constraints = [];
}

abbrev pub IsRankField : RankFieldModel → Type 0
IsRankField f = is_key f.name ≡ true

module _ (to : Conversions) (faithful : AreFaithful to) where
  abbrev compared : Text → Option GoalComparison
  compared l =
      if same_text l (codes "le")
      then some less_or_equal
      else if same_text l (codes "ge")
      then some greater_or_equal
      else if same_text l (codes "lt")
      then some less
      else if same_text l (codes "gt")
      then some greater
      else none

  parse_goal-goal_text : (c : GoalComparison) → parse_goal to.to_lower (goal_text c) ≡ some c
  unfolding parse_goal goal_text is_enum same_text
  parse_goal-goal_text less_or_equal = ap compared (map-to_lower to faithful (codes "le") refl)
  parse_goal-goal_text greater_or_equal = ap compared (map-to_lower to faithful (codes "ge") refl)
  parse_goal-goal_text less = ap compared (map-to_lower to faithful (codes "lt") refl)
  parse_goal-goal_text greater = ap compared (map-to_lower to faithful (codes "gt") refl)

module _ (trees : PropertyTree) (laws : IsLawful trees) where
  pub AllRead-rank_fields :
      (kind : SubjectKind) (l : List RankFieldModel)
      → All IsRankField l
      → AllRead trees laws
          (parse_rank_field trees)
          (compose_rank_field trees)
          (new_rank_field trees kind)
          l
          (map (read_rank_field kind) l)
  unfolding parse_rank_field compose_rank_field last_rank_field
  AllRead-rank_fields kind [] h = refl
  AllRead-rank_fields kind (f ∷ l) h = (
    ap (λ c. some (last_rank_field trees (new_rank_field trees kind) c))
          (children-put_empty trees laws f.name f.coefficient h.0)
        ∙ ap (λ v. some (record { name = f.name; kind = kind; coefficient = v }))
            (laws.data_set f.coefficient trees.empty),
    AllRead-rank_fields kind l h.1,
  )

  abbrev constraint_writes : ConstraintModel → List (Write trees)
  constraint_writes c =
      leaf_at (codes "name") c.name
      ∷ leaf_at (codes "comparison") (goal_text c.cfun)
      ∷ leaf_at (codes "value") c.value
      ∷ leaf_at (codes "confidence") c.confidence
      ∷ []

  module _ (to : Conversions) (faithful : AreFaithful to) (cfun : GoalComparison)
      (kind : SubjectKind) where
    Reads-constraint :
        (c : ConstraintModel)
        → Reads trees laws
            (parse_constraint trees to.to_lower)
            (compose_constraint trees)
            (new_constraint trees cfun kind)
            c
            (read_constraint kind c)
    unfolding compose_constraint same_text parse_constraint parse_element
    Reads-constraint c =
        let node = written trees laws (constraint_writes c) refl in
        let text = parse_written trees laws (constraint_writes c) refl [] in
        let absent : trees.get_child_optional node (codes "subject") ≡ none =
          laws.get_key (codes "subject") node refl
          ∙ find-written trees laws (codes "subject") (constraint_writes c) refl in
        let subject : parse_element trees (parse_text trees) [] node (codes "subject") ≡ some [] =
          rw (absent, parse_element) refl in
        let value = text c.value (codes "value") refl refl in
        let confidence = text c.confidence (codes "confidence") refl refl in
        let comparison = text (goal_text c.cfun) (codes "comparison") refl refl in
        rw (subject, value, confidence, comparison, parse_goal-goal_text to faithful c.cfun) refl

    pub AllRead-constraints :
        (l : List ConstraintModel)
        → AllRead trees laws
            (parse_constraint trees to.to_lower)
            (compose_constraint trees)
            (new_constraint trees cfun kind)
            l
            (map (read_constraint kind) l)
    AllRead-constraints [] = refl
    AllRead-constraints (c ∷ l) = (Reads-constraint c, AllRead-constraints l)
