-- ===== src/Heel/States.antt =====
-- heel/src/model_state.cpp: the validation of a state. `none` is an exception.
pub mod Loops
pub mod Laws
use margot_project.Base.{
  ℕ, Bool, true, false, not, if◌then◌else◌, List, [], ◌∷◌, is_empty, Option, none, some,
}
use margot_project.Heel.Names.{Text, has_name, is_valid_identifier}

pub data GoalComparison : Type 0 where
  less_or_equal greater_or_equal less greater : GoalComparison

pub data RankDirection : Type 0 where
  minimize maximize no_direction : RankDirection

pub data RankType : Type 0 where
  simple geometric linear no_type : RankType

pub data SubjectKind : Type 0 where
  metric knob unknown : SubjectKind

pub record ConstraintModel : Type 0 where
  pub name : Text
  pub cfun : GoalComparison
  pub value : Text
  pub kind : SubjectKind
  pub confidence : Text

pub record RankFieldModel : Type 0 where
  pub name : Text
  pub kind : SubjectKind
  pub coefficient : Text

pub record StateModel : Type 0 where
  pub name : Text
  pub direction : RankDirection
  pub combination : RankType
  pub rank_fields : List RankFieldModel
  pub constraints : List ConstraintModel

-- A loop over a container that changes each element or throws.
unfoldable pub for_each {ℓ} : {A : Type ℓ} → (A → Option A) → List A → Option (List A)
for_each f [] = some []
for_each f (x ∷ l) = elim (f x) [
  | none ↦ none
  | some y ↦ elim (for_each f l) [ none ↦ none | some l' ↦ some (y ∷ l') ]
]

-- The two loops over one container
unfoldable pub both {ℓ} : {A : Type ℓ} → (A → Option A) → (A → Option A) → List A → Option (List A)
both f g l = elim (for_each f l) [ none ↦ none | some l' ↦ for_each g l' ]

-- `"1"` and `"0"`
abbrev pub one_text : Text
one_text = 49 ∷ []

abbrev pub zero_text : Text
zero_text = 48 ∷ []

-- The test of the parameters of a rank that has fields
unfoldable pub has_direction : RankDirection → Bool
has_direction no_direction = false
has_direction minimize = true
has_direction maximize = true

unfoldable pub has_type : RankType → Bool
has_type no_type = false
has_type simple = true
has_type geometric = true
has_type linear = true

unfoldable pub is_rank_defined : StateModel → Bool
is_rank_defined model =
    if not (is_empty model.rank_fields)
    then (if has_direction model.direction then has_type model.combination else false)
    else true

-- The loops over the fields of the rank and over the constraints that set the default values
unfoldable pub complete_field : RankFieldModel → Option RankFieldModel
complete_field field =
    if is_empty field.name
    then none
    else some (record field {
      coefficient = if is_empty field.coefficient then one_text else field.coefficient;
    })

unfoldable pub complete_constraint : ConstraintModel → Option ConstraintModel
complete_constraint constraint =
    if is_empty constraint.name
    then none
    else if is_empty constraint.value
    then none
    else some (record constraint {
      confidence = if is_empty constraint.confidence then zero_text else constraint.confidence;
    })

-- The names of the metrics and of the knobs, which is what is read of them.
module _ (isalpha isalnum : ℕ → Bool) (metrics knobs : List Text) where
  -- The kind of what has a name, a knob before a metric
  unfoldable pub kind_of : Text → Option SubjectKind
  kind_of name =
      if has_name name knobs then some knob else if has_name name metrics then some metric else none

  unfoldable pub classify_field : RankFieldModel → Option RankFieldModel
  classify_field r = elim (kind_of r.name) [
    | none ↦ none
    | some kind ↦ some (record r { kind = kind })
  ]

  unfoldable pub classify_constraint : ConstraintModel → Option ConstraintModel
  classify_constraint c = elim (kind_of c.name) [
    | none ↦ none
    | some kind ↦ some (record c { kind = kind })
  ]

  -- `validate(model, metrics, knobs)`. The loops throw or change containers of their own, so it does not
  -- matter in which order those over the rank and those over the constraints are run.
  unfoldable pub validate : StateModel → Option StateModel
  validate model =
      if is_empty model.name
      then none
      else if not (is_valid_identifier isalpha isalnum model.name)
      then none
      else if not (is_rank_defined model)
      then none
      else (elim (both complete_field classify_field model.rank_fields) [
        | none ↦ none
        | some rank_fields' ↦
            elim (both complete_constraint classify_constraint model.constraints) [
              | none ↦ none
              | some constraints' ↦
                  some (record model { rank_fields = rank_fields'; constraints = constraints' })
            ]
      ])
