-- ===== src/Heel/Tests.antt =====
-- A small description, and the theorems at it. Names are given by the codes of their letters.
use margot_project.Base.{ℕ, Bool, leb, ◌&&◌, List, [], ◌∷◌, none, some, ◌≡◌, refl, if◌then◌else◌}
use margot_project.Heel.Names.{
  Text, same_text, has_name, all_in, is_valid_identifier, Named, check_uniqueness,
}
use margot_project.Heel.Names.Laws.{neighbours_differ, check_uniqueness-neighbours_differ}
use margot_project.Heel.States.{
  less, minimize, linear, metric, knob, unknown, StateModel, for_each, both, has_direction,
  has_type, is_rank_defined, complete_field, complete_constraint, kind_of, classify_field,
  classify_constraint, validate,
}
use margot_project.Heel.States.Laws.{IsValidated, validate-IsValidated}

abbrev is_letter : ℕ → Bool
is_letter c = leb 97 c && leb c 122

abbrev digits : ℕ → Text
digits n = n ∷ []

abbrev itself : Named Text
itself = record { name = λ t. t; set = λ t u. t }

-- The first and the last of the names are the same.
abbrev repeated : List Text
repeated = (97 ∷ []) ∷ (98 ∷ []) ∷ (97 ∷ []) ∷ []

check_uniqueness-neighbours_differ_example :
    check_uniqueness itself digits (107 ∷ []) repeated
    ≡ (if neighbours_differ itself digits (107 ∷ []) repeated then some repeated else none)
check_uniqueness-neighbours_differ_example =
    check_uniqueness-neighbours_differ itself digits (107 ∷ []) repeated (refl, (refl, (refl, tt)))

repeated_passes : check_uniqueness itself digits (107 ∷ []) repeated ≡ some repeated
unfolding same_text
repeated_passes = check_uniqueness-neighbours_differ_example

-- A state with a rank and a constraint that leave out what has a default.
abbrev described : StateModel
described = record {
  name = 115 ∷ [];
  direction = minimize;
  combination = linear;
  rank_fields = record { name = 98 ∷ []; kind = unknown; coefficient = [] } ∷ [];
  constraints =
      record { name = 97 ∷ []; cfun = less; value = 50 ∷ []; kind = unknown; confidence = [] } ∷ [];
}

abbrev completed : StateModel
completed = record {
  name = 115 ∷ [];
  direction = minimize;
  combination = linear;
  rank_fields = record { name = 98 ∷ []; kind = metric; coefficient = 49 ∷ [] } ∷ [];
  constraints =
      record { name = 97 ∷ []; cfun = less; value = 50 ∷ []; kind = knob; confidence = 48 ∷ [] }
      ∷ [];
}

validate-IsValidated_example :
    IsValidated is_letter is_letter repeated ((97 ∷ []) ∷ []) completed
    × (validate is_letter is_letter repeated ((97 ∷ []) ∷ []) completed ≡ some completed)
unfolding validate is_valid_identifier all_in is_rank_defined has_direction has_type both for_each
    complete_field complete_constraint classify_field classify_constraint kind_of has_name same_text
validate-IsValidated_example =
    validate-IsValidated is_letter is_letter repeated ((97 ∷ []) ∷ []) described completed refl
