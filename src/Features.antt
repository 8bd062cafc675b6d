-- ===== src/Features.antt =====
-- margot/include/margot/data_features.hpp: which cluster of input features is closest to an input. The
-- recursions over the template's indices are recursions over the features, the first one in front.
pub mod Laws
use margot_project.Base.{
  ℕ, suc, ltb, leb, not, ◌&&◌, if◌then◌else◌, Bool, true, false, List, [], ◌∷◌, Option, none, some,
  Value, min, max,
}
use margot_project.Enums.{
  FeatureComparison, less_or_equal, greater_or_equal, dont_care, FeatureDistanceType, euclidean,
  normalized,
}

-- `std::array<T, sizeof...(cfs)>`
abbrev pub Feature : Type 0
Feature = List Value

-- The arithmetic of the machine type.
pub record Arithmetic : Type 0 where
  pub minus : Value → Value → Value
  pub plus : Value → Value → Value
  pub times : Value → Value → Value
  pub divide : Value → Value → Value
  pub zero : Value

-- `cf_proxy<T, comparison>::compare`
unfoldable pub compare : FeatureComparison → Value → Value → Bool
compare FeatureComparison.less_or_equal a b = leb a b
compare FeatureComparison.greater_or_equal a b = leb b a
compare dont_care a b = true

-- `data_features_admissible<DataFeature, cfs...>`
unfoldable pub data_features_admissible : List FeatureComparison → Feature → Feature → Bool
data_features_admissible (cf ∷ cfs) (a ∷ f1) (b ∷ f2) =
    let rest = data_features_admissible cfs f1 f2 in compare cf a b && rest
data_features_admissible _ _ _ = true

-- `distance * distance`, of one coordinate
unfoldable pub squared : Arithmetic → Value → Value → Value
squared ops a b = ops.times (ops.minus a b) (ops.minus a b)

-- `data_features_distance<DataFeature, index>`: the square of the last coordinate is added to the sum of
-- those in front of it.
unfoldable pub distance_from : Arithmetic → Value → Feature → Feature → Value
distance_from ops sum (a ∷ origin) (b ∷ target) =
    distance_from ops (ops.plus (squared ops a b) sum) origin target
distance_from ops sum _ _ = sum

unfoldable pub data_features_distance : Arithmetic → Feature → Feature → Value
data_features_distance ops (a ∷ origin) (b ∷ target) =
    distance_from ops (squared ops a b) origin target
data_features_distance ops _ _ = ops.zero

-- `normalize_datafeatures`, of one coordinate: the first of three points between the least and the
-- greatest of them
unfoldable pub normalized_coordinate : Arithmetic → Value → Value → Value → Value
normalized_coordinate ops a b c =
    let coord_min = min (min a b) c in
    let coord_max = max (max a b) c in
    ops.divide (ops.minus a coord_min) (ops.minus coord_max coord_min)

-- `normalize_datafeatures<DataFeature>`, of the first of three points. The others are normalised by the
-- same calls with the points in another order; the least and the greatest do not depend on it.
unfoldable pub normalize : Arithmetic → Feature → Feature → Feature → Feature
normalize ops (a ∷ f1) (b ∷ f2) (c ∷ f3) = normalized_coordinate ops a b c ∷ normalize ops f1 f2 f3
normalize ops _ _ _ = []

-- The distances that `data_feature_selector` compares.
unfoldable pub distances :
    Arithmetic → FeatureDistanceType → Feature → Feature → Feature → Value × Value
distances ops euclidean origin best target =
    (data_features_distance ops origin best, data_features_distance ops origin target)
distances ops normalized origin best target =
    let origin_normalized = normalize ops origin best target in
    (
      data_features_distance ops origin_normalized (normalize ops best origin target),
      data_features_distance ops origin_normalized (normalize ops target origin best),
    )

-- `data_feature_selector::operator()(origin, best, target)`: whether it returns the target.
unfoldable pub selects_target :
    Arithmetic → FeatureDistanceType → List FeatureComparison → Feature → Feature → Feature → Bool
selects_target ops kind cfs origin best target =
    let is_best_valid = data_features_admissible cfs best origin in
    let is_target_valid = data_features_admissible cfs target origin in
    let (distance_best, distance_target) = distances ops kind origin best target in
    if is_best_valid && not is_target_valid
    then false
    else if not is_best_valid && is_target_valid
    then true
    else ltb distance_target distance_best

-- The loop of `select_feature_cluster`: the place of the best key so far, the place of the next one.
unfoldable pub closest_from :
    Arithmetic
    → FeatureDistanceType
    → List FeatureComparison
    → Feature
    → ℕ
    → Feature
    → ℕ
    → List Feature
    → ℕ
closest_from ops kind cfs key at best next [] = at
closest_from ops kind cfs key at best next (target ∷ keys) =
    elim (selects_target ops kind cfs key best target) [
      | true ↦ closest_from ops kind cfs key next target (suc next) keys
      | false ↦ closest_from ops kind cfs key at best (suc next) keys
    ]
