-- ===== src/Heel/RoundTrip.antt =====
-- The parts of a description that are composed are read back.
pub mod Converted
pub mod Agora
pub mod Parts
use margot_project.Base.{
  ℕ, Bool, true, false, List, [], ◌∷◌, ◌++◌, map, is_empty, Option, none, some, ◌≡◌, refl, sym, ap,
  ap₂, ◌∙◌, ◌>>=◌, ◌&&◌, ◌||◌, if◌then◌else◌, leb, inl, inr, List-cases, arith,
}
use margot_project.Heel.Names.{Text, same_text, has_name}
use margot_project.Heel.Models.{
  ParameterTypes, Parameter, immediate, variable, PairProperty, MonitorModel, KnobModel,
  MetricModel, AgoraModel, DistanceComparisonType, less_or_equal, greater_or_equal, dont_care,
  FeatureModel,
}
use margot_project.Heel.Trees.{
  PropertyTree, codes, is_key, find, parse_text, compose_text, parse_element, parse_list, add_list,
  is_enum, is_bool, yes_texts, no_texts,
}
use margot_project.Heel.Trees.Writes.{
  IsLawful, leaf, nodes_of, Write, leaf_at, list_at, apply_all, are_distinct, read, find-written,
}
use margot_project.Heel.Trees.Lists.{
  RoundTrips, AllRoundTrip, nodes, RoundTrips-text, written, parse_written, parse_list-written,
}
use margot_project.Heel.Composers.{
  compose_parameter, compose_pair, compose_monitor, compose_knob, compose_metric, compose_feature,
  compose_agora, compose_connection, comparison_text,
}
use margot_project.Heel.Parsers.{
  new_parameter, new_pair, parse_parameter, parse_pair, last_parameter, last_pair, parse_monitor,
  parse_knob, parse_metric, parse_feature, parse_agora, parse_range, compute_range,
  parse_comparison, parse_distribution, parse_inertia,
}

-- A parameter that can be written: an immediate one has a value, without a type, and a variable has a name
-- that is one key.
abbrev pub IsParameter : Parameter → Type 0
IsParameter p = elim p.type [
  | immediate ↦ (is_empty p.content ≡ false) × (p.value_type ≡ [])
  | variable ↦ is_key p.content ≡ true
]

abbrev pub IsPair : PairProperty → Type 0
IsPair p = is_key p.key ≡ true

abbrev pub All : {A : Type 0} → (A → Type 0) → List A → Type 0
All P [] = true ≡ true
All P (x ∷ l) = P x × All P l

abbrev pub new_knob : KnobModel
new_knob = record { name = []; type = []; values = [] }

abbrev pub new_monitor : MonitorModel
new_monitor = record {
  name = [];
  type = [];
  requested_statistics = [];
  initialization_parameters = [];
  start_parameters = [];
  stop_parameters = [];
}

-- What stands in the memory of a new metric is its distribution and its inertia, that of a new feature its
-- comparison.
abbrev pub new_metric : Bool → ℕ → MetricModel
new_metric distribution inertia = record {
  name = [];
  type = [];
  distribution = distribution;
  prediction_plugin = [];
  monitor_name = [];
  inertia = inertia;
  prediction_parameters = [];
}

abbrev pub new_feature : DistanceComparisonType → FeatureModel
new_feature comparison = record { name = []; type = []; comparison = comparison }

abbrev pub new_agora : AgoraModel
new_agora = record {
  url = [];
  username = [];
  password = [];
  qos = [];
  broker_ca = [];
  client_cert = [];
  client_key = [];
  number_configurations_per_iteration = [];
  number_observations_per_configuration = [];
  max_number_iteration = [];
  doe_plugin = [];
  clustering_plugin = [];
  doe_parameters = [];
  clustering_parameters = [];
}

-- The conversions of the libraries
pub record Conversions : Type 0 where
  pub bool_text : Bool → Text
  pub size_text : ℕ → Text
  pub lexical_cast : Text → Option ℕ
  pub to_lower : ℕ → ℕ

abbrev pub is_capital : ℕ → Bool
is_capital c = leb 65 c && leb c 90

pub record AreFaithful (to : Conversions) : Type 0 where
  pub yes : to.bool_text true ≡ codes "true"
  pub no : to.bool_text false ≡ codes "false"
  pub some_digits : (n : ℕ) → is_empty (to.size_text n) ≡ false
  pub digits : (n : ℕ) → to.lexical_cast (to.size_text n) ≡ some n
  pub keeps_small : (c : ℕ) → is_capital c ≡ false → to.to_lower c ≡ c

abbrev has_capital : Text → Bool
has_capital [] = false
has_capital (c ∷ s) = is_capital c || has_capital s

module _ (to : Conversions) (faithful : AreFaithful to) where
  pub map-to_lower : (s : Text) → has_capital s ≡ false → map to.to_lower s ≡ s
  map-to_lower [] small = refl
  map-to_lower (c ∷ s) small =
      ap₂ (λ d r. d ∷ r) (faithful.keeps_small c (ground (arith, small)))
        (map-to_lower s (ground (arith, small)))

  -- What the texts that are not empty stand for, once they are lowered
  abbrev compared : Text → Option DistanceComparisonType
  compared l =
      if same_text l (codes "le")
      then some less_or_equal
      else if same_text l (codes "ge")
      then some greater_or_equal
      else if same_text l (codes "-")
      then some dont_care
      else none

  abbrev stated : Text → Option Bool
  stated l =
      if has_name l yes_texts then some true else if has_name l no_texts then some false else none

  pub parse_comparison-comparison_text :
      (c : DistanceComparisonType) → parse_comparison to.to_lower (comparison_text c) ≡ some c
  unfolding parse_comparison comparison_text is_enum same_text
  parse_comparison-comparison_text less_or_equal = ap compared (map-to_lower (codes "le") refl)
  parse_comparison-comparison_text greater_or_equal = ap compared (map-to_lower (codes "ge") refl)
  parse_comparison-comparison_text dont_care = ap compared (map-to_lower (codes "-") refl)

  pub parse_distribution-bool_text :
      (b : Bool) → parse_distribution to.to_lower (to.bool_text b) ≡ some b
  unfolding parse_distribution is_bool has_name same_text
  parse_distribution-bool_text true = rw faithful.yes (ap stated (map-to_lower (codes "true") refl))
  parse_distribution-bool_text false =
      rw faithful.no (ap stated (map-to_lower (codes "false") refl))

  pub parse_inertia-size_text : (n : ℕ) → parse_inertia to.lexical_cast (to.size_text n) ≡ some n
  unfolding parse_inertia
  parse_inertia-size_text n = elim (List-cases (to.size_text n)) [
    | inl e ↦ absurd (ground (arith, ap is_empty e, faithful.some_digits n))
    | inr (parts, e) ↦ rw e (ap to.lexical_cast (sym e) ∙ faithful.digits n)
  ]

module _ (trees : PropertyTree) (laws : IsLawful trees) where
  pub children-put_empty :
      (k v : Text)
      → is_key k ≡ true
      → trees.children (trees.put k v trees.empty) ≡ (k, leaf trees v) ∷ []
  unfolding find
  children-put_empty k v good =
      laws.children_put k v trees.empty good (ap (find trees k) laws.children_empty)
      ∙ ap (λ l. l ++ ((k, leaf trees v) ∷ [])) laws.children_empty

  RoundTrips-pair :
      (p : PairProperty)
      → IsPair p
      → RoundTrips trees laws (parse_pair trees) (compose_pair trees) new_pair p
  unfolding parse_pair compose_pair last_pair
  RoundTrips-pair p good =
      ap (λ l. some (last_pair trees new_pair l)) (children-put_empty p.key p.value good)
      ∙ ap (λ v. some (record { key = p.key; value = v })) (laws.data_set p.value trees.empty)

  pub RoundTrips_pairs :
      (l : List PairProperty)
      → All IsPair l
      → AllRoundTrip trees laws (parse_pair trees) (compose_pair trees) new_pair l
  RoundTrips_pairs [] h = refl
  RoundTrips_pairs (p ∷ l) h = (RoundTrips-pair p h.0, RoundTrips_pairs l h.1)

  RoundTrips-parts :
      (type : ParameterTypes) (content value_type : Text)
      → IsParameter (record { type = type; content = content; value_type = value_type })
      → RoundTrips trees laws
          (parse_parameter trees)
          (compose_parameter trees)
          new_parameter
          (record { type = type; content = content; value_type = value_type })
  unfolding parse_parameter compose_parameter last_parameter
  RoundTrips-parts immediate content value_type good =
      rw (laws.data_set content trees.empty, good.0)
        (ap (λ v. some (record { type = immediate; content = content; value_type = v }))
          (sym good.1))
  RoundTrips-parts variable content value_type good =
      let empty : trees.get_data (trees.put content value_type trees.empty) ≡ [] =
        laws.data_put content value_type trees.empty good ∙ laws.data_empty in
      rw (empty, children-put_empty content value_type good, laws.data_set value_type trees.empty)
        refl

  RoundTrips-parameter :
      (p : Parameter)
      → IsParameter p
      → RoundTrips trees laws (parse_parameter trees) (compose_parameter trees) new_parameter p
  RoundTrips-parameter p good = RoundTrips-parts p.type p.content p.value_type good

  pub RoundTrips_parameters :
      (l : List Parameter)
      → All IsParameter l
      → AllRoundTrip trees laws (parse_parameter trees) (compose_parameter trees) new_parameter l
  RoundTrips_parameters [] h = refl
  RoundTrips_parameters (p ∷ l) h = (RoundTrips-parameter p h.0, RoundTrips_parameters l h.1)

  pub RoundTrips_texts :
      (l : List Text) → AllRoundTrip trees laws (parse_text trees) (compose_text trees) [] l
  RoundTrips_texts [] = refl
  RoundTrips_texts (s ∷ l) = (RoundTrips-text trees laws [] s, RoundTrips_texts l)
