-- ===== src/Heel/Parsers.antt =====
-- heel/src/parser_*.cpp: the parts of a description that are read from a property tree. The first argument of
-- a parser is the model that it fills; `none` is an exception.
use margot_project.Base.{
  ℕ, Bool, true, false, ◌++◌, if◌then◌else◌, List, [], ◌∷◌, map, is_empty, Option, none, some,
  ◌>>=◌,
}
use margot_project.Heel.Names.{Text}
use margot_project.Heel.Models.{
  Parameter, immediate, variable, PairProperty, MonitorModel, KnobModel, MetricModel, AgoraModel,
  DistanceComparisonType, less_or_equal, greater_or_equal, dont_care, FeatureModel,
}
use margot_project.Heel.Trees.{
  PropertyTree, codes, parse_text, parse_element, parse_list, is_enum, is_bool,
}
use margot_project.Heel.Composers.{comparison_text}

-- New elements; an enumeration or a number that is not set is what stands in the memory.
abbrev pub new_parameter : Parameter
new_parameter = record { type = immediate; content = []; value_type = [] }

abbrev pub new_pair : PairProperty
new_pair = record { key = []; value = [] }

-- The inertia of a metric: the conversion from a text throws on what is no number.
unfoldable pub parse_inertia : (Text → Option ℕ) → Text → Option ℕ
parse_inertia lexical_cast [] = some 0
parse_inertia lexical_cast (c ∷ s) = lexical_cast (c ∷ s)

-- The distribution of a metric, which is not stated, yes, no, or not understood
unfoldable pub parse_distribution : (ℕ → ℕ) → Text → Option Bool
parse_distribution to_lower s =
    if is_empty s
    then some false
    else if is_bool to_lower s true
    then some true
    else if is_bool to_lower s false
    then some false
    else none

-- The comparison of a feature
unfoldable pub parse_comparison : (ℕ → ℕ) → Text → Option DistanceComparisonType
parse_comparison to_lower s =
    if is_enum to_lower s (comparison_text less_or_equal)
    then some less_or_equal
    else if is_enum to_lower s (comparison_text greater_or_equal)
    then some greater_or_equal
    else if is_enum to_lower s (comparison_text dont_care)
    then some dont_care
    else if is_empty s
    then some dont_care
    else none

module _ (trees : PropertyTree) where
  -- The loops over the children of a node, of which the last one stays
  unfoldable pub last_parameter : Parameter → List (Text × trees.Tree) → Parameter
  last_parameter parameter [] = parameter
  last_parameter parameter (pair ∷ rest) =
      last_parameter (record parameter { content = pair.0; value_type = trees.get_data pair.1 })
        rest

  unfoldable pub last_pair : PairProperty → List (Text × trees.Tree) → PairProperty
  last_pair property [] = property
  last_pair property (pair ∷ rest) =
      last_pair (record property { key = pair.0; value = trees.get_data pair.1 }) rest

  -- `parse(parameter, parameter_node)`
  unfoldable pub parse_parameter : Parameter → trees.Tree → Option Parameter
  parse_parameter parameter node =
      let read = record parameter { type = immediate; content = trees.get_data node } in
      some (
        if is_empty (trees.get_data node)
        then record (last_parameter read (trees.children node)) { type = variable }
        else read)

  -- `parse(property, property_node)`
  unfoldable pub parse_pair : PairProperty → trees.Tree → Option PairProperty
  parse_pair property node = some (last_pair property (trees.children node))

  -- `parse_element` and `parse_list` of texts, parameters and pairs
  abbrev pub text_of : Text → trees.Tree → Text → Option Text
  text_of value node tag = parse_element trees (parse_text trees) value node tag

  abbrev pub texts_of : List Text → trees.Tree → Text → Option (List Text)
  texts_of values node tag = parse_list trees (parse_text trees) [] values node tag

  abbrev pub parameters_of : List Parameter → trees.Tree → Text → Option (List Parameter)
  parameters_of values node tag = parse_list trees parse_parameter new_parameter values node tag

  abbrev pub pairs_of : List PairProperty → trees.Tree → Text → Option (List PairProperty)
  pairs_of values node tag = parse_list trees parse_pair new_pair values node tag

  -- `parse(monitor, monitor_node)`
  unfoldable pub parse_monitor : MonitorModel → trees.Tree → Option MonitorModel
  parse_monitor monitor node = do
    name ← text_of monitor.name node (codes "name")
    type ← text_of monitor.type node (codes "type")
    statistics ← texts_of monitor.requested_statistics node (codes "log")
    constructor ← parameters_of monitor.initialization_parameters node (codes "constructor")
    start ← parameters_of monitor.start_parameters node (codes "start")
    stop ← parameters_of monitor.stop_parameters node (codes "stop")
    some (record {
      name = name;
      type = type;
      requested_statistics = statistics;
      initialization_parameters = constructor;
      start_parameters = start;
      stop_parameters = stop;
    })

  -- `compute_range(values, range_node, value_type)`. The loop over the numbers of a type, with the
  -- conversions from and to texts, is an argument.
  unfoldable pub compute_range :
      (Text → Text → Text → Text → Option (List Text))
      → List Text
      → trees.Tree
      → Text
      → Option (List Text)
  compute_range generate values range_node value_type =
      elim (values ++ map (λ pair. trees.get_data pair.1) (trees.children range_node)) [
        | [] ↦ none
        | min ∷ rest ↦ elim rest [
          | [] ↦ none
          | max ∷ others ↦ elim others [
            | [] ↦ generate value_type min max (codes "1")
            | step ∷ more ↦ generate value_type min max step
          ]
        ]
      ]

  -- The range of a knob that has no values
  unfoldable pub parse_range :
      (Text → Text → Text → Text → Option (List Text))
      → List Text
      → trees.Tree
      → Text
      → Option (List Text)
  parse_range generate [] node type = elim (trees.get_child_optional node (codes "range")) [
    | none ↦ some []
    | some range_node ↦ compute_range generate [] range_node type
  ]
  parse_range generate (v ∷ values) node type = some (v ∷ values)

  -- `parse(knob, knob_node)`
  unfoldable pub parse_knob :
      (Text → Text → Text → Text → Option (List Text)) → KnobModel → trees.Tree → Option KnobModel
  parse_knob generate knob node = do
    name ← text_of knob.name node (codes "name")
    type ← text_of knob.type node (codes "type")
    values ← texts_of knob.values node (codes "values")
    values' ← parse_range generate values node type
    some (record { name = name; type = type; values = values' })

  -- `parse(metric, metric_node)`
  unfoldable pub parse_metric :
      (Text → Option ℕ) → (ℕ → ℕ) → MetricModel → trees.Tree → Option MetricModel
  parse_metric lexical_cast to_lower metric node = do
    name ← text_of metric.name node (codes "name")
    type ← text_of metric.type node (codes "type")
    monitor_name ← text_of metric.monitor_name node (codes "observed_by")
    prediction_plugin ← text_of metric.prediction_plugin node (codes "prediction_plugin")
    parameters ← pairs_of metric.prediction_parameters node (codes "prediction_parameters")
    inertia_str ← text_of [] node (codes "reactive_inertia")
    inertia ← parse_inertia lexical_cast inertia_str
    distribution_str ← text_of [] node (codes "distribution")
    distribution ← parse_distribution to_lower distribution_str
    some (record {
      name = name;
      type = type;
      distribution = distribution;
      prediction_plugin = prediction_plugin;
      monitor_name = monitor_name;
      inertia = inertia;
      prediction_parameters = parameters;
    })

  -- `parse(field, feature_node)`
  unfoldable pub parse_feature : (ℕ → ℕ) → FeatureModel → trees.Tree → Option FeatureModel
  parse_feature to_lower field node = do
    name ← text_of field.name node (codes "name")
    type ← text_of field.type node (codes "type")
    comparison_fun ← text_of [] node (codes "comparison")
    comparison ← parse_comparison to_lower comparison_fun
    some (record { name = name; type = type; comparison = comparison })

  -- `parse(agora, agora_node)`
  unfoldable pub parse_agora : AgoraModel → trees.Tree → Option AgoraModel
  parse_agora agora node = do
    url ← text_of agora.url node (codes "broker_url")
    username ← text_of agora.username node (codes "broker_username")
    password ← text_of agora.password node (codes "broker_password")
    qos ← text_of agora.qos node (codes "broker_qos")
    broker_ca ← text_of agora.broker_ca node (codes "broker_ca")
    client_cert ← text_of agora.client_cert node (codes "client_cert")
    client_key ← text_of agora.client_key node (codes "client_key")
    doe_plugin ← text_of agora.doe_plugin node (codes "doe_plugin")
    clustering_plugin ← text_of agora.clustering_plugin node (codes "clustering_plugin")
    configurations ←
        text_of agora.number_configurations_per_iteration node
          (codes "number_configurations_per_iteration")
    observations ←
        text_of agora.number_observations_per_configuration node
          (codes "number_observations_per_configuration")
    iterations ← text_of agora.max_number_iteration node (codes "max_number_iteration")
    doe_parameters ← pairs_of agora.doe_parameters node (codes "doe_parameters")
    clustering_parameters ←
        pairs_of agora.clustering_parameters node (codes "clustering_parameters")
    some (record {
      url = url;
      username = username;
      password = password;
      qos = qos;
      broker_ca = broker_ca;
      client_cert = client_cert;
      client_key = client_key;
      number_configurations_per_iteration = configurations;
      number_observations_per_configuration = observations;
      max_number_iteration = iterations;
      doe_plugin = doe_plugin;
      clustering_plugin = clustering_plugin;
      doe_parameters = doe_parameters;
      clustering_parameters = clustering_parameters;
    })
