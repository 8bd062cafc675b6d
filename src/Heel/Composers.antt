-- ===== src/Heel/Composers.antt =====
-- heel/src/composer_*.cpp: the property trees of the parts of a description.
use margot_project.Base.{ℕ, Bool, []}
use margot_project.Heel.Names.{Text}
use margot_project.Heel.Models.{
  Parameter, immediate, variable, PairProperty, MonitorModel, KnobModel, MetricModel, AgoraModel,
  DistanceComparisonType, less_or_equal, greater_or_equal, dont_care, FeatureModel,
}
use margot_project.Heel.Trees.{PropertyTree, codes, compose_text, add_list}

-- `to_str(distance_comparison_type)`
unfoldable pub comparison_text : DistanceComparisonType → Text
comparison_text less_or_equal = codes "le"
comparison_text greater_or_equal = codes "ge"
comparison_text dont_care = codes "-"

module _ (trees : PropertyTree) where
  -- `compose(parameter_node, parameter)`; an unknown type is none of the enumeration.
  unfoldable pub compose_parameter : Parameter → trees.Tree → trees.Tree
  compose_parameter parameter node = elim parameter.type [
    | immediate ↦ trees.put [] parameter.content node
    | variable ↦ trees.put parameter.content parameter.value_type node
  ]

  -- `compose(property_node, property)`
  unfoldable pub compose_pair : PairProperty → trees.Tree → trees.Tree
  compose_pair property node = trees.put property.key property.value node

  -- `compose(monitor_node, monitor)`
  unfoldable pub compose_monitor : MonitorModel → trees.Tree → trees.Tree
  compose_monitor monitor node =
      let named = trees.put (codes "name") monitor.name node in
      let typed = trees.put (codes "type") monitor.type named in
      let logged =
        add_list trees (compose_text trees) monitor.requested_statistics (codes "log") typed in
      let constructed =
        add_list trees compose_parameter monitor.initialization_parameters (codes "constructor")
          logged in
      let started =
        add_list trees compose_parameter monitor.start_parameters (codes "start") constructed in
      add_list trees compose_parameter monitor.stop_parameters (codes "stop") started

  -- `compose(knob_node, knob)`
  unfoldable pub compose_knob : KnobModel → trees.Tree → trees.Tree
  compose_knob knob node =
      let named = trees.put (codes "name") knob.name node in
      let typed = trees.put (codes "type") knob.type named in
      add_list trees (compose_text trees) knob.values (codes "values") typed

  -- `compose(metric_node, metric)`; how the library prints a Boolean and a size is an argument.
  unfoldable pub compose_metric : (Bool → Text) → (ℕ → Text) → MetricModel → trees.Tree → trees.Tree
  compose_metric bool_text size_text metric node =
      let named = trees.put (codes "name") metric.name node in
      let typed = trees.put (codes "type") metric.type named in
      let distributed = trees.put (codes "distribution") (bool_text metric.distribution) typed in
      let predicted = trees.put (codes "prediction_plugin") metric.prediction_plugin distributed in
      let observed = trees.put (codes "observed_by") metric.monitor_name predicted in
      let reactive = trees.put (codes "reactive_inertia") (size_text metric.inertia) observed in
      add_list trees compose_pair metric.prediction_parameters (codes "prediction_parameters")
        reactive

  -- `compose(field_node, field)`
  unfoldable pub compose_feature : FeatureModel → trees.Tree → trees.Tree
  compose_feature field node =
      let named = trees.put (codes "name") field.name node in
      let typed = trees.put (codes "type") field.type named in
      trees.put (codes "comparison") (comparison_text field.comparison) typed

  -- `compose(agora_node, agora)`: the connection, the settings of the exploration and the plugins
  unfoldable pub compose_connection : AgoraModel → trees.Tree → trees.Tree
  compose_connection agora node =
      let with_url = trees.put (codes "broker_url") agora.url node in
      let with_username = trees.put (codes "broker_username") agora.username with_url in
      let with_password = trees.put (codes "broker_password") agora.password with_username in
      let with_qos = trees.put (codes "broker_qos") agora.qos with_password in
      let with_ca = trees.put (codes "broker_ca") agora.broker_ca with_qos in
      let with_cert = trees.put (codes "client_cert") agora.client_cert with_ca in
      trees.put (codes "client_key") agora.client_key with_cert

  unfoldable pub compose_agora : AgoraModel → trees.Tree → trees.Tree
  compose_agora agora node =
      let connected = compose_connection agora node in
      let n1 =
        trees.put (codes "number_configurations_per_iteration")
          agora.number_configurations_per_iteration connected in
      let n2 =
        trees.put (codes "number_observations_per_configuration")
          agora.number_observations_per_configuration n1 in
      let n3 = trees.put (codes "max_number_iteration") agora.max_number_iteration n2 in
      let n4 = trees.put (codes "doe_plugin") agora.doe_plugin n3 in
      let n5 = trees.put (codes "clustering_plugin") agora.clustering_plugin n4 in
      let n6 = add_list trees compose_pair agora.doe_parameters (codes "doe_parameters") n5 in
      add_list trees compose_pair agora.clustering_parameters (codes "clustering_parameters") n6
