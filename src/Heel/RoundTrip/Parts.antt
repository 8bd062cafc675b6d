-- ===== src/Heel/RoundTrip/Parts.antt =====
-- Each part of a description is read back from the tree that it composes.
use margot_project.Base.{ℕ, Bool, List, [], ◌∷◌, Option, none, some, ◌≡◌, refl, ◌∙◌}
use margot_project.Heel.Names.{Text, same_text}
use margot_project.Heel.Models.{
  Parameter, MonitorModel, KnobModel, MetricModel, AgoraModel, DistanceComparisonType, FeatureModel,
}
use margot_project.Heel.Trees.{PropertyTree, codes, parse_text, compose_text, add_list}
use margot_project.Heel.Trees.Writes.{IsLawful, Write, leaf_at, list_at, find-written}
use margot_project.Heel.Trees.Lists.{RoundTrips, nodes, written, parse_written, parse_list-written}
use margot_project.Heel.Composers.{
  compose_parameter, compose_monitor, compose_knob, compose_metric, compose_feature, compose_agora,
}
use margot_project.Heel.Parsers.{
  new_parameter, parse_parameter, parse_monitor, parse_knob, parse_metric, parse_feature,
  parse_agora, parse_range,
}
use margot_project.Heel.RoundTrip.{
  IsParameter, IsPair, All, new_knob, new_monitor, new_metric, new_feature, new_agora, Conversions,
  AreFaithful, RoundTrips_parameters, RoundTrips_texts,
}
use margot_project.Heel.RoundTrip.Converted.{RoundTrips-feature, RoundTrips-metric}
use margot_project.Heel.RoundTrip.Agora.{IsAgora, RoundTrips-agora}

module _ (trees : PropertyTree) (laws : IsLawful trees) where
  abbrev knob_writes : KnobModel → List (Write trees)
  knob_writes k =
      leaf_at (codes "name") k.name
      ∷ leaf_at (codes "type") k.type
      ∷ list_at (codes "values") (nodes trees laws (parse_text trees) (compose_text trees) k.values)
      ∷ []

  parse_range_lem :
      (generate : Text → Text → Text → Text → Option (List Text)) (values : List Text)
      → (node : trees.Tree) (type : Text) → trees.get_child_optional node (codes "range") ≡ none
      → parse_range trees generate values node type ≡ some values
  unfolding parse_range
  parse_range_lem generate [] node type absent = rw (absent, parse_range) refl
  parse_range_lem generate (v ∷ values) node type absent = refl

  RoundTrips-knob :
      (generate : Text → Text → Text → Text → Option (List Text)) (k : KnobModel)
      → RoundTrips trees laws (parse_knob trees generate) (compose_knob trees) new_knob k
  unfolding compose_knob add_list same_text parse_knob
  RoundTrips-knob generate k =
      let name = parse_written trees laws (knob_writes k) refl [] k.name (codes "name") refl refl in
      let type = parse_written trees laws (knob_writes k) refl [] k.type (codes "type") refl refl in
      let values =
        parse_list-written trees laws (knob_writes k) refl (parse_text trees) (compose_text trees)
          [] k.values k.values (codes "values") refl refl (RoundTrips_texts trees laws k.values) in
      let node = written trees laws (knob_writes k) refl in
      let absent : trees.get_child_optional node (codes "range") ≡ none =
        laws.get_key (codes "range") node refl
        ∙ find-written trees laws (codes "range") (knob_writes k) refl in
      rw (name, type, values, parse_range_lem generate k.values node k.type absent) refl

  -- A monitor whose parameters can be written
  abbrev pub IsMonitor : MonitorModel → Type 0
  IsMonitor m =
      All IsParameter m.initialization_parameters
      × All IsParameter m.start_parameters
      × All IsParameter m.stop_parameters

  abbrev parameter_nodes : List Parameter → List trees.Tree
  parameter_nodes l = nodes trees laws (parse_parameter trees) (compose_parameter trees) l

  abbrev monitor_writes : MonitorModel → List (Write trees)
  monitor_writes m =
      leaf_at (codes "name") m.name
      ∷ leaf_at (codes "type") m.type
      ∷ list_at (codes "log")
          (nodes trees laws (parse_text trees) (compose_text trees) m.requested_statistics)
      ∷ list_at (codes "constructor") (parameter_nodes m.initialization_parameters)
      ∷ list_at (codes "start") (parameter_nodes m.start_parameters)
      ∷ list_at (codes "stop") (parameter_nodes m.stop_parameters)
      ∷ []

  RoundTrips-monitor :
      (m : MonitorModel)
      → IsMonitor m
      → RoundTrips trees laws (parse_monitor trees) (compose_monitor trees) new_monitor m
  unfolding compose_monitor add_list same_text parse_monitor
  RoundTrips-monitor m h =
      let text = parse_written trees laws (monitor_writes m) refl [] in
      let parameters =
        parse_list-written trees laws (monitor_writes m) refl (parse_parameter trees)
          (compose_parameter trees) new_parameter in
      let name = text m.name (codes "name") refl refl in
      let type = text m.type (codes "type") refl refl in
      let logged =
        parse_list-written trees laws (monitor_writes m) refl (parse_text trees)
          (compose_text trees) [] m.requested_statistics m.requested_statistics (codes "log") refl
          refl (RoundTrips_texts trees laws m.requested_statistics) in
      let constructed =
        parameters m.initialization_parameters m.initialization_parameters (codes "constructor")
          refl refl (RoundTrips_parameters trees laws m.initialization_parameters h.0) in
      let started =
        parameters m.start_parameters m.start_parameters (codes "start") refl refl
          (RoundTrips_parameters trees laws m.start_parameters h.1) in
      let stopped =
        parameters m.stop_parameters m.stop_parameters (codes "stop") refl refl
          (RoundTrips_parameters trees laws m.stop_parameters h.2) in
      rw (name, type, logged, constructed, started, stopped) refl

  -- For trees that behave as documented and faithful conversions: a monitor whose parameters can be written,
  -- a knob, a metric and the settings of agora whose properties have keys, and a feature, composed and parsed
  -- into a new element, are read back as they were.
  pub parse_monitor-compose_monitor :
      (to : Conversions)
      → AreFaithful to
      → (generate : Text → Text → Text → Text → Option (List Text))
      → (b : Bool) (n : ℕ) (c : DistanceComparisonType)
      → (monitor : MonitorModel) (knob : KnobModel) (metric : MetricModel) (feature : FeatureModel)
      → (agora : AgoraModel) → IsMonitor monitor
      → All IsPair metric.prediction_parameters
      → IsAgora trees laws agora
      → (parse_monitor trees new_monitor (compose_monitor trees monitor trees.empty) ≡ some monitor)
        × (parse_knob trees generate new_knob (compose_knob trees knob trees.empty) ≡ some knob)
        × (parse_metric trees to.lexical_cast to.to_lower
              (new_metric b n)
              (compose_metric trees to.bool_text to.size_text metric trees.empty)
            ≡ some metric)
        × (parse_feature trees to.to_lower
              (new_feature c)
              (compose_feature trees feature trees.empty)
            ≡ some feature)
        × (parse_agora trees new_agora (compose_agora trees agora trees.empty) ≡ some agora)
  parse_monitor-compose_monitor to faithful generate b n c monitor knob metric feature agora h h'
        h'' =
      (
        RoundTrips-monitor monitor h,
        RoundTrips-knob generate knob,
        RoundTrips-metric trees laws to faithful b n metric h',
        RoundTrips-feature trees laws to faithful c feature,
        RoundTrips-agora trees laws agora h'',
      )
