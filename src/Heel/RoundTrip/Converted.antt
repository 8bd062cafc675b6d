-- ===== src/Heel/RoundTrip/Converted.antt =====
-- Metrics and features, which hold values that are no texts, are read back from the trees that they compose.
use margot_project.Base.{ℕ, Bool, List, [], ◌∷◌, refl}
use margot_project.Heel.Names.{same_text}
use margot_project.Heel.Models.{MetricModel, DistanceComparisonType, FeatureModel}
use margot_project.Heel.Trees.{PropertyTree, codes, add_list}
use margot_project.Heel.Trees.Writes.{IsLawful, Write, leaf_at, list_at}
use margot_project.Heel.Trees.Lists.{RoundTrips, nodes, parse_written, parse_list-written}
use margot_project.Heel.Composers.{compose_pair, compose_metric, compose_feature, comparison_text}
use margot_project.Heel.Parsers.{new_pair, parse_pair, parse_metric, parse_feature}
use margot_project.Heel.RoundTrip.{
  IsPair, All, new_metric, new_feature, Conversions, AreFaithful, RoundTrips_pairs,
  parse_comparison-comparison_text, parse_distribution-bool_text, parse_inertia-size_text,
}

module _ (trees : PropertyTree) (laws : IsLawful trees) where
  abbrev feature_writes : FeatureModel → List (Write trees)
  feature_writes f =
      leaf_at (codes "name") f.name
      ∷ leaf_at (codes "type") f.type
      ∷ leaf_at (codes "comparison") (comparison_text f.comparison)
      ∷ []

  pub RoundTrips-feature :
      (to : Conversions) (faithful : AreFaithful to) (c : DistanceComparisonType) (f : FeatureModel)
      → RoundTrips trees laws
          (parse_feature trees to.to_lower)
          (compose_feature trees)
          (new_feature c)
          f
  unfolding compose_feature same_text parse_feature
  RoundTrips-feature to faithful c f =
      let text = parse_written trees laws (feature_writes f) refl [] in
      let name = text f.name (codes "name") refl refl in
      let type = text f.type (codes "type") refl refl in
      let comparison = text (comparison_text f.comparison) (codes "comparison") refl refl in
      rw (name, type, comparison, parse_comparison-comparison_text to faithful f.comparison) refl

  abbrev metric_writes : Conversions → MetricModel → List (Write trees)
  metric_writes to m =
      leaf_at (codes "name") m.name
      ∷ leaf_at (codes "type") m.type
      ∷ leaf_at (codes "distribution") (to.bool_text m.distribution)
      ∷ leaf_at (codes "prediction_plugin") m.prediction_plugin
      ∷ leaf_at (codes "observed_by") m.monitor_name
      ∷ leaf_at (codes "reactive_inertia") (to.size_text m.inertia)
      ∷ list_at (codes "prediction_parameters")
          (nodes trees laws (parse_pair trees) (compose_pair trees) m.prediction_parameters)
      ∷ []

  pub RoundTrips-metric :
      (to : Conversions) (faithful : AreFaithful to) (b : Bool) (n : ℕ) (m : MetricModel)
      → All IsPair m.prediction_parameters
      → RoundTrips trees laws
          (parse_metric trees to.lexical_cast to.to_lower)
          (compose_metric trees to.bool_text to.size_text)
          (new_metric b n)
          m
  unfolding compose_metric add_list same_text parse_metric
  RoundTrips-metric to faithful b n m h =
      let text = parse_written trees laws (metric_writes to m) refl [] in
      let name = text m.name (codes "name") refl refl in
      let type = text m.type (codes "type") refl refl in
      let observed = text m.monitor_name (codes "observed_by") refl refl in
      let plugin = text m.prediction_plugin (codes "prediction_plugin") refl refl in
      let inertia = text (to.size_text m.inertia) (codes "reactive_inertia") refl refl in
      let distribution = text (to.bool_text m.distribution) (codes "distribution") refl refl in
      let parameters =
        parse_list-written trees laws (metric_writes to m) refl (parse_pair trees)
          (compose_pair trees) new_pair m.prediction_parameters m.prediction_parameters
          (codes "prediction_parameters") refl refl
          (RoundTrips_pairs trees laws m.prediction_parameters h) in
      rw
        (
          name,
          type,
          observed,
          plugin,
          parameters,
          inertia,
          parse_inertia-size_text to faithful m.inertia,
          distribution,
          parse_distribution-bool_text to faithful m.distribution,
        )
        refl
