-- ===== src/Heel/Models.antt =====
-- heel/include/heel/model_parameter.hpp, model_monitor.hpp, model_knob.hpp, model_metric.hpp, model_agora.hpp
-- and model_features.hpp: the parts of a description.
use margot_project.Base.{ℕ, Bool, List}
use margot_project.Heel.Names.{Text}

pub data ParameterTypes : Type 0 where
  immediate variable : ParameterTypes

pub record Parameter : Type 0 where
  pub type : ParameterTypes
  pub content : Text
  pub value_type : Text

pub record PairProperty : Type 0 where
  pub key : Text
  pub value : Text

pub record MonitorModel : Type 0 where
  pub name : Text
  pub type : Text
  pub requested_statistics : List Text
  pub initialization_parameters : List Parameter
  pub start_parameters : List Parameter
  pub stop_parameters : List Parameter

pub record KnobModel : Type 0 where
  pub name : Text
  pub type : Text
  pub values : List Text

pub record MetricModel : Type 0 where
  pub name : Text
  pub type : Text
  pub distribution : Bool
  pub prediction_plugin : Text
  pub monitor_name : Text
  pub inertia : ℕ
  pub prediction_parameters : List PairProperty

pub record AgoraModel : Type 0 where
  pub url : Text
  pub username : Text
  pub password : Text
  pub qos : Text
  pub broker_ca : Text
  pub client_cert : Text
  pub client_key : Text
  pub number_configurations_per_iteration : Text
  pub number_observations_per_configuration : Text
  pub max_number_iteration : Text
  pub doe_plugin : Text
  pub clustering_plugin : Text
  pub doe_parameters : List PairProperty
  pub clustering_parameters : List PairProperty

pub data DistanceComparisonType : Type 0 where
  less_or_equal greater_or_equal dont_care : DistanceComparisonType

pub record FeatureModel : Type 0 where
  pub name : Text
  pub type : Text
  pub comparison : DistanceComparisonType
