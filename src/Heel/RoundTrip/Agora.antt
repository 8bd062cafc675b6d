-- ===== src/Heel/RoundTrip/Agora.antt =====
-- The settings of agora are read back from the tree that they compose.
use margot_project.Base.{List, [], ◌∷◌, refl}
use margot_project.Heel.Names.{same_text}
use margot_project.Heel.Models.{AgoraModel}
use margot_project.Heel.Trees.{PropertyTree, codes, add_list}
use margot_project.Heel.Trees.Writes.{IsLawful, Write, leaf_at, list_at}
use margot_project.Heel.Trees.Lists.{RoundTrips, nodes, parse_written, parse_list-written}
use margot_project.Heel.Composers.{compose_pair, compose_agora, compose_connection}
use margot_project.Heel.Parsers.{new_pair, parse_pair, parse_agora}
use margot_project.Heel.RoundTrip.{IsPair, All, new_agora, RoundTrips_pairs}

module _ (trees : PropertyTree) (laws : IsLawful trees) where
  abbrev agora_writes : AgoraModel → List (Write trees)
  agora_writes a =
      leaf_at (codes "broker_url") a.url
      ∷ leaf_at (codes "broker_username") a.username
      ∷ leaf_at (codes "broker_password") a.password
      ∷ leaf_at (codes "broker_qos") a.qos
      ∷ leaf_at (codes "broker_ca") a.broker_ca
      ∷ leaf_at (codes "client_cert") a.client_cert
      ∷ leaf_at (codes "client_key") a.client_key
      ∷ leaf_at (codes "number_configurations_per_iteration") a.number_configurations_per_iteration
      ∷ leaf_at (codes "number_observations_per_configuration")
          a.number_observations_per_configuration
      ∷ leaf_at (codes "max_number_iteration") a.max_number_iteration
      ∷ leaf_at (codes "doe_plugin") a.doe_plugin
      ∷ leaf_at (codes "clustering_plugin") a.clustering_plugin
      ∷ list_at (codes "doe_parameters")
          (nodes trees laws (parse_pair trees) (compose_pair trees) a.doe_parameters)
      ∷ list_at (codes "clustering_parameters")
          (nodes trees laws (parse_pair trees) (compose_pair trees) a.clustering_parameters)
      ∷ []

  -- Settings whose parameters can be written
  abbrev pub IsAgora : AgoraModel → Type 0
  IsAgora a = All IsPair a.doe_parameters × All IsPair a.clustering_parameters

  pub RoundTrips-agora :
      (a : AgoraModel)
      → IsAgora a
      → RoundTrips trees laws (parse_agora trees) (compose_agora trees) new_agora a
  unfolding compose_agora compose_connection add_list same_text parse_agora
  RoundTrips-agora a h =
      let text = parse_written trees laws (agora_writes a) refl [] in
      let pairs =
        parse_list-written trees laws (agora_writes a) refl (parse_pair trees) (compose_pair trees)
          new_pair in
      rw
        (
          text a.url (codes "broker_url") refl refl,
          text a.username (codes "broker_username") refl refl,
          text a.password (codes "broker_password") refl refl,
          text a.qos (codes "broker_qos") refl refl,
          text a.broker_ca (codes "broker_ca") refl refl,
          text a.client_cert (codes "client_cert") refl refl,
          text a.client_key (codes "client_key") refl refl,
          text a.doe_plugin (codes "doe_plugin") refl refl,
          text a.clustering_plugin (codes "clustering_plugin") refl refl,
          text a.number_configurations_per_iteration (codes "number_configurations_per_iteration")
              refl refl,
          text a.number_observations_per_configuration
              (codes "number_observations_per_configuration") refl refl,
          text a.max_number_iteration (codes "max_number_iteration") refl refl,
          pairs a.doe_parameters a.doe_parameters (codes "doe_parameters") refl refl
              (RoundTrips_pairs trees laws a.doe_parameters h.0),
          pairs a.clustering_parameters a.clustering_parameters (codes "clustering_parameters") refl
              refl (RoundTrips_pairs trees laws a.clustering_parameters h.1),
        )
        refl
