-- ===== src/Heel/StateTrees/Ranks.antt =====
-- What is read back from the tree of a rank.
use margot_project.Base.{true, List, [], ◌∷◌, ◌++◌, map, Option, some, ◌≡◌, refl, ap, ◌∙◌, ◌>>=◌}
use margot_project.Heel.Names.{Text, same_text}
use margot_project.Heel.States.{
  RankDirection, minimize, maximize, RankType, geometric, linear, SubjectKind, RankFieldModel,
}
use margot_project.Heel.Trees.{PropertyTree, codes, is_key, find, parse_list}
use margot_project.Heel.Trees.Writes.{IsLawful, Write, list_at, are_distinct, read, find-written}
use margot_project.Heel.Trees.Lists.{nodes, written, parse_list_path}
use margot_project.Heel.RoundTrip.{All}
use margot_project.Heel.StateTrees.{
  direction_text, type_text, compose_rank_field, parse_rank_field, new_rank_field, parse_ranks,
}
use margot_project.Heel.StateTrees.Elements.{read_rank_field, IsRankField, AllRead-rank_fields}

abbrev pub guesses : List (RankDirection × RankType)
guesses =
    (minimize, geometric) ∷ (minimize, linear) ∷ (maximize, geometric) ∷ (maximize, linear) ∷ []

module _ (trees : PropertyTree) (laws : IsLawful trees) where
  -- The node of a rank, under the tag of its combination
  abbrev pub rank_writes : Text → List RankFieldModel → List (Write trees)
  rank_writes tag fields =
      list_at tag (nodes trees laws (parse_rank_field trees) (compose_rank_field trees) fields) ∷ []

  module _ (kind : SubjectKind) (f : RankFieldModel) (fs : List RankFieldModel)
      (h : All IsRankField (f ∷ fs)) (node : trees.Tree) where
    abbrev pub HasRank : trees.Tree → Type 0
    HasRank n = find trees (codes "minimize") (trees.children node) ≡ some n

    get_guess :
        (tag key : Text) (good : are_distinct trees (rank_writes tag (f ∷ fs)) ≡ true)
        → is_key key ≡ true
        → HasRank (written trees laws (rank_writes tag (f ∷ fs)) good)
        → trees.get_child_optional node (codes "minimize" ++ (46 ∷ key))
          ≡ read trees key (rank_writes tag (f ∷ fs))
    get_guess tag key good keyed found =
        laws.get_path (codes "minimize") key node refl keyed
        ∙ ap (λ o. o >>= λ c. find trees key (trees.children c)) found
        ∙ find-written trees laws key (rank_writes tag (f ∷ fs)) good

    abbrev fields_at : Text → Option (List RankFieldModel)
    fields_at key =
        parse_list trees (parse_rank_field trees) (new_rank_field trees kind) [] node
          (codes "minimize" ++ (46 ∷ key))

    pub parse_ranks_geometric :
        HasRank (written trees laws (rank_writes (codes "geometric_mean") (f ∷ fs)) refl)
        → parse_ranks trees kind guesses [] node
          ≡ some (map (read_rank_field kind) (f ∷ fs), minimize, geometric)
    unfolding parse_ranks direction_text type_text same_text
    parse_ranks_geometric found =
        let geometric_fields : fields_at (codes "geometric_mean")
            ≡ some (map (read_rank_field kind) (f ∷ fs)) =
          parse_list_path trees laws (parse_rank_field trees) (compose_rank_field trees)
            (new_rank_field trees kind) (f ∷ fs) (map (read_rank_field kind) (f ∷ fs)) node
            (codes "minimize" ++ (46 ∷ codes "geometric_mean"))
            (get_guess (codes "geometric_mean") (codes "geometric_mean") refl refl found)
            (AllRead-rank_fields trees laws kind (f ∷ fs) h) in
        rw geometric_fields refl

    pub parse_ranks_linear :
        HasRank (written trees laws (rank_writes (codes "linear_mean") (f ∷ fs)) refl)
        → parse_ranks trees kind guesses [] node
          ≡ some (map (read_rank_field kind) (f ∷ fs), minimize, linear)
    unfolding parse_ranks direction_text type_text same_text
    parse_ranks_linear found =
        let geometric_fields : fields_at (codes "geometric_mean") ≡ some [] =
          parse_list_path trees laws (parse_rank_field trees) (compose_rank_field trees)
            (new_rank_field trees kind) [] [] node
            (codes "minimize" ++ (46 ∷ codes "geometric_mean"))
            (get_guess (codes "linear_mean") (codes "geometric_mean") refl refl found) refl in
        let linear_fields : fields_at (codes "linear_mean")
            ≡ some (map (read_rank_field kind) (f ∷ fs)) =
          parse_list_path trees laws (parse_rank_field trees) (compose_rank_field trees)
            (new_rank_field trees kind) (f ∷ fs) (map (read_rank_field kind) (f ∷ fs)) node
            (codes "minimize" ++ (46 ∷ codes "linear_mean"))
            (get_guess (codes "linear_mean") (codes "linear_mean") refl refl found)
            (AllRead-rank_fields trees laws kind (f ∷ fs) h) in
        rw (geometric_fields, linear_fields) refl
