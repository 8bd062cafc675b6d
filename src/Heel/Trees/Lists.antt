-- ===== src/Heel/Trees/Lists.antt =====
-- An element or a list that is read from a node is the one that was written, if each of its elements is.
use margot_project.Base.{
  true, false, List, [], ◌∷◌, ◌++◌, map, Option, none, some, ◌≡◌, refl, sym, ap, ◌∙◌, arith,
}
use margot_project.Heel.Names.{Text}
use margot_project.Heel.Trees.{
  PropertyTree, is_key, find, parse_text, compose_text, parse_element, parse_children, parse_list,
  push_nodes,
}
use margot_project.Heel.Trees.Writes.{
  IsLawful, leaf, nodes_of, Write, apply_all, are_distinct, read, or_else, or_else-none,
  find-written,
}

module _ (trees : PropertyTree) (laws : IsLawful trees) where
  module _ {T : Type 0} (parse : T → trees.Tree → Option T)
      (compose : T → trees.Tree → trees.Tree) where
    -- A new element that is parsed from the node that an element composes is another one, or the same.
    abbrev pub Reads : T → T → T → Type 0
    Reads element_model x y = parse element_model (compose x trees.empty) ≡ some y

    abbrev pub AllRead : T → List T → List T → Type 0
    AllRead element_model [] [] = element_model ≡ element_model
    AllRead element_model (x ∷ xs) (y ∷ ys) = Reads element_model x y × AllRead element_model xs ys
    AllRead element_model _ _ = true ≡ false

    abbrev pub RoundTrips : T → T → Type 0
    RoundTrips element_model x = Reads element_model x x

    abbrev pub AllRoundTrip : T → List T → Type 0
    AllRoundTrip element_model xs = AllRead element_model xs xs

    abbrev pub nodes : List T → List trees.Tree
    nodes xs = map (λ x. compose x trees.empty) xs

    append_snoc : {A : Type 0} (l m : List A) (x : A) → (l ++ (x ∷ [])) ++ m ≡ l ++ (x ∷ m)
    append_snoc [] m x = refl
    append_snoc (y ∷ l) m x = ap (λ r. y ∷ r) (append_snoc l m x)

    append_nil : {A : Type 0} (l : List A) → l ++ [] ≡ l
    append_nil [] = refl
    append_nil (y ∷ l) = ap (λ r. y ∷ r) (append_nil l)

    children-push_nodes :
        (ns : List trees.Tree) (t : trees.Tree)
        → trees.children (push_nodes trees ns t) ≡ trees.children t ++ map (λ n. ([], n)) ns
    unfolding push_nodes
    children-push_nodes [] t = sym (append_nil _)
    children-push_nodes (n ∷ ns) t =
        children-push_nodes ns (trees.push_back [] n t)
        ∙ ap (λ l. l ++ map (λ n. ([], n)) ns) (laws.children_push [] n t)
        ∙ append_snoc (trees.children t) _ _

    parse_children_lem :
        (element_model : T) (models xs ys : List T)
        → AllRead element_model xs ys
        → parse_children trees parse element_model models (map (λ n. ([], n)) (nodes xs))
          ≡ some (models ++ ys)
    unfolding parse_children
    parse_children_lem element_model models [] [] h = ap some (sym (append_nil models))
    parse_children_lem element_model models [] (y ∷ ys) h = absurd (ground (arith, h))
    parse_children_lem element_model models (x ∷ xs) [] h = absurd (ground (arith, h))
    parse_children_lem element_model models (x ∷ xs) (y ∷ ys) h =
        rw (h.0, parse_children)
          (parse_children_lem element_model (models ++ (y ∷ [])) xs ys h.1
            ∙ ap some (append_snoc models ys y))

    -- A list that a node has under a path is read as what its elements are read as.
    pub parse_list_path :
        (element_model : T) (xs ys : List T) (node : trees.Tree) (tag : Text)
        → trees.get_child_optional node tag ≡ nodes_of trees (nodes xs)
        → AllRead element_model xs ys
        → parse_list trees parse element_model [] node tag ≡ some ys
    unfolding parse_list
    parse_list_path element_model [] [] node tag found h = rw (found, parse_list) refl
    parse_list_path element_model [] (y ∷ ys) node tag found h = absurd (ground (arith, h))
    parse_list_path element_model (x ∷ xs) ys node tag found h =
        rw (found, parse_list)
          (ap (parse_children trees parse element_model []) (
              children-push_nodes (nodes (x ∷ xs)) trees.empty
              ∙ ap (λ l. l ++ map (λ n. ([], n)) (nodes (x ∷ xs))) laws.children_empty)
            ∙ parse_children_lem element_model [] (x ∷ xs) ys h)

  -- A text that a node has under a key is read back.
  pub parse_element_lem :
      (value v : Text) (node : trees.Tree) (tag : Text)
      → is_key tag ≡ true
      → find trees tag (trees.children node) ≡ some (leaf trees v)
      → parse_element trees (parse_text trees) value node tag ≡ some v
  unfolding parse_element parse_text
  parse_element_lem value v node tag good found =
      rw (laws.get_key tag node good ∙ found, parse_element) (ap some (laws.data_set v trees.empty))

  pub RoundTrips-text : (d s : Text) → RoundTrips (parse_text trees) (compose_text trees) d s
  unfolding parse_text compose_text
  RoundTrips-text d s = ap some (laws.data_set s trees.empty)

  -- The same for a node that a sequence of writes makes
  module _ (ws : List (Write trees)) (good : are_distinct trees ws ≡ true) where
    abbrev pub written : trees.Tree
    written = apply_all trees ws trees.empty

    pub parse_written :
        (value v : Text) (tag : Text)
        → is_key tag ≡ true
        → read trees tag ws ≡ some (leaf trees v)
        → parse_element trees (parse_text trees) value written tag ≡ some v
    parse_written value v tag keyed found =
        parse_element_lem value v written tag keyed (find-written trees laws tag ws good ∙ found)

    pub parse_list-written :
        {T : Type 0} (parse : T → trees.Tree → Option T) (compose : T → trees.Tree → trees.Tree)
        → (element_model : T) (xs ys : List T) (tag : Text) → is_key tag ≡ true
        → read trees tag ws ≡ or_else (nodes_of trees (nodes parse compose xs)) none
        → AllRead parse compose element_model xs ys
        → parse_list trees parse element_model [] written tag ≡ some ys
    parse_list-written parse compose element_model xs ys tag keyed found h =
        parse_list_path parse compose element_model xs ys written tag
          (laws.get_key tag written keyed
            ∙ find-written trees laws tag ws good
            ∙ found
            ∙ or_else-none _)
          h
