-- ===== src/Heel/Trees/Writes.antt =====
-- What is read from a node after a sequence of writes under different keys.
use margot_project.Base.{
  ◌&&◌, Bool, true, false, not, if◌then◌else◌, List, [], ◌∷◌, ◌++◌, Option, none, some, ◌≡◌, refl,
  sym, ap, ap₂, ◌∙◌, Bool-cases, inl, inr, ◌>>=◌, arith,
}
use margot_project.Heel.Names.{Text, same_text}
use margot_project.Heel.Trees.{PropertyTree, is_key, find, add_nodes, push_nodes}

-- What the documentation of the library says of a node: a key that a node does not have is put behind the
-- others, with a leaf, and the first child of a key is found.
pub record IsLawful (trees : PropertyTree) : Type 0 where
  pub children_empty : trees.children trees.empty ≡ []
  pub data_empty : trees.get_data trees.empty ≡ []
  pub data_set : (v : Text) (t : trees.Tree) → trees.get_data (trees.put [] v t) ≡ v
  pub children_put :
      (k v : Text) (t : trees.Tree)
      → is_key k ≡ true
      → find trees k (trees.children t) ≡ none
      → trees.children (trees.put k v t)
        ≡ trees.children t ++ ((k, trees.put [] v trees.empty) ∷ [])
  pub data_put :
      (k v : Text) (t : trees.Tree)
      → is_key k ≡ true
      → trees.get_data (trees.put k v t) ≡ trees.get_data t
  pub children_push :
      (k : Text) (c t : trees.Tree)
      → trees.children (trees.push_back k c t) ≡ trees.children t ++ ((k, c) ∷ [])
  pub children_add :
      (k : Text) (c t : trees.Tree)
      → is_key k ≡ true
      → trees.children (trees.add_child k c t) ≡ trees.children t ++ ((k, c) ∷ [])
  pub get_key :
      (k : Text) (t : trees.Tree)
      → is_key k ≡ true
      → trees.get_child_optional t k ≡ find trees k (trees.children t)
  pub get_path :
      (k l : Text) (t : trees.Tree)
      → is_key k ≡ true
      → is_key l ≡ true
      → trees.get_child_optional t (k ++ (46 ∷ l))
        ≡ find trees k (trees.children t) >>= λ c. find trees l (trees.children c)

module _ {A : Type 0} where
  abbrev pub or_else : Option A → Option A → Option A
  or_else none p = p
  or_else (some x) p = some x

  pub or_else-none : (o : Option A) → or_else o none ≡ o
  or_else-none none = refl
  or_else-none (some x) = refl

  or_else_assoc : (o p q : Option A) → or_else (or_else o p) q ≡ or_else o (or_else p q)
  or_else_assoc none p q = refl
  or_else_assoc (some x) p q = refl

  abbrev nothing : Option A
  nothing = none

  if_none : (b : Bool) → (if b then nothing else nothing) ≡ nothing
  if_none true = refl
  if_none false = refl

and_true : (a b : Bool) → (a && b) ≡ true → (a ≡ true) × (b ≡ true)
and_true true b e = (refl, e)
and_true false b e = absurd (ground (arith, e))

of_not : (b : Bool) → not b ≡ true → b ≡ false
of_not true e = absurd (ground (arith, e))
of_not false e = refl

module _ (trees : PropertyTree) where
  abbrev pub leaf : Text → trees.Tree
  leaf v = trees.put [] v trees.empty

  -- The writes of the composers: `put` of a value, `add_list` of the nodes of some elements and `add_child`
  pub data Write : Type 0 where
    leaf_at : (key value : Text) → Write
    list_at : (key : Text) (nodes : List trees.Tree) → Write
    node_at : (key : Text) (node : trees.Tree) → Write

  abbrev pub key_of : Write → Text
  key_of (leaf_at key value) = key
  key_of (list_at key nodes) = key
  key_of (node_at key node) = key

  abbrev pub nodes_of : List trees.Tree → Option trees.Tree
  nodes_of [] = none
  nodes_of (node ∷ nodes) = some (push_nodes trees (node ∷ nodes) trees.empty)

  abbrev pub value_of : Write → Option trees.Tree
  value_of (leaf_at key value) = some (leaf value)
  value_of (list_at key nodes) = nodes_of nodes
  value_of (node_at key node) = some node

  abbrev pub apply : Write → trees.Tree → trees.Tree
  apply (leaf_at key value) t = trees.put key value t
  apply (list_at key nodes) t = add_nodes trees nodes key t
  apply (node_at key node) t = trees.add_child key node t

  abbrev pub apply_all : List Write → trees.Tree → trees.Tree
  apply_all [] t = t
  apply_all (w ∷ ws) t = apply_all ws (apply w t)

  -- What is read under a key
  abbrev pub read : Text → List Write → Option trees.Tree
  read k [] = none
  read k (w ∷ ws) = or_else (if same_text (key_of w) k then value_of w else none) (read k ws)

  abbrev pub lacks : Text → List Write → Bool
  lacks k [] = true
  lacks k (w ∷ ws) = not (same_text k (key_of w)) && lacks k ws

  -- All keys are keys, and different.
  abbrev pub are_distinct : List Write → Bool
  are_distinct [] = true
  are_distinct (w ∷ ws) = is_key (key_of w) && (lacks (key_of w) ws && are_distinct ws)

  abbrev IsFresh : List Write → trees.Tree → Type 0
  IsFresh [] t = trees.children t ≡ trees.children t
  IsFresh (w ∷ ws) t = (find trees (key_of w) (trees.children t) ≡ none) × IsFresh ws t

  find-append :
      (k : Text) (l m : List (Text × trees.Tree))
      → find trees k (l ++ m) ≡ or_else (find trees k l) (find trees k m)
  unfolding find
  find-append k [] m = refl
  find-append k (x ∷ l) m = elim (Bool-cases (same_text x.0 k)) [
    | inl e ↦ rw (e, find) refl
    | inr e ↦ rw (e, find) (find-append k l m)
  ]

  module _ (laws : IsLawful trees) where
    find-apply :
        (k : Text) (w : Write) (t : trees.Tree)
        → is_key (key_of w) ≡ true
        → find trees (key_of w) (trees.children t) ≡ none
        → find trees k (trees.children (apply w t))
          ≡ or_else
              (find trees k (trees.children t))
              (if same_text (key_of w) k then value_of w else none)
    unfolding find add_nodes
    find-apply k (leaf_at key value) t good fresh =
        ap (find trees k) (laws.children_put key value t good fresh)
        ∙ find-append k (trees.children t) ((key, leaf value) ∷ [])
    find-apply k (list_at key []) t good fresh =
        sym (or_else-none _) ∙ ap (or_else (find trees k (trees.children t))) (sym (if_none _))
    find-apply k (list_at key (node ∷ nodes)) t good fresh =
        ap (find trees k) (laws.children_add key _ t good) ∙ find-append k (trees.children t) _
    find-apply k (node_at key node) t good fresh =
        ap (find trees k) (laws.children_add key node t good)
        ∙ find-append k (trees.children t) ((key, node) ∷ [])

    IsFresh-apply :
        (w : Write) (ws : List Write) (t : trees.Tree)
        → is_key (key_of w) ≡ true
        → find trees (key_of w) (trees.children t) ≡ none
        → lacks (key_of w) ws ≡ true
        → IsFresh ws t
        → IsFresh ws (apply w t)
    IsFresh-apply w [] t good fresh apart h = refl
    IsFresh-apply w (w' ∷ ws) t good fresh apart h =
        let other = and_true _ _ apart in
        (
          find-apply (key_of w') w t good fresh
              ∙ ap₂ (λ o b. or_else o (if b then value_of w else none)) h.0 (of_not _ other.0),
          IsFresh-apply w ws t good fresh other.1 h.1,
        )

    -- After writes under keys that differ and that a node does not have, what is found under a key is what
    -- the node has, or what was written there.
    pub find-apply_all :
        (k : Text) (ws : List Write) (t : trees.Tree)
        → are_distinct ws ≡ true
        → IsFresh ws t
        → find trees k (trees.children (apply_all ws t))
          ≡ or_else (find trees k (trees.children t)) (read k ws)
    find-apply_all k [] t good h = sym (or_else-none _)
    find-apply_all k (w ∷ ws) t good h =
        let (keyed, rest) = and_true _ _ good in
        let (apart, later) = and_true _ _ rest in
        find-apply_all k ws (apply w t) later (IsFresh-apply w ws t keyed h.0 apart h.1)
        ∙ ap (λ o. or_else o (read k ws)) (find-apply k w t keyed h.0)
        ∙ or_else_assoc (find trees k (trees.children t)) _ (read k ws)

    IsFresh-empty : (ws : List Write) → IsFresh ws trees.empty
    unfolding find
    IsFresh-empty [] = refl
    IsFresh-empty (w ∷ ws) = (ap (find trees (key_of w)) laws.children_empty, IsFresh-empty ws)

    pub find-written :
        (k : Text) (ws : List Write)
        → are_distinct ws ≡ true
        → find trees k (trees.children (apply_all ws trees.empty)) ≡ read k ws
    unfolding find
    find-written k ws good =
        find-apply_all k ws trees.empty good (IsFresh-empty ws)
        ∙ ap (λ o. or_else o (read k ws)) (ap (find trees k) laws.children_empty)
