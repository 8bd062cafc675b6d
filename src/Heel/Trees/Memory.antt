-- ===== src/Heel/Trees/Memory.antt =====
-- A property tree in memory, which behaves as documented.
use margot_project.Base.{
  ℕ, ◌==◌, true, false, if◌then◌else◌, List, [], ◌∷◌, ◌++◌, is_empty, Option, none, some, ◌≡◌, refl,
  sym, ap, ap₂, ◌∙◌, fun_ext, Bool-cases, inl, inr, ◌>>=◌, arith,
}
use margot_project.Heel.Names.{Text, same_text}
use margot_project.Heel.Trees.{PropertyTree, is_key, has_dot, find}
use margot_project.Heel.Trees.Writes.{IsLawful}

mutual
  pub data Tree : Type 0 where
    node : (text : Text) (below : Forest) → Tree

  pub data Forest : Type 0 where
    nil : Forest
    cons : (key : Text) (child : Tree) (rest : Forest) → Forest

abbrev children_of : Forest → List (Text × Tree)
children_of nil = []
children_of (cons key child rest) = (key, child) ∷ children_of rest

abbrev push_last : Text → Tree → Forest → Forest
push_last key child nil = cons key child nil
push_last key child (cons k c rest) = cons k c (push_last key child rest)

abbrev set_text : Text → Tree → Tree
set_text v (node text below) = node v below

abbrev put_in : Text → Text → Forest → Forest
put_in key v nil = cons key (node v nil) nil
put_in key v (cons k c rest) =
    if same_text k key then cons k (set_text v c) rest else cons k c (put_in key v rest)

abbrev text_at : Tree → Text
text_at (node text below) = text

abbrev forest_at : Tree → Forest
forest_at (node text below) = below

-- A path of one key or of two
abbrev before_dot : Text → Text
before_dot [] = []
before_dot (c ∷ s) = if c == 46 then [] else c ∷ before_dot s

abbrev after_dot : Text → Option Text
after_dot [] = none
after_dot (c ∷ s) = if c == 46 then some s else after_dot s

abbrev find_in : Text → Forest → Option Tree
find_in key nil = none
find_in key (cons k c rest) = if same_text k key then some c else find_in key rest

abbrev find_path : Text → Option Text → Forest → Option Tree
find_path key none forest = find_in key forest
find_path key (some l) forest = find_in key forest >>= λ c. find_in l (forest_at c)

abbrev put_at : Text → Text → Tree → Tree
put_at [] v t = set_text v t
put_at (c ∷ s) v t = node (text_at t) (put_in (c ∷ s) v (forest_at t))

abbrev pub memory : PropertyTree
memory = record {
  Tree = Tree;
  empty = node [] nil;
  get_data = text_at;
  children = λ t. children_of (forest_at t);
  put = put_at;
  push_back = λ k c t. node (text_at t) (push_last k c (forest_at t));
  add_child = λ k c t. node (text_at t) (push_last k c (forest_at t));
  get_child_optional = λ t path. find_path (before_dot path) (after_dot path) (forest_at t);
}

children_of-push_last :
    (k : Text) (c : Tree) (f : Forest)
    → children_of (push_last k c f) ≡ children_of f ++ ((k, c) ∷ [])
children_of-push_last k c nil = refl
children_of-push_last k c (cons k' c' f) = ap (λ l. (k', c') ∷ l) (children_of-push_last k c f)

find-children_of : (k : Text) (f : Forest) → find_in k f ≡ find memory k (children_of f)
unfolding find
find-children_of k nil = refl
find-children_of k (cons k' c f) =
    ap (λ o. if same_text k' k then some c else o) (find-children_of k f)

some-none : {A : Type 0} {x : A} → ¬ (some x ≡ none)
some-none e = absurd (ground (arith, e))

children_of-put_in :
    (k v : Text) (f : Forest)
    → find memory k (children_of f) ≡ none
    → children_of (put_in k v f) ≡ children_of f ++ ((k, node v nil) ∷ [])
unfolding find
children_of-put_in k v nil h = refl
children_of-put_in k v (cons k' c f) h = elim (Bool-cases (same_text k' k)) [
  | inl e ↦
      absurd (some-none (sym (ap (λ b. if b then some c else find memory k (children_of f)) e) ∙ h))
  | inr e ↦
      ap (λ b. children_of (if b then cons k' (set_text v c) f else cons k' c (put_in k v f))) e
      ∙ ap (λ l. (k', c) ∷ l)
          (children_of-put_in k v f
            (sym (ap (λ b. if b then some c else find memory k (children_of f)) e) ∙ h))
]

keyed : (k : Text) → is_key k ≡ true → (is_empty k ≡ false) × (has_dot k ≡ false)
keyed [] e = absurd (ground (arith, e))
keyed (c ∷ s) e = (refl, ground (arith, e))

no_dot : (c : ℕ) (s : Text) → has_dot (c ∷ s) ≡ false → ((c == 46) ≡ false) × (has_dot s ≡ false)
no_dot c s e = (ground (arith, e), ground (arith, e))

before_key : (k : Text) → has_dot k ≡ false → before_dot k ≡ k
before_key [] e = refl
before_key (c ∷ s) e =
    let apart = no_dot c s e in
    ap (λ b. if b then [] else c ∷ before_dot s) apart.0 ∙ ap (λ r. c ∷ r) (before_key s apart.1)

after_key : (k : Text) → has_dot k ≡ false → after_dot k ≡ none
after_key [] e = refl
after_key (c ∷ s) e =
    let apart = no_dot c s e in
    ap (λ b. if b then some s else after_dot s) apart.0 ∙ after_key s apart.1

before_path : (k l : Text) → has_dot k ≡ false → before_dot (k ++ (46 ∷ l)) ≡ k
before_path [] l e = refl
before_path (c ∷ s) l e =
    let apart = no_dot c s e in
    ap (λ b. if b then [] else c ∷ before_dot (s ++ (46 ∷ l))) apart.0
    ∙ ap (λ r. c ∷ r) (before_path s l apart.1)

after_path : (k l : Text) → has_dot k ≡ false → after_dot (k ++ (46 ∷ l)) ≡ some l
after_path [] l e = refl
after_path (c ∷ s) l e =
    let apart = no_dot c s e in
    ap (λ b. if b then some (s ++ (46 ∷ l)) else after_dot (s ++ (46 ∷ l))) apart.0
    ∙ after_path s l apart.1

put_at_key :
    (k v : Text) (t : Tree)
    → is_key k ≡ true
    → (text_at (put_at k v t) ≡ text_at t) × (forest_at (put_at k v t) ≡ put_in k v (forest_at t))
put_at_key [] v t e = absurd (ground (arith, e))
put_at_key (c ∷ s) v t e = (refl, refl)

text_at-set_text : (v : Text) (t : Tree) → text_at (set_text v t) ≡ v
text_at-set_text v (node text below) = refl

pub memory-IsLawful : IsLawful memory
memory-IsLawful = record {
  children_empty = refl;
  data_empty = refl;
  data_set = text_at-set_text;
  children_put = λ k v t good absent.
      ap children_of (put_at_key k v t good).1 ∙ children_of-put_in k v (forest_at t) absent;
  data_put = λ k v t good. (put_at_key k v t good).0;
  children_push = λ k c t. children_of-push_last k c (forest_at t);
  children_add = λ k c t good. children_of-push_last k c (forest_at t);
  get_key = λ k t good.
      let plain = keyed k good in
      ap₂ (λ b a. find_path b a (forest_at t)) (before_key k plain.1) (after_key k plain.1)
      ∙ find-children_of k (forest_at t);
  get_path = λ k l t good good'.
      let plain = keyed k good in
      ap₂ (λ b a. find_path b a (forest_at t)) (before_path k l plain.1) (after_path k l plain.1)
      ∙ ap₂ (λ o f. o >>= f) (find-children_of k (forest_at t))
          (fun_ext (λ c. find-children_of l (forest_at c)));
}
