-- ===== src/Heel/Names.antt =====
-- heel/src/model_validate.cpp: the names of the parts of a description.
pub mod Laws
use margot_project.Base.{
  ℕ, zero, suc, ◌==◌, ◌&&◌, ◌||◌, if◌then◌else◌, Bool, true, false, List, [], ◌∷◌, ◌++◌, length,
  is_empty, Option, none, some,
}

-- `std::string`, by the codes of its characters
abbrev pub Text : Type 0
Text = List ℕ

-- `a.compare(b) == 0`
unfoldable pub same_text : Text → Text → Bool
same_text (a ∷ s) (b ∷ t) = let rest = same_text s t in a == b && rest
same_text [] [] = true
same_text _ _ = false

-- `std::any_of` over the names of a container
unfoldable pub has_name : Text → List Text → Bool
has_name name [] = false
has_name name (n ∷ names) =
    let rest = has_name name names in if same_text n name then true else rest

-- `is_valid_identifier(name)` of heel/src/typer.cpp; `isalpha` and `isalnum` are those of the C library.
unfoldable pub all_in : (ℕ → Bool) → Text → Bool
all_in test [] = true
all_in test (c ∷ s) = let rest = all_in test s in test c && rest

unfoldable pub is_valid_identifier : (ℕ → Bool) → (ℕ → Bool) → Text → Bool
is_valid_identifier isalpha isalnum [] = false
is_valid_identifier isalpha isalnum (c ∷ s) =
    (isalpha c || c == 95) && all_in (λ d. isalnum d || d == 95) s

-- What the templates use of a `model_type`.
pub record Named (A : Type 0) : Type 0 where
  pub name : A → Text
  pub set : Text → A → A

-- `to_string` is `std::to_string`.
module _ {A : Type 0} (named : Named A) (to_string : ℕ → Text) (what : Text) where
  -- `set_name(string, what, counter)`; `95` is `_`.
  unfoldable pub set_name : ℕ → A → A
  set_name counter x =
      if is_empty (named.name x) then named.set (what ++ (95 ∷ to_string (suc counter))) x else x

  -- `set_name(container, what)`, from a counter on
  unfoldable pub set_names : ℕ → List A → List A
  set_names counter [] = []
  set_names counter (x ∷ container) = set_name counter x ∷ set_names (suc counter) container

  -- `std::unique` behind an element that it keeps
  unfoldable pub unique_from : A → List A → List A
  unique_from kept [] = []
  unique_from kept (x ∷ l) = elim (same_text (named.name kept) (named.name x)) [
    | true ↦ unique_from kept l
    | false ↦ x ∷ unique_from x l
  ]

  unfoldable pub unique : List A → List A
  unique [] = []
  unique (x ∷ l) = x ∷ unique_from x l

  -- `check_uniqueness(container, what)`; `none` is the exception.
  unfoldable pub check_uniqueness : List A → Option (List A)
  check_uniqueness container =
      let named_container = set_names 0 container in
      if length (unique named_container) == length named_container
      then some named_container
      else none
