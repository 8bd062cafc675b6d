-- ===== src/Heel/Names/Laws.antt =====
-- Which names pass the test of uniqueness.
use margot_project.Base.{
  ℕ, suc, ◌≤◌, ◌==◌, ◌&&◌, not, if◌then◌else◌, Bool, true, false, List, [], ◌∷◌, length, is_empty,
  none, some, ◌≡◌, refl, arith, Bool-cases, inl, inr, ap₂,
}
use margot_project.Heel.Names.{
  Text, same_text, Named, set_name, set_names, unique_from, unique, check_uniqueness,
}

module _ {A : Type 0} (named : Named A) (to_string : ℕ → Text) (what : Text) where
  -- Every element has a name.
  abbrev pub AllNamed : List A → Type 0
  AllNamed [] = Unit {0}
  AllNamed (x ∷ l) = (is_empty (named.name x) ≡ false) × AllNamed l

  -- No element has the name of the one in front of it.
  abbrev pub differ_from : A → List A → Bool
  differ_from last [] = true
  differ_from last (x ∷ l) =
      let rest = differ_from x l in not (same_text (named.name last) (named.name x)) && rest

  abbrev pub neighbours_differ : List A → Bool
  neighbours_differ [] = true
  neighbours_differ (x ∷ l) = differ_from x l

  set_names-AllNamed :
      (counter : ℕ) (l : List A) → AllNamed l → set_names named to_string what counter l ≡ l
  unfolding set_names set_name
  set_names-AllNamed counter [] h = refl
  set_names-AllNamed counter (x ∷ l) h =
      ap₂ ◌∷◌ (rw (h.0, set_name) refl) (set_names-AllNamed (suc counter) l h.1)

  length-unique_from :
      (kept : A) (l : List A) → length (unique_from named to_string what kept l) ≤ length l
  unfolding unique_from
  length-unique_from kept [] = omega arith
  length-unique_from kept (x ∷ l) = elim (Bool-cases (same_text (named.name kept) (named.name x))) [
    | inl same ↦
        let shorter = length-unique_from kept l in rw (same, unique_from) (omega (arith, shorter))
    | inr other ↦
        let shorter = length-unique_from x l in rw (other, unique_from) (omega (arith, shorter))
  ]

  unique_from-differ_from :
      (kept : A) (l : List A)
      → (length (unique_from named to_string what kept l) == length l) ≡ differ_from kept l
  unfolding unique_from
  unique_from-differ_from kept [] = ground arith
  unique_from-differ_from kept (x ∷ l) =
      elim (Bool-cases (same_text (named.name kept) (named.name x))) [
        | inl same ↦
            let shorter = length-unique_from kept l in
            rw (same, unique_from) (ground (arith, shorter))
        | inr other ↦
            let rest = unique_from-differ_from x l in rw (other, unique_from) (ground (arith, rest))
      ]

  unique-neighbours_differ :
      (l : List A) → (length (unique named to_string what l) == length l) ≡ neighbours_differ l
  unfolding unique
  unique-neighbours_differ [] = ground arith
  unique-neighbours_differ (x ∷ l) = let rest = unique_from-differ_from x l in ground (arith, rest)

  -- If every element has a name, `check_uniqueness` returns the container as it is where no element has
  -- the name of the one in front of it, and throws otherwise.
  pub check_uniqueness-neighbours_differ :
      (l : List A)
      → AllNamed l
      → check_uniqueness named to_string what l ≡ (if neighbours_differ l then some l else none)
  unfolding check_uniqueness
  check_uniqueness-neighbours_differ l h =
      rw (set_names-AllNamed 0 l h, unique-neighbours_differ l, check_uniqueness) refl
