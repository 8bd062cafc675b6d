-- ===== src/CircularBuffer/Slots.antt =====
-- What is read from a slot of an array after a write, and after a loop over its elements.
use margot_project.Base.{
  ℕ, zero, suc, ◌<◌, List, [], ◌∷◌, map, length, some, ◌≡◌, ◌≢◌, refl, ap, arith,
}
use margot_project.CircularBuffer.{set_at, get_elem?}
use mathlib.Core.Option

module _ {A : Type 0} where
  pub length-set_at : (i : ℕ) (v : A) (l : List A) → length (set_at i v l) ≡ length l
  unfolding set_at
  length-set_at i v [] = refl
  length-set_at zero v (x ∷ l) = refl
  length-set_at (suc i) v (x ∷ l) = ap suc (length-set_at i v l)

  pub get_elem?-set_at_same :
      (i : ℕ) (v : A) (l : List A) → i < length l → get_elem? (set_at i v l) i ≡ some v
  unfolding set_at get_elem?
  get_elem?-set_at_same i v [] p = ground (arith, p)
  get_elem?-set_at_same zero v (x ∷ l) p = refl
  get_elem?-set_at_same (suc i) v (x ∷ l) p = get_elem?-set_at_same i v l (omega (arith, p))

  pub get_elem?-set_at_other :
      (i j : ℕ) (v : A) (l : List A) → i ≢ j → get_elem? (set_at i v l) j ≡ get_elem? l j
  unfolding set_at get_elem?
  get_elem?-set_at_other i j v [] p = refl
  get_elem?-set_at_other zero zero v (x ∷ l) p = elim (p refl) [ ]
  get_elem?-set_at_other zero (suc j) v (x ∷ l) p = refl
  get_elem?-set_at_other (suc i) zero v (x ∷ l) p = refl
  get_elem?-set_at_other (suc i) (suc j) v (x ∷ l) p =
      get_elem?-set_at_other i j v l (λ e. p (ap suc e))

  pub length-map : (f : A → A) (l : List A) → length (map f l) ≡ length l
  length-map f [] = refl
  length-map f (x ∷ l) = ap suc (length-map f l)

  pub get_elem?-map :
      (f : A → A) (l : List A) (i : ℕ) → get_elem? (map f l) i ≡ Option.map f (get_elem? l i)
  unfolding get_elem?
  get_elem?-map f [] i = refl
  get_elem?-map f (x ∷ l) zero = refl
  get_elem?-map f (x ∷ l) (suc i) = get_elem?-map f l i
