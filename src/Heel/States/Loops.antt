-- ===== src/Heel/States/Loops.antt =====
-- Loops that change the elements of a container or throw.
use margot_project.Base.{
  List, [], ◌∷◌, is_empty, Option, some, ◌≡◌, refl, arith, Option-cases, inl, inr, subst, ap, sym,
  ◌∙◌,
}
use margot_project.Heel.States.{for_each, both}

-- Every element has a property.
abbrev pub All {ℓ} : {A : Type ℓ} → (A → Type 0) → List A → Type 0
All P [] = Unit {0}
All P (x ∷ l) = P x × All P l

-- A loop makes of elements with one property elements with another.
pub for_each-All {ℓ} :
    {A : Type ℓ} (P Q : A → Type 0) (f : A → Option A) (l l' : List A)
    → ((x y : A) → P x → f x ≡ some y → Q y)
    → All P l
    → for_each f l ≡ some l'
    → All Q l'
unfolding for_each
for_each-All P Q f [] l' step h e = let same : [] ≡ l' = ground (arith, e) in subst (All Q) same tt
for_each-All P Q f (x ∷ l) l' step h e = elim (Option-cases (f x)) [
  | inl thrown ↦ absurd (ground (arith, e, thrown))
  | inr (y, changed) ↦ elim (Option-cases (for_each f l)) [
    | inl thrown ↦ absurd (ground (arith, e, changed, thrown))
    | inr (rest, done) ↦
        let same : y ∷ rest ≡ l' = ground (arith, e, changed, done) in
        subst (All Q) same (step x y h.0 changed, for_each-All P Q f l rest step h.1 done)
  ]
]

-- A loop that changes no element returns the container.
pub for_each-same {ℓ} :
    {A : Type ℓ} (P : A → Type 0) (f : A → Option A) (l : List A)
    → ((x : A) → P x → f x ≡ some x)
    → All P l
    → for_each f l ≡ some l
unfolding for_each
for_each-same P f [] same h = refl
for_each-same P f (x ∷ l) same h = rw (same x h.0, for_each-same P f l same h.1, for_each) refl

pub All-every {ℓ} : {A : Type ℓ} (l : List A) → All (λ x. Unit {0}) l
All-every [] = tt
All-every (x ∷ l) = (tt, All-every l)

-- Two loops of which the second keeps what the first one makes.
pub both-All {ℓ} :
    {A : Type ℓ} (P Q : A → Type 0) (f g : A → Option A) (l l' : List A)
    → ((x y : A) → f x ≡ some y → P y)
    → ((x y : A) → P x → g x ≡ some y → Q y)
    → both f g l ≡ some l'
    → All Q l'
unfolding both
both-All P Q f g l l' first second e = elim (Option-cases (for_each f l)) [
  | inl thrown ↦ absurd (ground (arith, e, thrown))
  | inr (m, done) ↦
      let rest : for_each g m ≡ some l' = sym (rw (done, both) refl) ∙ e in
      for_each-All P Q g m l' second
        (for_each-All (λ x. Unit {0}) P f l m (λ x y u. first x y) (All-every l) done) rest
]

pub both-same {ℓ} :
    {A : Type ℓ} (Q : A → Type 0) (f g : A → Option A) (l : List A)
    → ((x : A) → Q x → f x ≡ some x)
    → ((x : A) → Q x → g x ≡ some x)
    → All Q l
    → both f g l ≡ some l
unfolding both
both-same Q f g l first second h =
    rw (for_each-same Q f l first h, both) (for_each-same Q g l second h)

pub for_each-is_empty {ℓ} :
    {A : Type ℓ} (f : A → Option A) (l l' : List A)
    → for_each f l ≡ some l'
    → is_empty l' ≡ is_empty l
unfolding for_each
for_each-is_empty f [] l' e = let same : [] ≡ l' = ground (arith, e) in sym (ap is_empty same)
for_each-is_empty f (x ∷ l) l' e = elim (Option-cases (f x)) [
  | inl thrown ↦ absurd (ground (arith, e, thrown))
  | inr (y, changed) ↦ elim (Option-cases (for_each f l)) [
    | inl thrown ↦ absurd (ground (arith, e, changed, thrown))
    | inr (rest, done) ↦
        let same : y ∷ rest ≡ l' = ground (arith, e, changed, done) in sym (ap is_empty same)
  ]
]

pub both-is_empty {ℓ} :
    {A : Type ℓ} (f g : A → Option A) (l l' : List A)
    → both f g l ≡ some l'
    → is_empty l' ≡ is_empty l
unfolding both
both-is_empty f g l l' e = elim (Option-cases (for_each f l)) [
  | inl thrown ↦ absurd (ground (arith, e, thrown))
  | inr (m, done) ↦
      let rest : for_each g m ≡ some l' = sym (rw (done, both) refl) ∙ e in
      for_each-is_empty g m l' rest ∙ for_each-is_empty f l m done
]
