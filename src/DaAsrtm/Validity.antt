-- ===== src/DaAsrtm/Validity.antt =====
-- What holds of every manager of the container, and of the place of the active one, is kept by the ways
-- in which the methods change the container.
use margot_project.Base.{
  ℕ, zero, suc, ◌+◌, ◌<◌, [], ◌∷◌, ◌++◌, Option, none, some, ◌≡◌, refl, arith, length, Option-cases,
  Bool-cases, inl, inr, subst, ap, ◌∙◌, map,
}
use mathlib.Core.Option
use margot_project.Features.{Feature}
use margot_project.Asrtm.{Asrtm}
use margot_project.DaAsrtm.{
  DataAwareAsrtm, active, AsrtmContainer, same_key, find_key, at_place, change_at, erase_at,
  for_each,
}

-- A property of every manager
abbrev pub AllManagers : (Asrtm → Type 0) → AsrtmContainer → Type 0
AllManagers P [] = Unit {0}
AllManagers P ((k, m) ∷ l) = P m × AllManagers P l

-- The iterator is the end or refers to an element.
abbrev pub IsPlaced : AsrtmContainer → Option ℕ → Type 0
IsPlaced l none = Unit {0}
IsPlaced l (some i) = i < length l

pub AllManagers-zip :
    (P Q R : Asrtm → Type 0) (l : AsrtmContainer)
    → ((m : Asrtm) → P m → Q m → R m)
    → AllManagers P l
    → AllManagers Q l
    → AllManagers R l
AllManagers-zip P Q R [] f p q = tt
AllManagers-zip P Q R ((k, m) ∷ l) f p q = (f m p.0 q.0, AllManagers-zip P Q R l f p.1 q.1)

pub AllManagers-map :
    (P R : Asrtm → Type 0) (l : AsrtmContainer)
    → ((m : Asrtm) → P m → R m)
    → AllManagers P l
    → AllManagers R l
AllManagers-map P R l f p = AllManagers-zip P P R l (λ m a b. f m a) p p

pub AllManagers-append :
    (P : Asrtm → Type 0) (l : AsrtmContainer) (key : Feature) (m : Asrtm)
    → AllManagers P l
    → P m
    → AllManagers P (l ++ ((key, m) ∷ []))
AllManagers-append P [] key m p new = (new, tt)
AllManagers-append P (e ∷ l) key m p new = (p.0, AllManagers-append P l key m p.1 new)

pub change_at-AllManagers :
    (P : Asrtm → Type 0) (f : Asrtm → Asrtm) (l : AsrtmContainer) (i : ℕ)
    → ((m : Asrtm) → P m → P (f m))
    → AllManagers P l
    → AllManagers P (change_at f l i)
unfolding change_at
change_at-AllManagers P f [] i step p = tt
change_at-AllManagers P f ((k, m) ∷ l) zero step p = (step m p.0, p.1)
change_at-AllManagers P f (e ∷ l) (suc i) step p = (p.0, change_at-AllManagers P f l i step p.1)

pub erase_at-AllManagers :
    (P : Asrtm → Type 0) (i : ℕ) (l : AsrtmContainer)
    → AllManagers P l
    → AllManagers P (erase_at i l)
unfolding erase_at
erase_at-AllManagers P i [] p = tt
erase_at-AllManagers P zero (e ∷ l) p = p.1
erase_at-AllManagers P (suc i) (e ∷ l) p = (p.0, erase_at-AllManagers P i l p.1)

pub at_place-AllManagers :
    (P : Asrtm → Type 0) (l : AsrtmContainer) (i : ℕ) (k : Feature) (m : Asrtm)
    → AllManagers P l
    → at_place l i ≡ some (k, m)
    → P m
unfolding at_place
at_place-AllManagers P [] i k m p e = absurd (ground arith)
at_place-AllManagers P ((k', m') ∷ l) zero k m p e = subst P (ground (arith, e)) p.0
at_place-AllManagers P (a ∷ l) (suc i) k m p e = at_place-AllManagers P l i k m p.1 e

-- A method that is called on every manager without a failed assertion
pub for_each-AllManagers :
    (P : Asrtm → Type 0) (f : Asrtm → Option Asrtm) (l l' : AsrtmContainer)
    → AllManagers (λ m. (m' : Asrtm) → f m ≡ some m' → P m') l
    → for_each f l ≡ some l'
    → AllManagers P l' × (length l' ≡ length l)
unfolding for_each
for_each-AllManagers P f [] l' p e =
    let same : [] ≡ l' = ground (arith, e) in
    subst (λ x. AllManagers P x × (length x ≡ 0)) same (tt, refl)
for_each-AllManagers P f ((k, m) ∷ l) l' p e = elim (Option-cases (f m)) [
  | inl failed ↦ absurd (ground (arith, failed))
  | inr (m', done) ↦ elim (Option-cases (for_each f l)) [
    | inl failed ↦ absurd (ground (arith, done, failed))
    | inr (l'', rest) ↦
        let a = for_each-AllManagers P f l l'' p.1 rest in
        let same : (k, m') ∷ l'' ≡ l' = ground (arith, e, done, rest) in
        subst (λ x. AllManagers P x × (length x ≡ suc (length l))) same
          ((p.0 m' done, a.0), ap suc a.1)
  ]
]

pub length-change_at :
    (f : Asrtm → Asrtm) (l : AsrtmContainer) (i : ℕ) → length (change_at f l i) ≡ length l
unfolding change_at
length-change_at f [] i = refl
length-change_at f (e ∷ l) zero = refl
length-change_at f (e ∷ l) (suc i) = ap suc (length-change_at f l i)

pub IsPlaced-length :
    (l l' : AsrtmContainer) (i : Option ℕ) → length l' ≡ length l → IsPlaced l i → IsPlaced l' i
IsPlaced-length l l' none e p = tt
IsPlaced-length l l' (some i) e p = ground (arith, p, e)

-- A key that is found is found at a place of the container.
pub find_key-IsPlaced :
    (key : Feature) (at : ℕ) (l : AsrtmContainer) (i : ℕ)
    → find_key key at l ≡ some i
    → i < at + length l
unfolding find_key
find_key-IsPlaced key at [] i e = absurd (ground arith)
find_key-IsPlaced key at ((k, m) ∷ l) i e = elim (Bool-cases (same_key k key)) [
  | inl here ↦ ground (arith, e, here)
  | inr other ↦
      let below = find_key-IsPlaced key (suc at) l i (ground (arith, e, other)) in
      ground (arith, below)
]

pub length-map : (l : AsrtmContainer) → length (map (λ (e : Feature × Asrtm). e.0) l) ≡ length l
length-map [] = refl
length-map (e ∷ l) = ap suc (length-map l)

-- The active manager is one of the container.
pub active-AllManagers :
    (P : Asrtm → Type 0) (d : DataAwareAsrtm) (i : ℕ) (k : Feature) (m : Asrtm)
    → AllManagers P d.managers
    → active d ≡ some (i, k, m)
    → P m
unfolding active
active-AllManagers P d i k m p e = elim (Option-cases d.active_manager) [
  | inl inactive ↦ absurd (ground (arith, inactive))
  | inr (j, at) ↦ elim (Option-cases (at_place d.managers j)) [
    | inl dangling ↦ absurd (ground (arith, at, dangling))
    | inr ((k', m'), there) ↦
        let same : m' ≡ m = ground (arith, e, at, there) in
        subst P same (at_place-AllManagers P d.managers j k' m' p there)
  ]
]

pub at_place-change_at :
    (f : Asrtm → Asrtm) (l : AsrtmContainer) (i : ℕ) (k : Feature) (m : Asrtm)
    → at_place l i ≡ some (k, m)
    → at_place (change_at f l i) i ≡ some (k, f m)
unfolding at_place change_at
at_place-change_at f [] i k m e = absurd (ground arith)
at_place-change_at f ((k', m') ∷ l) zero k m e =
    ap (Option.map (λ (x : Feature × Asrtm). (x.0, f x.1))) e
at_place-change_at f (a ∷ l) (suc i) k m e = at_place-change_at f l i k m e

-- A change of the active manager, which stays the active one.
pub active-change_at :
    (f : Asrtm → Asrtm) (d : DataAwareAsrtm) (i : ℕ) (k : Feature) (m : Asrtm)
    → active d ≡ some (i, k, m)
    → active (record d { managers = change_at f d.managers i }) ≡ some (i, k, f m)
unfolding active
active-change_at f d i k m e = elim (Option-cases d.active_manager) [
  | inl inactive ↦ absurd (ground (arith, inactive))
  | inr (j, at) ↦ elim (Option-cases (at_place d.managers j)) [
    | inl dangling ↦ absurd (ground (arith, at, dangling))
    | inr ((k', m'), there) ↦
        let same_place : j ≡ i = ground (arith, e, at, there) in
        let same_element : Option.some (k', m') ≡ some (k, m) = ground (arith, e, at, there) in
        let there' =
          at_place-change_at f d.managers i k m
            (subst (λ x. at_place d.managers x ≡ some (k, m)) same_place (there ∙ same_element)) in
        let here : d.active_manager ≡ some i = at ∙ ap some same_place in
        rw (here, there', active) refl
  ]
]
