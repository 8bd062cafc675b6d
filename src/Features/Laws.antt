-- ===== src/Features/Laws.antt =====
-- With the Euclidean distance the loop over the clusters finds a closest one.
use margot_project.Base.{
  ℕ, suc, ◌+◌, ltb, not, ◌&&◌, if◌then◌else◌, Bool, true, false, List, [], ◌∷◌, some, ◌≡◌, refl,
  arith, ◌⊎◌, inl, inr, Bool-cases, ap, ◌∙◌, sym, ◌<◌, length,
}
use native.Mathlib.Numerals.{one-add}
use margot_project.Enums.{FeatureComparison, FeatureDistanceType, euclidean}
use margot_project.Features.{
  Feature, Arithmetic, data_features_admissible, data_features_distance, distances, selects_target,
  closest_from,
}
use margot_project.CircularBuffer.{get_elem?}

module _ (ops : Arithmetic) (cfs : List FeatureComparison) (key : Feature) where
  -- A key is closer to the input than another: if it alone is admissible, and otherwise, if both are or
  -- none is, if its distance is less.
  abbrev pub is_closer : Feature → Feature → Bool
  is_closer f g =
      if data_features_admissible cfs g key && not (data_features_admissible cfs f key)
      then false
      else if not (data_features_admissible cfs g key) && data_features_admissible cfs f key
      then true
      else ltb (data_features_distance ops key f) (data_features_distance ops key g)

  -- No key of the list is closer.
  abbrev pub IsClosest : Feature → List Feature → Type 0
  IsClosest c [] = Unit {0}
  IsClosest c (f ∷ keys) = (is_closer f c ≡ false) × IsClosest c keys

  selects_target-is_closer :
      (best target : Feature)
      → selects_target ops euclidean cfs key best target ≡ is_closer target best
  unfolding selects_target distances
  selects_target-is_closer best target = refl

  is_closer_trans :
      (f g h : Feature) → is_closer f g ≡ true → is_closer f h ≡ false → is_closer g h ≡ false
  is_closer_trans f g h p q = ground arith

  not_closer_trans :
      (f g h : Feature) → is_closer f g ≡ false → is_closer g h ≡ false → is_closer f h ≡ false
  not_closer_trans f g h p q = ground arith

  closest_from_lem :
      (at : ℕ) (best : Feature) (next : ℕ) (keys : List Feature)
      → (c : Feature) × (((closest_from ops euclidean cfs key at best next keys ≡ at) × (c ≡ best))
          ⊎ ((j : ℕ) × (closest_from ops euclidean cfs key at best next keys ≡ next + j)
              × (get_elem? keys j ≡ some c)))
        × (is_closer best c ≡ false)
        × IsClosest c keys
  unfolding closest_from get_elem?
  closest_from_lem at best next [] = (best, inl (refl, refl), ground arith, tt)
  closest_from_lem at best next (target ∷ keys) =
      elim (Bool-cases (selects_target ops euclidean cfs key best target)) [
        | inl better ↦
            let (c, place, near, all) = closest_from_lem next target (suc next) keys in
            (
              c,
              rw (better, closest_from)
                  (inr (elim place [
                    | inl (e, same) ↦ (0, e ∙ omega arith, ap some (sym same))
                    | inr (j, e, there) ↦ (suc j, e ∙ omega arith, there)
                  ])),
              is_closer_trans target best c (sym (selects_target-is_closer best target) ∙ better)
                  near,
              (near, all),
            )
        | inr other ↦
            let (c, place, near, all) = closest_from_lem at best (suc next) keys in
            (
              c,
              rw (other, closest_from)
                  (elim place [
                    | inl here ↦ inl here
                    | inr (j, e, there) ↦ inr (suc j, e ∙ omega arith, there)
                  ]),
              near,
              (
                not_closer_trans target best c (sym (selects_target-is_closer best target) ∙ other)
                    near,
                all,
              ),
            )
      ]

  -- `select_feature_cluster` with the Euclidean distance: of the keys of the clusters it takes one such
  -- that none is closer, where an admissible key is closer than one that is not.
  pub closest_from-IsClosest :
      (first : Feature) (keys : List Feature)
      → (c : Feature) × (get_elem?
            (first ∷ keys)
            (closest_from ops euclidean cfs key 0 first 1 keys)
          ≡ some c)
        × IsClosest c (first ∷ keys)
  unfolding get_elem?
  closest_from-IsClosest first keys =
      let (c, place, near, all) = closest_from_lem 0 first 1 keys in
      (
        c,
        elim place [
          | inl (e, same) ↦ rw e (ap some (sym same))
          | inr (j, e, there) ↦ rw (e, one-add) there
        ],
        (near, all),
      )

-- The place that the loop ends at is one of those it has seen.
pub closest_from-bound :
    (ops : Arithmetic) (kind : FeatureDistanceType) (cfs : List FeatureComparison) (key : Feature)
    (at : ℕ) (best : Feature) (next : ℕ) (keys : List Feature)
    → at < next
    → closest_from ops kind cfs key at best next keys < next + length keys
unfolding closest_from
closest_from-bound ops kind cfs key at best next [] h = ground (arith, h)
closest_from-bound ops kind cfs key at best next (target ∷ keys) h =
    elim (Bool-cases (selects_target ops kind cfs key best target)) [
      | inl better ↦
          let below =
            closest_from-bound ops kind cfs key next target (suc next) keys (omega arith) in
          rw (better, closest_from) (ground (arith, below))
      | inr other ↦
          let below =
            closest_from-bound ops kind cfs key at best (suc next) keys (omega (arith, h)) in
          rw (other, closest_from) (ground (arith, below))
    ]
