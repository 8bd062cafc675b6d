-- ===== src/Asrtm/Removal.antt =====
-- Which Operating Points `remove_operating_points` of asrtm.hpp takes from the knowledge, and how many.
use margot_project.Base.{
  ◌+◌, ◌==◌, Bool, false, not, ◌&&◌, ◌||◌, List, [], ◌∷◌, none, some, OpPtr, ◌≡◌, refl, arith,
  length,
}
use margot_project.Knowledge.{
  Configuration, OperatingPointList, Knowledge, find_in, erase_in, remove, size,
}
use margot_project.Knowledge.Laws.{Keyed, holds, remove_lem}
use margot_project.Asrtm.{
  Asrtm, remove_from_knowledge, remove_operating_points, get_number_operating_points,
}

-- The list has the configuration.
abbrev pub is_listed : Configuration → List Configuration → Bool
is_listed conf [] = false
is_listed conf (c ∷ l) = conf == c || is_listed conf l

length-erase_in :
    (conf : Configuration) (l : OperatingPointList)
    → length l ≡ length (erase_in conf l) + (elim (find_in conf l) [ some _ ↦ 1 | none ↦ 0 ])
unfolding erase_in find_in
length-erase_in conf [] = refl
length-erase_in conf ((c, p) ∷ l) = ground (arith, length-erase_in conf l)

size-remove :
    (k : Knowledge) (conf : Configuration)
    → size k ≡ size (remove k conf).0 + (elim (remove k conf).1 [ some _ ↦ 1 | none ↦ 0 ])
unfolding size remove
size-remove k conf = ground (arith, length-erase_in conf k.knowledge)

size-remove_from_knowledge :
    (k : Knowledge) (confs : List Configuration)
    → size k ≡ size (remove_from_knowledge k confs).0 + length (remove_from_knowledge k confs).1
unfolding remove_from_knowledge
size-remove_from_knowledge k [] = omega arith
size-remove_from_knowledge k (conf ∷ confs) =
    ground (arith, size-remove k conf, size-remove_from_knowledge (remove k conf).0 confs)

module _ (get_knobs : OpPtr → Configuration) where
  remove_from_knowledge-holds :
      (k : Knowledge) (confs : List Configuration)
      → Keyed get_knobs k.knowledge
      → Keyed get_knobs (remove_from_knowledge k confs).0.knowledge
        × ((p : OpPtr)
            → holds get_knobs (remove_from_knowledge k confs).0 p
              ≡ (holds get_knobs k p && not (is_listed (get_knobs p) confs)))
  unfolding remove_from_knowledge
  remove_from_knowledge-holds k [] h = (h, λ p. ground arith)
  remove_from_knowledge-holds k (conf ∷ confs) h =
      let first = remove_lem get_knobs k conf h in
      let rest = remove_from_knowledge-holds (remove k conf).0 confs first.0 in
      (rest.0, λ p. ground (arith, first.2 p, rest.1 p))

  -- On a knowledge whose configurations differ, `remove_operating_points` keeps that, takes away exactly the
  -- Operating Points whose configuration is listed, and returns by how many the knowledge has become smaller.
  pub remove_operating_points-removes :
      (configuration_list : List Configuration) (m : Asrtm)
      → Keyed get_knobs m.knowledge.knowledge
      → let (m', removed) = remove_operating_points configuration_list m in
        Keyed get_knobs m'.knowledge.knowledge
        × ((p : OpPtr)
            → holds get_knobs m'.knowledge p
              ≡ (holds get_knobs m.knowledge p && not (is_listed (get_knobs p) configuration_list)))
        × (get_number_operating_points m ≡ get_number_operating_points m' + removed)
  unfolding remove_operating_points get_number_operating_points
  remove_operating_points-removes configuration_list m h =
      let left = remove_from_knowledge-holds m.knowledge configuration_list h in
      (left.0, left.1, size-remove_from_knowledge m.knowledge configuration_list)
