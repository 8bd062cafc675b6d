-- ===== src/Asrtm/Addition.antt =====
-- Which Operating Points `add_operating_points` of asrtm.hpp brings into the knowledge, and how many.
use margot_project.Base.{
  ◌+◌, ◌∙◌, ◌==◌, if◌then◌else◌, List, [], ◌∷◌, Option, none, some, OpPtr, OpStream, ◌≡◌, arith,
  length,
}
use margot_project.Knowledge.{Configuration, Knowledge, find_in, add, size}
use margot_project.Knowledge.Laws.{Keyed, add_lem}
use margot_project.Asrtm.{
  Asrtm, add_to_knowledge, add_operating_points, get_number_operating_points,
}

-- What is there, or else what comes new.
abbrev pub or_new : Option OpPtr → Option OpPtr → Option OpPtr
or_new (some p) new = some p
or_new none new = new

module _ (get_knobs : OpPtr → Configuration) where
  -- The first Operating Point of a list with a configuration
  abbrev pub first_with : Configuration → List OpPtr → Option OpPtr
  first_with conf [] = none
  first_with conf (op ∷ l) = if get_knobs op == conf then some op else first_with conf l

  size-add :
      (k : Knowledge) (op : OpPtr)
      → size (add get_knobs k op).0
        ≡ size k + (elim (add get_knobs k op).1 [ some _ ↦ 1 | none ↦ 0 ])
  unfolding size add
  size-add k op = ground arith

  size-add_to_knowledge :
      (k : Knowledge) (ops : OpStream)
      → size (add_to_knowledge get_knobs k ops).0
        ≡ size k + length (add_to_knowledge get_knobs k ops).1
  unfolding add_to_knowledge
  size-add_to_knowledge k [] = omega arith
  size-add_to_knowledge k (op ∷ ops) =
      ground (arith, size-add k op, size-add_to_knowledge (add get_knobs k op).0 ops)

  find_in-add :
      (conf : Configuration) (k : Knowledge) (op : OpPtr) (new : Option OpPtr)
      → or_new (find_in conf (add get_knobs k op).0.knowledge) new
        ≡ or_new (find_in conf k.knowledge) (if get_knobs op == conf then some op else new)
  unfolding find_in add
  find_in-add conf k op new = ground arith

  add_to_knowledge-finds :
      (k : Knowledge) (ops : OpStream) (conf : Configuration)
      → find_in conf (add_to_knowledge get_knobs k ops).0.knowledge
        ≡ or_new (find_in conf k.knowledge) (first_with conf ops)
  unfolding add_to_knowledge
  add_to_knowledge-finds k [] conf = ground arith
  add_to_knowledge-finds k (op ∷ ops) conf =
      add_to_knowledge-finds (add get_knobs k op).0 ops conf
      ∙ find_in-add conf k op (first_with conf ops)

  add_to_knowledge-Keyed :
      (k : Knowledge) (ops : OpStream)
      → Keyed get_knobs k.knowledge
      → Keyed get_knobs (add_to_knowledge get_knobs k ops).0.knowledge
  unfolding add_to_knowledge
  add_to_knowledge-Keyed k [] h = h
  add_to_knowledge-Keyed k (op ∷ ops) h =
      add_to_knowledge-Keyed (add get_knobs k op).0 ops (add_lem get_knobs k op h).0

  -- On a knowledge whose configurations differ, `add_operating_points` keeps that; under each configuration
  -- there stands what stood there before or else the first Operating Point of the list with it; and the
  -- method returns by how many the knowledge has grown.
  pub add_operating_points-adds :
      (op_list : List OpPtr) (m : Asrtm)
      → Keyed get_knobs m.knowledge.knowledge
      → let (m', added) = add_operating_points get_knobs op_list m in
        Keyed get_knobs m'.knowledge.knowledge
        × ((conf : Configuration)
            → find_in conf m'.knowledge.knowledge
              ≡ or_new (find_in conf m.knowledge.knowledge) (first_with conf op_list))
        × (get_number_operating_points m' ≡ get_number_operating_points m + added)
  unfolding add_operating_points get_number_operating_points
  add_operating_points-adds op_list m h = (
    add_to_knowledge-Keyed m.knowledge op_list h,
    add_to_knowledge-finds m.knowledge op_list,
    size-add_to_knowledge m.knowledge op_list,
  )
