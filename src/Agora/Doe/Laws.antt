-- ===== src/Agora/Doe/Laws.antt =====
-- Each configuration is handed out as often as it is required, in turn with the others.
use margot_project.Base.{
  ℕ, zero, suc, ◌+◌, ltb, ◌==◌, if◌then◌else◌, [], ◌∷◌, ◌++◌, ◌≡◌, refl, arith, count, ◌≤◌,
}
use margot_project.Agora.Doe.{
  ConfigurationModel, DoeModel, explored_once, put_back, get_next, explore,
}

-- How often a configuration is handed out: once at least.
abbrev pub turns : ConfigurationModel → ℕ
turns c = if ltb 0 c.number_of_explorations then c.number_of_explorations else 1

-- The turns that are left, of one configuration and of all.
abbrev pub turns_of : ℕ → DoeModel → ℕ
turns_of id [] = 0
turns_of id (c ∷ doe) =
    if c.configuration_id == id then turns c + turns_of id doe else turns_of id doe

abbrev pub all_turns : DoeModel → ℕ
all_turns [] = 0
all_turns (c ∷ doe) = turns c + all_turns doe

turns_of-snoc :
    (id : ℕ) (c : ConfigurationModel) (doe : DoeModel)
    → turns_of id (doe ++ (c ∷ []))
      ≡ turns_of id doe + (if c.configuration_id == id then turns c else 0)
turns_of-snoc id c [] = ground arith
turns_of-snoc id c (d ∷ doe) = ground (arith, turns_of-snoc id c doe)

all_turns-snoc :
    (c : ConfigurationModel) (doe : DoeModel)
    → all_turns (doe ++ (c ∷ [])) ≡ all_turns doe + turns c
all_turns-snoc c [] = ground arith
all_turns-snoc c (d ∷ doe) = ground (arith, all_turns-snoc c doe)

put_back_lem :
    (c : ConfigurationModel) (doe : DoeModel) (id : ℕ)
    → (turns_of id (c ∷ doe)
        ≡ (if c.configuration_id == id then 1 else 0)
          + turns_of id (put_back (explored_once c) doe))
      × (all_turns (c ∷ doe) ≡ suc (all_turns (put_back (explored_once c) doe)))
unfolding put_back explored_once
put_back_lem c doe id = (
  ground (arith, turns_of-snoc id (explored_once c) doe),
  ground (arith, all_turns-snoc (explored_once c) doe),
)

-- As many calls of `get_next` as there are turns left hand out each configuration as often as it is
-- required, at least once, and leave nothing.
pub explore_lem :
    (calls : ℕ) (doe : DoeModel) (id : ℕ)
    → all_turns doe ≤ calls
    → (count id (explore calls doe).0 ≡ turns_of id doe) × ((explore calls doe).1 ≡ [])
unfolding explore get_next explored_once
explore_lem zero [] id e = (refl, refl)
explore_lem zero (c ∷ doe) id e = absurd (ground arith)
explore_lem (suc calls) [] id e = (refl, refl)
explore_lem (suc calls) (c ∷ doe) id e =
    let step = put_back_lem c doe id in
    let rest = explore_lem calls (put_back (explored_once c) doe) id (omega (arith, step.1)) in
    (ground (arith, step.0, rest.0), rest.1)
