-- ===== src/Asrtm/Validity.antt =====
-- The invariant of a manager: its knowledge has one Operating Point for each configuration, each of its
-- states splits that knowledge, and what a state remembers is up to date.
use margot_project.Base.{
  ◌+◌, ◌==◌, Bool, true, false, not, ◌&&◌, List, [], ◌∷◌, Option, none, some, OpPtr, OpStream, ◌≡◌,
  arith, count, Enumerates, b2n, fun_ext, subst, ap₂, ◌∙◌, Bool-cases, inl, inr,
}
use native.Mathlib.Nat.{add_comm}
use margot_project.Knowledge.{Configuration, Knowledge, add, remove}
use margot_project.Knowledge.Laws.{Keyed, holds, add_lem, remove_lem, find_in-knobs}
use margot_project.State.{State}
use margot_project.State.Pipeline.{OpSet}
use margot_project.State.Knowledge.{Splits}
use margot_project.State.Optimum.{Remembers}
use margot_project.Asrtm.{Asrtm, add_to_knowledge, remove_from_knowledge}
use margot_project.Asrtm.States.{StateId, StateMap, find_state, set_state, erase_state, map_states}

-- A state that splits the knowledge `K`, and whose memory is up to date.
abbrev pub IsSound : OpSet → State → Type 0
IsSound K st = Splits K st × Remembers st

-- Each state does so.
abbrev pub AllSound : OpSet → StateMap → Type 0
AllSound K [] = Unit {0}
AllSound K ((id, st) ∷ l) = IsSound K st × AllSound K l

pub map_states-AllSound :
    (K L : OpSet) (f : State → State) (l : StateMap)
    → ((st : State) → IsSound K st → IsSound L (f st))
    → AllSound K l
    → AllSound L (map_states f l)
unfolding map_states
map_states-AllSound K L f [] step h = tt
map_states-AllSound K L f ((id, st) ∷ l) step h =
    (step st h.0, map_states-AllSound K L f l step h.1)

-- A method that makes each state split the new knowledge whatever it held before.
pub renew_states-AllSound :
    (L : OpSet) (f : State → State) (l : StateMap)
    → ((st : State) → IsSound L (f st))
    → AllSound L (map_states f l)
unfolding map_states
renew_states-AllSound L f [] step = tt
renew_states-AllSound L f ((id, st) ∷ l) step = (step st, renew_states-AllSound L f l step)

pub find_state-AllSound :
    (K : OpSet) (id : StateId) (l : StateMap) (st : State)
    → AllSound K l
    → find_state id l ≡ some st
    → IsSound K st
unfolding find_state
find_state-AllSound K id [] st h e = absurd (ground arith)
find_state-AllSound K id ((k, other) ∷ l) st h e = elim (Bool-cases (k == id)) [
  | inl here ↦ subst (IsSound K) (ground (arith, here)) h.0
  | inr elsewhere ↦ find_state-AllSound K id l st h.1 (ground (arith, elsewhere))
]

pub set_state-AllSound :
    (K : OpSet) (id : StateId) (new : State) (l : StateMap)
    → IsSound K new
    → AllSound K l
    → AllSound K (set_state id new l)
unfolding set_state
set_state-AllSound K id new [] s h = tt
set_state-AllSound K id new ((k, st) ∷ l) s h = elim (Bool-cases (k == id)) [
  | inl here ↦ rw here (s, h.1)
  | inr elsewhere ↦ rw elsewhere (h.0, set_state-AllSound K id new l s h.1)
]

pub erase_state-AllSound :
    (K : OpSet) (id : StateId) (l : StateMap) → AllSound K l → AllSound K (erase_state id l)
unfolding erase_state
erase_state-AllSound K id [] h = tt
erase_state-AllSound K id ((k, st) ∷ l) h = elim (Bool-cases (k == id)) [
  | inl here ↦ rw here h.1
  | inr elsewhere ↦ rw elsewhere (h.0, erase_state-AllSound K id l h.1)
]

pub Splits-cong : {K L : OpSet} (st : State) → ((p : OpPtr) → K p ≡ L p) → Splits K st → Splits L st
Splits-cong st e h = subst (λ k. Splits k st) (fun_ext e) h

count-optional :
    (p : OpPtr) (found : Option OpPtr) (l : OpStream)
    → count p (elim found [ some q ↦ q ∷ l | none ↦ l ])
      ≡ b2n (elim found [ some q ↦ q == p | none ↦ false ]) + count p l
count-optional p none l = omega arith
count-optional p (some q) l = ground arith

-- Two changes one after the other.
b2n-both :
    (a b c : Bool)
    → (a ≡ true → b ≡ true)
    → (b ≡ true → c ≡ true)
    → b2n (b && not a) + b2n (c && not b) ≡ b2n (c && not a)
b2n-both a b c f g = ground arith

module _ (get_knobs : OpPtr → Configuration) where
  abbrev pub IsValid : Asrtm → Type 0
  IsValid m =
      Keyed get_knobs m.knowledge.knowledge
      × AllSound (holds get_knobs m.knowledge) m.application_optimizers

  add_gain :
      (k : Knowledge) (op p : OpPtr)
      → Keyed get_knobs k.knowledge
      → let (k', found) = add get_knobs k op in
        (b2n (elim found [ some q ↦ q == p | none ↦ false ])
          ≡ b2n (holds get_knobs k' p && not (holds get_knobs k p)))
        × (holds get_knobs k p ≡ true → holds get_knobs k' p ≡ true)
  add_gain k op p h =
      let a = add_lem get_knobs k op h in
      (ground (arith, a.1, a.3, a.4 p), λ e. ground (arith, a.4 p))

  remove_gain :
      (k : Knowledge) (conf : Configuration) (p : OpPtr)
      → Keyed get_knobs k.knowledge
      → let (k', found) = remove k conf in
        (b2n (elim found [ some q ↦ q == p | none ↦ false ])
          ≡ b2n (holds get_knobs k p && not (holds get_knobs k' p)))
        × (holds get_knobs k' p ≡ true → holds get_knobs k p ≡ true)
  remove_gain k conf p h =
      let r = remove_lem get_knobs k conf h in
      (
        ground (arith, r.1, r.2 p, find_in-knobs get_knobs k.knowledge conf p h),
        λ e. ground (arith, r.2 p),
      )

  -- On a knowledge whose configurations differ, the loop of `add_operating_points` keeps that, returns
  -- exactly the Operating Points that the knowledge gained, each once, and loses none.
  pub add_to_knowledge_lem :
      (k : Knowledge) (ops : OpStream)
      → Keyed get_knobs k.knowledge
      → let (k', new_ops) = add_to_knowledge get_knobs k ops in
        Keyed get_knobs k'.knowledge
        × Enumerates new_ops (λ p. holds get_knobs k' p && not (holds get_knobs k p))
        × ((p : OpPtr) → holds get_knobs k p ≡ true → holds get_knobs k' p ≡ true)
  unfolding add_to_knowledge
  add_to_knowledge_lem k [] h = (h, (λ p. ground arith), (λ p e. e))
  add_to_knowledge_lem k (op ∷ ops) h =
      let (k', found) = add get_knobs k op in
      let (k'', new_ops) = add_to_knowledge get_knobs k' ops in
      let rest = add_to_knowledge_lem k' ops (add_lem get_knobs k op h).0 in
      (
        rest.0,
        (λ p.
            let g = add_gain k op p h in
            count-optional p found new_ops
            ∙ ap₂ ◌+◌ g.0 (rest.1 p)
            ∙ b2n-both (holds get_knobs k p) (holds get_knobs k' p) (holds get_knobs k'' p) g.1
                (rest.2 p)),
        (λ p e. rest.2 p ((add_gain k op p h).1 e)),
      )

  -- On a knowledge whose configurations differ, the loop of `remove_operating_points` keeps that, returns
  -- exactly the Operating Points that the knowledge lost, each once, and gains none.
  pub remove_from_knowledge_lem :
      (k : Knowledge) (confs : List Configuration)
      → Keyed get_knobs k.knowledge
      → let (k', removed_ops) = remove_from_knowledge k confs in
        Keyed get_knobs k'.knowledge
        × Enumerates removed_ops (λ p. holds get_knobs k p && not (holds get_knobs k' p))
        × ((p : OpPtr) → holds get_knobs k' p ≡ true → holds get_knobs k p ≡ true)
  unfolding remove_from_knowledge
  remove_from_knowledge_lem k [] h = (h, (λ p. ground arith), (λ p e. e))
  remove_from_knowledge_lem k (conf ∷ confs) h =
      let (k', found) = remove k conf in
      let (k'', removed_ops) = remove_from_knowledge k' confs in
      let rest = remove_from_knowledge_lem k' confs (remove_lem get_knobs k conf h).0 in
      (
        rest.0,
        (λ p.
            let g = remove_gain k conf p h in
            count-optional p found removed_ops
            ∙ ap₂ ◌+◌ g.0 (rest.1 p)
            ∙ add_comm _ _
            ∙ b2n-both (holds get_knobs k'' p) (holds get_knobs k' p) (holds get_knobs k p)
                (rest.2 p) g.1),
        (λ p e. (remove_gain k conf p h).1 (rest.2 p e)),
      )
