-- ===== src/Knowledge/Laws.antt =====
-- The knowledge holds at most one Operating Point for each configuration, and lists what it holds.
use margot_project.Base.{
  ◌==◌, if◌then◌else◌, Bool, true, false, not, ◌&&◌, ◌||◌, [], ◌∷◌, none, some, OpPtr, ◌≡◌, refl,
  arith, count, Enumerates, b2n,
}
use margot_project.Knowledge.{
  Configuration, OperatingPointList, Knowledge, find_in, erase_in, add, remove, to_stream,
  stream_of,
}

module _ (get_knobs : OpPtr → Configuration) where
  -- Each entry stands under the configuration of its Operating Point, and the configurations differ.
  abbrev pub Keyed : OperatingPointList → Type 0
  Keyed [] = Unit {0}
  Keyed ((c, p) ∷ l) = (c ≡ get_knobs p) × (find_in c l ≡ none) × Keyed l

  -- The knowledge has this very Operating Point under its configuration.
  abbrev pub holds : Knowledge → OpPtr → Bool
  holds k p = elim (find_in (get_knobs p) k.knowledge) [ some q ↦ q == p | none ↦ false ]

  count-absent :
      (l : OperatingPointList) (p : OpPtr)
      → Keyed l
      → find_in (get_knobs p) l ≡ none
      → count p (stream_of l) ≡ 0
  unfolding find_in stream_of
  count-absent [] p h e = refl
  count-absent ((c, q) ∷ l) p h e = ground (arith, count-absent l p h.2)

  count-stream_of :
      (l : OperatingPointList) (p : OpPtr)
      → Keyed l
      → count p (stream_of l)
        ≡ b2n (elim (find_in (get_knobs p) l) [ some q ↦ q == p | none ↦ false ])
  unfolding find_in stream_of
  count-stream_of [] p h = refl
  count-stream_of ((c, q) ∷ l) p h = ground (arith, count-stream_of l p h.2, count-absent l p h.2)

  -- `to_stream` lists what the knowledge holds, each Operating Point once.
  pub to_stream-Enumerates :
      (k : Knowledge) → Keyed k.knowledge → Enumerates (to_stream k) (holds k)
  unfolding to_stream
  to_stream-Enumerates k h p = count-stream_of k.knowledge p h

  -- No Operating Point has the configuration of this one yet.
  abbrev pub is_new : Knowledge → OpPtr → Bool
  is_new k op = elim (find_in (get_knobs op) k.knowledge) [ some _ ↦ false | none ↦ true ]

  -- `add` refuses an Operating Point whose configuration is there, and changes nothing then; otherwise it
  -- adds exactly this one, which was not there, and returns it.
  pub add_lem :
      (k : Knowledge) (op : OpPtr)
      → Keyed k.knowledge
      → Keyed (add get_knobs k op).0.knowledge
        × ((add get_knobs k op).1 ≡ (if is_new k op then some op else none))
        × (is_new k op ≡ false → (add get_knobs k op).0 ≡ k)
        × (is_new k op ≡ true → holds k op ≡ false)
        × ((p : OpPtr) → holds (add get_knobs k op).0 p ≡ (holds k p || (is_new k op && op == p)))
  unfolding add find_in
  add_lem k op h = (ground arith, ground arith, ground arith, ground arith, λ p. ground arith)

  erase_in-Keyed :
      (conf : Configuration) (l : OperatingPointList)
      → Keyed l
      → Keyed (erase_in conf l)
        × ((c : Configuration)
            → find_in c (erase_in conf l) ≡ (if c == conf then none else find_in c l))
  unfolding erase_in find_in
  erase_in-Keyed conf [] h = (tt, λ c. ground arith)
  erase_in-Keyed conf ((d, q) ∷ l) h =
      let rest = erase_in-Keyed conf l h.2 in
      (ground (arith, rest.0, rest.1 d), λ c. ground (arith, rest.1 c))

  -- `remove` returns what stands under the configuration, and takes away exactly that.
  pub remove_lem :
      (k : Knowledge) (conf : Configuration)
      → Keyed k.knowledge
      → Keyed (remove k conf).0.knowledge
        × ((remove k conf).1 ≡ find_in conf k.knowledge)
        × ((p : OpPtr) → holds (remove k conf).0 p ≡ (holds k p && not (get_knobs p == conf)))
  unfolding remove
  remove_lem k conf h =
      let e = erase_in-Keyed conf k.knowledge h in
      (ground (arith, e.0), ground arith, λ p. ground (arith, e.1 (get_knobs p)))

  -- What stands under a configuration has it.
  pub find_in-knobs :
      (l : OperatingPointList) (conf : Configuration) (p : OpPtr)
      → Keyed l
      → find_in conf l ≡ some p
      → get_knobs p ≡ conf
  unfolding find_in
  find_in-knobs [] conf p h e = ground arith
  find_in-knobs ((c, q) ∷ l) conf p h e = ground (arith, find_in-knobs l conf p h.2)
