-- ===== src/KnowledgeAdaptor/Fields.antt =====
-- The table of the adaptors as a function of the fields of an Operating Point.
use margot_project.Base.{
  ℕ, zero, suc, ◌+◌, ◌<◌, ◌==◌, Bool, true, false, ◌&&◌, if◌then◌else◌, map, length, Option, none,
  some, OpPtr, Value, ◌≡◌, refl, ap, sym, ◌∙◌, ◌≢◌, inl, inr, arith, Bool-cases, eq_of_==,
}
use margot_project.Enums.{OperatingPointSegments, software_knobs, metrics}
use margot_project.CircularBuffer.{set_at, get_elem?}
use margot_project.CircularBuffer.Slots.{
  length-set_at, get_elem?-set_at_same, get_elem?-set_at_other, length-map, get_elem?-map,
}
use margot_project.FieldAdaptor.{Promotions}
use margot_project.OperatingPoint.{op_field_enumerator}
use margot_project.KnowledgeAdaptor.{
  Adaptor, Field, KnowledgeAdaptor, Application, fill_null, slot, empty_table, new_adaptor, emplace,
  get_field_adaptor, evaluate, evaluate_error, clear_adaptor, reset, clear,
}
use mathlib.Core.Option

length-fill_null : (n : ℕ) → length (fill_null n) ≡ n
unfolding fill_null
length-fill_null zero = refl
length-fill_null (suc n) = ap suc (length-fill_null n)

-- An adaptor that is read in a slot of the array
abbrev joined : Option (Option Adaptor) → Option Adaptor
joined o = elim o [ some a ↦ a | none ↦ none ]

joined-fill_null : (n i : ℕ) → joined (get_elem? (fill_null n) i) ≡ none
unfolding fill_null get_elem?
joined-fill_null zero i = refl
joined-fill_null (suc n) zero = refl
joined-fill_null (suc n) (suc i) = joined-fill_null n i

joined-map :
    (f : Adaptor → Adaptor) (o : Option (Option Adaptor))
    → joined (Option.map (Option.map f) o) ≡ Option.map f (joined o)
joined-map f none = refl
joined-map f (some a) = refl

-- The number of fields of a segment
abbrev pub size_of : Application → OperatingPointSegments → ℕ
size_of types software_knobs = types.number_of_software_knobs
size_of types metrics = types.number_of_metrics

abbrev pub IsField : Application → Field → Type 0
IsField types f = f.field_index < size_of types f.segment

abbrev pub same_segment : OperatingPointSegments → OperatingPointSegments → Bool
same_segment software_knobs software_knobs = true
same_segment metrics metrics = true
same_segment _ _ = false

abbrev pub same_field : Field → Field → Bool
same_field f g = same_segment f.segment g.segment && (f.field_index == g.field_index)

enumerator-lt :
    (types : Application) (s : OperatingPointSegments) (i : ℕ)
    → i < size_of types s
    → op_field_enumerator types.number_of_software_knobs s i
      < types.number_of_software_knobs + types.number_of_metrics
unfolding op_field_enumerator
enumerator-lt types software_knobs i p = omega (arith, p)
enumerator-lt types metrics i p = omega (arith, p)

-- Fields of the same slot are the same.
enumerator-same :
    (types : Application) (s s' : OperatingPointSegments) (i j : ℕ)
    → i < size_of types s
    → j < size_of types s'
    → (op_field_enumerator types.number_of_software_knobs s i
        == op_field_enumerator types.number_of_software_knobs s' j)
      ≡ same_segment s s' && (i == j)
unfolding op_field_enumerator
enumerator-same types software_knobs software_knobs i j p q = refl
enumerator-same types software_knobs metrics i j p q = ground (arith, p)
enumerator-same types metrics software_knobs i j p q = ground (arith, q)
enumerator-same types metrics metrics i j p q = ground arith

-- The table that the fields see: a function from the fields to the adaptors
abbrev pub Table : Type 0
Table = Field → Option Adaptor

abbrev pub write : Field → Adaptor → Table → Table
write f a t = λ g. if same_field f g then some a else t g

module _ (types : Application) where
  -- The calls that make a table, with what they make of the function
  pub data Calls : KnowledgeAdaptor → Table → Type 0 where
    constructed : Calls (empty_table types) (λ g. none)
    emplaced :
        (f : Field) (inertia : ℕ) (casts : Promotions) (monitor : ℕ)
        → IsField types f
        → {k : KnowledgeAdaptor} {t : Table} → Calls k t
        → Calls
            (emplace types f inertia casts monitor k)
            (write f (new_adaptor types f inertia casts monitor) t)
    evaluated :
        (current_op : OpPtr) (monitors : ℕ → Option Value) {k : KnowledgeAdaptor} {t : Table}
        → Calls k t
        → Calls
            (evaluate_error types current_op monitors k)
            (λ g. Option.map (evaluate types current_op monitors) (t g))
    was_reset :
        {k : KnowledgeAdaptor} {t : Table}
        → Calls k t
        → Calls (reset types k) (λ g. Option.map (clear_adaptor types) (t g))
    cleared : {k : KnowledgeAdaptor} {t : Table} → Calls k t → Calls (clear types k) (λ g. none)

  abbrev Represents : KnowledgeAdaptor → Table → Type 0
  Represents k t =
      (length k.adaptors ≡ types.number_of_software_knobs + types.number_of_metrics)
      × ((g : Field) → IsField types g → get_field_adaptor types g k ≡ t g)

  Represents-emplace :
      (f : Field) (inertia : ℕ) (casts : Promotions) (monitor : ℕ)
      → IsField types f
      → (k : KnowledgeAdaptor) (t : Table) → Represents k t
      → Represents
          (emplace types f inertia casts monitor k)
          (write f (new_adaptor types f inertia casts monitor) t)
  unfolding emplace get_field_adaptor slot
  Represents-emplace f inertia casts monitor p k t (sized, seen) =
      let a = new_adaptor types f inertia casts monitor in
      let inside : slot types f < length k.adaptors =
        ground (arith, sized, enumerator-lt types f.segment f.field_index p) in
      (
        length-set_at (slot types f) (some a) k.adaptors ∙ sized,
        λ g q.
            let same : (slot types f == slot types g) ≡ same_field f g =
              enumerator-same types f.segment g.segment f.field_index g.field_index p q in
            elim (Bool-cases (slot types f == slot types g)) [
              | inl e ↦
                  let here : slot types f ≡ slot types g = eq_of_== _ _ e in
                  let found : get_elem? (set_at (slot types f) (some a) k.adaptors) (slot types g)
                      ≡ some (some a) =
                    ap (get_elem? (set_at (slot types f) (some a) k.adaptors)) (sym here)
                    ∙ get_elem?-set_at_same (slot types f) (some a) k.adaptors inside in
                  ap joined found ∙ ap (λ b. if b then some a else t g) (sym e ∙ same)
              | inr e ↦
                  let apart : slot types f ≢ slot types g = λ here. ground (arith, e, here) in
                  ap joined
                    (get_elem?-set_at_other (slot types f) (slot types g) (some a) k.adaptors apart)
                  ∙ seen g q
                  ∙ ap (λ b. if b then some a else t g) (sym e ∙ same)
            ],
      )

  Represents-map :
      (h : Adaptor → Adaptor) (k : KnowledgeAdaptor) (t : Table)
      → Represents k t
      → Represents (record { adaptors = map (Option.map h) k.adaptors }) (λ g. Option.map h (t g))
  unfolding get_field_adaptor
  Represents-map h k t (sized, seen) = (
    length-map (Option.map h) k.adaptors ∙ sized,
    λ g q.
        ap joined (get_elem?-map (Option.map h) k.adaptors (slot types g))
        ∙ joined-map h (get_elem? k.adaptors (slot types g))
        ∙ ap (Option.map h) (seen g q),
  )

  Represents-empty : Represents (empty_table types) (λ g. none)
  unfolding get_field_adaptor empty_table
  Represents-empty = (length-fill_null _, λ g p. joined-fill_null _ _)

  Calls-Represents : {k : KnowledgeAdaptor} {t : Table} → Calls k t → Represents k t
  unfolding evaluate_error reset clear
  Calls-Represents constructed = Represents-empty
  Calls-Represents (emplaced f inertia casts monitor p {k} {t} calls) =
      Represents-emplace f inertia casts monitor p k t (Calls-Represents calls)
  Calls-Represents (evaluated current_op monitors {k} {t} calls) =
      Represents-map (evaluate types current_op monitors) k t (Calls-Represents calls)
  Calls-Represents (was_reset {k} {t} calls) =
      Represents-map (clear_adaptor types) k t (Calls-Represents calls)
  Calls-Represents (cleared calls) = Represents-empty

  -- After any calls of a fresh table, each on a field that its segment has, the adaptor that is got for such
  -- a field is that of a function from the fields: `emplace` changes it at its field only, `evaluate_error` and
  -- `reset` change the adaptors of all fields by themselves, and `clear` leaves no adaptor.
  pub get_field_adaptor-Calls :
      {k : KnowledgeAdaptor} {t : Table}
      → Calls k t
      → (g : Field) → IsField types g
      → get_field_adaptor types g k ≡ t g
  get_field_adaptor-Calls calls g p = (Calls-Represents calls).1 g p
