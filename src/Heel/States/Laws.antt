-- ===== src/Heel/States/Laws.antt =====
-- What a state is that passes the validation.
use margot_project.Base.{
  ℕ, Bool, true, false, List, is_empty, Option, none, some, ◌≡◌, refl, arith, Bool-cases,
  Option-cases, inl, inr, subst, ap, sym, ◌∙◌,
}
use margot_project.Heel.Names.{Text, is_valid_identifier}
use margot_project.Heel.States.{
  ConstraintModel, RankFieldModel, StateModel, both, is_rank_defined, complete_field,
  complete_constraint, kind_of, classify_field, classify_constraint, validate,
}
use margot_project.Heel.States.Loops.{All, both-All, both-same, both-is_empty}

module _ (isalpha isalnum : ℕ → Bool) (metrics knobs : List Text) where
  -- The kind is that of the name, which a knob or a metric has, and nothing is left to be set.
  pub record IsCompleteField (r : RankFieldModel) : Type 0 where
    pub known : kind_of isalpha isalnum metrics knobs r.name ≡ some r.kind
    pub named : is_empty r.name ≡ false
    pub weighted : is_empty r.coefficient ≡ false

  pub record IsCompleteConstraint (c : ConstraintModel) : Type 0 where
    pub known : kind_of isalpha isalnum metrics knobs c.name ≡ some c.kind
    pub named : is_empty c.name ≡ false
    pub valued : is_empty c.value ≡ false
    pub confident : is_empty c.confidence ≡ false

  complete_field-set :
      (x y : RankFieldModel)
      → complete_field x ≡ some y
      → (is_empty y.name ≡ false) × (is_empty y.coefficient ≡ false)
  unfolding complete_field
  complete_field-set x y e = elim (Bool-cases (is_empty x.name)) [
    | inl unnamed ↦ absurd (ground (arith, e, unnamed))
    | inr named ↦ (ground (arith, e, named), ground (arith, e, named))
  ]

  classify_field-IsCompleteField :
      (x y : RankFieldModel)
      → (is_empty x.name ≡ false) × (is_empty x.coefficient ≡ false)
      → classify_field isalpha isalnum metrics knobs x ≡ some y
      → IsCompleteField y
  unfolding classify_field
  classify_field-IsCompleteField x y h e =
      elim (Option-cases (kind_of isalpha isalnum metrics knobs x.name)) [
        | inl unknown ↦ absurd (ground (arith, e, unknown))
        | inr (k, known) ↦
            let same : record x { kind = k } ≡ y = ground (arith, e, known) in
            subst IsCompleteField same (record { known = known; named = h.0; weighted = h.1 })
      ]

  complete_field-same : (x : RankFieldModel) → IsCompleteField x → complete_field x ≡ some x
  unfolding complete_field
  complete_field-same x h = rw (h.named, h.weighted, complete_field) refl

  classify_field-same :
      (x : RankFieldModel)
      → IsCompleteField x
      → classify_field isalpha isalnum metrics knobs x ≡ some x
  unfolding classify_field
  classify_field-same x h = rw (h.known, classify_field) refl

  complete_constraint-set :
      (x y : ConstraintModel)
      → complete_constraint x ≡ some y
      → (is_empty y.name ≡ false) × (is_empty y.value ≡ false) × (is_empty y.confidence ≡ false)
  unfolding complete_constraint
  complete_constraint-set x y e = elim (Bool-cases (is_empty x.name)) [
    | inl unnamed ↦ absurd (ground (arith, e, unnamed))
    | inr named ↦ elim (Bool-cases (is_empty x.value)) [
      | inl no_value ↦ absurd (ground (arith, e, named, no_value))
      | inr valued ↦ (
        ground (arith, e, named, valued),
        ground (arith, e, named, valued),
        ground (arith, e, named, valued),
      )
    ]
  ]

  classify_constraint-IsCompleteConstraint :
      (x y : ConstraintModel)
      → (is_empty x.name ≡ false) × (is_empty x.value ≡ false) × (is_empty x.confidence ≡ false)
      → classify_constraint isalpha isalnum metrics knobs x ≡ some y
      → IsCompleteConstraint y
  unfolding classify_constraint
  classify_constraint-IsCompleteConstraint x y h e =
      elim (Option-cases (kind_of isalpha isalnum metrics knobs x.name)) [
        | inl unknown ↦ absurd (ground (arith, e, unknown))
        | inr (k, known) ↦
            let same : record x { kind = k } ≡ y = ground (arith, e, known) in
            subst IsCompleteConstraint same
              (record { known = known; named = h.0; valued = h.1; confident = h.2 })
      ]

  complete_constraint-same :
      (x : ConstraintModel) → IsCompleteConstraint x → complete_constraint x ≡ some x
  unfolding complete_constraint
  complete_constraint-same x h = rw (h.named, h.valued, h.confident, complete_constraint) refl

  classify_constraint-same :
      (x : ConstraintModel)
      → IsCompleteConstraint x
      → classify_constraint isalpha isalnum metrics knobs x ≡ some x
  unfolding classify_constraint
  classify_constraint-same x h = rw (h.known, classify_constraint) refl

  -- A state as the generator takes it
  pub record IsValidated (m : StateModel) : Type 0 where
    pub named : is_empty m.name ≡ false
    pub identified : is_valid_identifier isalpha isalnum m.name ≡ true
    pub ranked : is_rank_defined m ≡ true
    pub fields : All IsCompleteField m.rank_fields
    pub goals : All IsCompleteConstraint m.constraints

  validate-same :
      (m : StateModel) → IsValidated m → validate isalpha isalnum metrics knobs m ≡ some m
  unfolding validate
  validate-same m h =
      let fields =
        both-same IsCompleteField complete_field (classify_field isalpha isalnum metrics knobs)
          m.rank_fields complete_field-same classify_field-same h.fields in
      let goals =
        both-same IsCompleteConstraint complete_constraint
          (classify_constraint isalpha isalnum metrics knobs) m.constraints complete_constraint-same
          classify_constraint-same h.goals in
      rw (h.named, h.identified, h.ranked, fields, goals, validate) refl

  validate_lists :
      (m m' : StateModel)
      → (elim (both complete_field (classify_field isalpha isalnum metrics knobs) m.rank_fields)
          as (λ x. Option StateModel) [
            | none ↦ none
            | some rank_fields' ↦
                elim (both complete_constraint
                    (classify_constraint isalpha isalnum metrics knobs)
                    m.constraints)
                  as (λ x. Option StateModel) [
                    | none ↦ none
                    | some constraints' ↦
                        some (record m { rank_fields = rank_fields'; constraints = constraints' })
                  ]
          ])
        ≡ some m'
      → (both complete_field (classify_field isalpha isalnum metrics knobs) m.rank_fields
          ≡ some m'.rank_fields)
        × (both complete_constraint
              (classify_constraint isalpha isalnum metrics knobs)
              m.constraints
            ≡ some m'.constraints)
        × (record m { rank_fields = m'.rank_fields; constraints = m'.constraints } ≡ m')
  validate_lists m m' e =
      elim (Option-cases
        (both complete_field (classify_field isalpha isalnum metrics knobs) m.rank_fields)) [
          | inl thrown ↦ absurd (ground (arith, e, thrown))
          | inr (r, fields) ↦
              elim (Option-cases (
                both complete_constraint (classify_constraint isalpha isalnum metrics knobs)
                  m.constraints)) [
                    | inl thrown ↦ absurd (ground (arith, e, fields, thrown))
                    | inr (c, goals) ↦
                        let same : record m { rank_fields = r; constraints = c } ≡ m' =
                          ground (arith, e, fields, goals) in
                        (
                          fields ∙ ap (λ (x : StateModel). some x.rank_fields) same,
                          goals ∙ ap (λ (x : StateModel). some x.constraints) same,
                          subst
                              (λ x.
                                record m {
                                  rank_fields = x.rank_fields;
                                  constraints = x.constraints;
                                }
                                ≡ x)
                              same refl,
                        )
                  ]
        ]

  -- The parts of a state that is not refused
  validate_parts :
      (m m' : StateModel)
      → validate isalpha isalnum metrics knobs m ≡ some m'
      → (is_empty m.name ≡ false)
        × (is_valid_identifier isalpha isalnum m.name ≡ true)
        × (is_rank_defined m ≡ true)
        × (both complete_field (classify_field isalpha isalnum metrics knobs) m.rank_fields
            ≡ some m'.rank_fields)
        × (both complete_constraint
              (classify_constraint isalpha isalnum metrics knobs)
              m.constraints
            ≡ some m'.constraints)
        × (record m { rank_fields = m'.rank_fields; constraints = m'.constraints } ≡ m')
  unfolding validate
  validate_parts m m' e = elim (Bool-cases (is_empty m.name)) [
    | inl unnamed ↦ absurd (ground (arith, e, unnamed))
    | inr named ↦ elim (Bool-cases (is_valid_identifier isalpha isalnum m.name)) [
      | inr invalid ↦ absurd (ground (arith, e, named, invalid))
      | inl identified ↦ elim (Bool-cases (is_rank_defined m)) [
        | inr undefined ↦ absurd (ground (arith, e, named, identified, undefined))
        | inl ranked ↦
            let lists =
              validate_lists m m' (sym (rw (named, identified, ranked, validate) refl) ∙ e) in
            (named, identified, ranked, lists.0, lists.1, lists.2)
      ]
    ]
  ]

  -- What passes the validation, with the defaults and the kinds that it sets, is named by an identifier
  -- and has, if there are fields in its rank, a direction and a type; each field of its rank and each of
  -- its constraints is on a knob or a metric, and has the kind of that, a knob before a metric; none
  -- lacks its coefficient, its value or its confidence. A second validation changes nothing.
  pub validate-IsValidated :
      (m m' : StateModel)
      → validate isalpha isalnum metrics knobs m ≡ some m'
      → IsValidated m' × (validate isalpha isalnum metrics knobs m' ≡ some m')
  unfolding is_rank_defined
  validate-IsValidated m m' e =
      let (named, identified, ranked, fields, goals, same) = validate_parts m m' e in
      let same_name : m.name ≡ m'.name = ap (λ (x : StateModel). x.name) same in
      let length_kept =
        both-is_empty complete_field (classify_field isalpha isalnum metrics knobs) m.rank_fields
          m'.rank_fields fields in
      let as_long : is_rank_defined
            (record m { rank_fields = m'.rank_fields; constraints = m'.constraints })
          ≡ is_rank_defined m =
        rw length_kept refl in
      let valid : IsValidated m' = record {
        named = subst (λ n. is_empty n ≡ false) same_name named;
        identified = subst (λ n. is_valid_identifier isalpha isalnum n ≡ true) same_name identified;
        ranked = subst (λ x. is_rank_defined x ≡ true) same (as_long ∙ ranked);
        fields =
            both-All _ IsCompleteField complete_field (classify_field isalpha isalnum metrics knobs)
              m.rank_fields m'.rank_fields complete_field-set classify_field-IsCompleteField fields;
        goals =
            both-All _ IsCompleteConstraint complete_constraint
              (classify_constraint isalpha isalnum metrics knobs) m.constraints m'.constraints
              complete_constraint-set classify_constraint-IsCompleteConstraint goals;
      } in
      (valid, validate-same m' valid)
